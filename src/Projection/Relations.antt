-- ===== src/Projection/Relations.antt =====
-- `relation_index`: what it gives for each claim.
use mathlib.Core.List.{append-nil, append_assoc}
use criminal_networks_analys.Common.{
  ℕ, ◌≡◌, refl, sym, ◌∙◌, Bool, true, false, Option, none, some, List, [], ◌∷◌, ◌++◌, arith, select,
  ◌==◌,
}
use criminal_networks_analys.Common.Dict.{lookup-insert}
use criminal_networks_analys.Projection.Store.{ClaimRelation}
use criminal_networks_analys.Projection.Support.{
  Touch, Index, touches, append_touch, index_both, index_all, relation_index, is_visible,
}

abbrev when : Bool → Touch → List Touch
when true t = t ∷ []
when false t = []

-- What touches the claim, relation by relation: the far end of each that starts or ends at it.
abbrev pub ends_at : ℕ → List ClaimRelation → List Touch
ends_at claim [] = []
ends_at claim (r ∷ rs) =
    (when (r.from_claim == claim) (r.to_claim, r.relation)
      ++ when (r.to_claim == claim) (r.from_claim, r.relation))
    ++ ends_at claim rs

touches-append_touch :
    (claim end : ℕ) (t : Touch) (index : Index)
    → touches claim (append_touch end t index) ≡ touches claim index ++ when (end == claim) t
touches-append_touch claim end t index = ground (
  arith,
  lookup-insert end claim (touches end index ++ t ∷ []) index,
  append-nil (touches claim index),
)

touches-index_all :
    (claim : ℕ) (rs : List ClaimRelation) (index : Index)
    → touches claim (index_all rs index) ≡ touches claim index ++ ends_at claim rs
unfolding index_all
touches-index_all claim [] index = sym (append-nil (touches claim index))
touches-index_all claim (r ∷ rs) index =
    touches-index_all claim rs (index_both r index)
    ∙ rw (touches-append_touch, touches-append_touch) (grind (arith, append_assoc))

nothing_visible :
    (claim : ℕ) (rs : List ClaimRelation) → ends_at claim (select (is_visible (some [])) rs) ≡ []
nothing_visible claim [] = refl
nothing_visible claim (r ∷ rs) = ground (arith, nothing_visible claim rs)

-- The index gives every claim exactly the visible relations that touch it, in their order and with
-- the claim at the other end; one that starts and ends at the claim is given twice.
pub touches-relation_index :
    (claim : ℕ) (visible_to : Option (List ℕ)) (rs : List ClaimRelation)
    → touches claim (relation_index visible_to rs)
      ≡ ends_at claim (select (is_visible visible_to) rs)
unfolding relation_index
touches-relation_index claim none rs = touches-index_all claim (select (is_visible none) rs) []
touches-relation_index claim (some []) rs = sym (nothing_visible claim rs)
touches-relation_index claim (some (v ∷ vs)) rs =
    touches-index_all claim (select (is_visible (some (v ∷ vs))) rs) []
