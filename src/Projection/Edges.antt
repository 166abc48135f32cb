-- ===== src/Projection/Edges.antt =====
-- What the rows of a build say of an edge at a date, and what the claims say of it.
use criminal_networks_analys.Common.{
  ℕ, ◌≤◌, ◌<◌, ◌≡◌, Bool, true, false, ◌&&◌, ◌||◌, not, Option, none, some, List, [], ◌∷◌, map, ltb,
  leb, ◌==◌, if◌then◌else◌, arith, select, sort_by, identity, is_none,
}
use criminal_networks_analys.Projection.Store.{Claim, EdgeProjection}
use criminal_networks_analys.Projection.Groups.{Key, Group, Resolver, same_key, key_of}
use criminal_networks_analys.Projection.Segments.Merging.{or_else}
pub mod Grouped
pub mod Rows
pub mod Built
pub mod Known
pub mod Apart
pub mod Distinct
pub mod Succeeds
pub mod Overflows

abbrev pub not_after : Option ℕ → ℕ → Bool
not_after none d = true
not_after (some from) d = leb from d

abbrev pub not_before : Option ℕ → ℕ → Bool
not_before none d = true
not_before (some to) d = leb d to

-- The claim is valid at the date; both its bounds are inclusive.
abbrev pub valid_on : ℕ → Claim → Bool
valid_on d c = not_after c.valid_from d && not_before c.valid_to d

abbrev pub key_of_row : EdgeProjection → Key
key_of_row e = record { subject = e.subject_id; object = e.object_id; predicate = e.predicate }

abbrev pub row_claims : Key → ℕ → EdgeProjection → Option (List ℕ)
row_claims k d e =
    if same_key (key_of_row e) k && (not_after e.segment_from d && not_before e.segment_to d)
    then some e.claim_ids
    else none

-- The claims that the projection names for the edge at the date.
abbrev pub edge_claims_at : Key → ℕ → List EdgeProjection → Option (List ℕ)
edge_claims_at k d [] = none
edge_claims_at k d (e ∷ es) = or_else (row_claims k d e) (edge_claims_at k d es)

abbrev pub nonempty : List ℕ → Option (List ℕ)
nonempty [] = none
nonempty (c ∷ cs) = some (c ∷ cs)

-- The claims that are valid at the date, sorted, if there are any.
abbrev pub valid_claims : ℕ → List Claim → Option (List ℕ)
valid_claims d cs = nonempty (sort_by identity (map (λ c. c.claim_id) (select (valid_on d) cs)))

abbrev pub with_key : Resolver → Key → Claim → Option ℕ → Bool
with_key v k c none = false
with_key v k c (some object) = same_key (key_of v object c) k && not (k.subject == k.object)

-- The claim is not retracted, and its ends resolve to the two different ends of the edge.
abbrev pub supports : Resolver → Key → Claim → Bool
supports v k c = is_none c.retracted_at && with_key v k c c.object_id
