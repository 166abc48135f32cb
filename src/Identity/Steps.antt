-- ===== src/Identity/Steps.antt =====
-- Every way in which the identity ledger changes, as a relation between sessions, and what holds
-- of a ledger however many of them have happened.
use criminal_networks_analys.Common.{
  ℕ, suc, String, ◌≤◌, ◌<◌, ◌≡◌, refl, sym, subst, true, ◌||◌, ◌==◌, any, Bool-cases, Option, none,
  some, List, [], ◌∷◌, ◌++◌, Option-cases, inl, inr, All, All-append, arith,
}
use criminal_networks_analys.Identity.Store.{
  Session, IdentityMembership, IdentityRevision, IdentityDecision,
}
use criminal_networks_analys.Identity.Monad.{ok}
use criminal_networks_analys.Identity.Ledger.{max_revision, open_membership}
use criminal_networks_analys.Identity.Moves.{moved_table}
use criminal_networks_analys.Identity.Adjudication.{
  AdjudicationResult, confirm_match, reject_match, split_entity, mark_unresolved,
}
use criminal_networks_analys.Identity.Membership.Spec.{
  active_count, IsOneActive, WithinRow, AreWithin,
}
use criminal_networks_analys.Identity.Membership.Moving.{
  active_count-moved_table, active_count-append,
}
use criminal_networks_analys.Identity.Membership.Bounds.{
  AreWithin-moved_table, AreWithin-append, AreWithin-suc,
}
use criminal_networks_analys.Identity.Membership.Holders.{active_count-zero}
use criminal_networks_analys.Identity.Effects.Steps.{Decided}
use criminal_networks_analys.Identity.Effects.Confirm.{confirm-Confirmed}
use criminal_networks_analys.Identity.Effects.Split.{split-Splitted}
use criminal_networks_analys.Identity.Effects.Reject.{reject-Decided, unresolved-Decided}
use criminal_networks_analys.Identity.Effects.Open.{Opened, open_membership-Opened}

-- One adjudication that succeeded.
pub data Adjudicates (s t : Session) : Type 0 where
  confirms :
      (actor note : String) (parent a b : ℕ) (candidate : Option ℕ) (r : AdjudicationResult)
      → confirm_match actor note parent a b candidate s ≡ ok (r, t)
      → Adjudicates s t
  rejects :
      (actor note : String) (parent a b : ℕ) (basis : String) (candidate : Option ℕ)
      (r : AdjudicationResult)
      → reject_match actor note parent a b basis candidate s ≡ ok (r, t)
      → Adjudicates s t
  splits :
      (actor note : String) (parent entity : ℕ) (mentions : List ℕ) (target : Option ℕ)
      (r : AdjudicationResult)
      → split_entity actor note parent entity mentions target s ≡ ok (r, t)
      → Adjudicates s t
  leaves :
      (actor note : String) (parent a b : ℕ) (candidate : Option ℕ) (r : AdjudicationResult)
      → mark_unresolved actor note parent a b candidate s ≡ ok (r, t)
      → Adjudicates s t

-- A change of the ledger. The revision that a membership is opened at exists (its foreign key).
pub data Step (s t : Session) : Type 0 where
  adjudicates : Adjudicates s t → Step s t
  opens :
      (mention entity : ℕ) (revision : Option ℕ) (m : IdentityMembership)
      → ((n : ℕ) → revision ≡ some n → n < s.next_revision)
      → open_membership mention entity revision s ≡ ok (m, t)
      → Step s t

pub data Reach (s : Session) : Session → Type 0 where
  here : Reach s s
  next : {t u : Session} → Reach s t → Step t u → Reach s u

abbrev pub RevisionBelow : ℕ → IdentityRevision → Type 0
RevisionBelow n r = r.revision_id < n

abbrev pub DecisionBelow : ℕ → IdentityDecision → Type 0
DecisionBelow n d = (d.result_revision_id < n) × (d.parent_revision_id < n)

-- What the schema and the code promise of the ledger: one active membership for a mention, and no
-- revision, be it the parent of a decision, that was not handed out.
pub record IsSound (s : Session) : Type 0 where
  pub one_active : IsOneActive s.memberships
  pub within : AreWithin s.next_revision s.memberships
  pub revisions : All (RevisionBelow s.next_revision) s.revisions
  pub decisions : All (DecisionBelow s.next_revision) s.decisions

RevisionsBelow-suc :
    (n : ℕ) (rs : List IdentityRevision) → All (RevisionBelow n) rs → All (RevisionBelow (suc n)) rs
RevisionsBelow-suc n [] h = tt
RevisionsBelow-suc n (r ∷ rs) h = (omega arith, RevisionsBelow-suc n rs h.1)

DecisionsBelow-suc :
    (n : ℕ) (ds : List IdentityDecision) → All (DecisionBelow n) ds → All (DecisionBelow (suc n)) ds
DecisionsBelow-suc n [] h = tt
DecisionsBelow-suc n (d ∷ ds) h =
    ((omega (arith, h.0.0), omega (arith, h.0.1)), DecisionsBelow-suc n ds h.1)

-- A parent that the foreign key accepts was handed out.
is_revision-lt :
    (parent n : ℕ) (rs : List IdentityRevision)
    → All (RevisionBelow n) rs
    → (any (λ r. r.revision_id == parent) rs || n == parent) ≡ true
    → parent < suc n
is_revision-lt parent n [] all h = ground (arith, h)
is_revision-lt parent n (r ∷ rs) all h = elim (Bool-cases (r.revision_id == parent)) [
  | inl same ↦ ground (arith, all.0, same)
  | inr other ↦ is_revision-lt parent n rs all.1 (ground (arith, h, other))
]

-- Any decision keeps the invariant if its table of memberships does.
Decided-IsSound :
    {s t : Session} {ms : List IdentityMembership} {d : IdentityDecision}
    → IsSound s
    → IsOneActive ms
    → AreWithin (suc s.next_revision) ms
    → Decided s t ms d
    → IsSound t
Decided-IsSound {s} {d = d} v one within h = record {
  one_active = subst IsOneActive (sym h.memberships) one;
  within = rw (h.memberships, h.next_revision) within;
  revisions =
      rw (h.revisions, h.next_revision)
        (All-append (RevisionBelow (suc s.next_revision)) s.revisions _
          (RevisionsBelow-suc s.next_revision s.revisions v.revisions) (omega arith, tt));
  decisions =
      rw (h.decisions, h.next_revision)
        (All-append (DecisionBelow (suc s.next_revision)) s.decisions _
          (DecisionsBelow-suc s.next_revision s.decisions v.decisions)
          (
            (
              omega (arith, h.result_revision),
              is_revision-lt d.parent_revision_id s.next_revision s.revisions v.revisions
                  h.known_parent,
            ),
            tt,
          ));
}

module _ (ids : ℕ → ℕ) (d : ℕ) (mentions : List ℕ) (target : ℕ) {s : Session} (v : IsSound s) where
  moved_sound :
      IsOneActive (moved_table ids d mentions target s.next_revision s.memberships)
      × AreWithin
          (suc s.next_revision)
          (moved_table ids d mentions target s.next_revision s.memberships)
  moved_sound = (
    (λ x. rw active_count-moved_table (v.one_active x)),
    AreWithin-moved_table ids d mentions target s.next_revision s.memberships v.within,
  )

pub Adjudicates-IsSound : {s t : Session} → Adjudicates s t → IsSound s → IsSound t
Adjudicates-IsSound {s} (confirms actor note parent a b candidate r h) v =
    let (survivor, absorbed, c) = confirm-Confirmed actor note parent a b candidate s h in
    let k = moved_sound s.ids (suc s.drawn) _ survivor v in Decided-IsSound v k.0 k.1 c.decided
Adjudicates-IsSound {s} (rejects actor note parent a b basis candidate r h) v =
    Decided-IsSound v v.one_active (AreWithin-suc s.next_revision s.memberships v.within)
      (reject-Decided actor note parent a b basis candidate s h)
Adjudicates-IsSound {s} (splits actor note parent entity mentions target r h) v =
    let (onto, d, c) = split-Splitted actor note parent entity mentions target s h in
    let k = moved_sound s.ids d _ onto v in Decided-IsSound v k.0 k.1 c.decided
Adjudicates-IsSound {s} (leaves actor note parent a b candidate r h) v =
    Decided-IsSound v v.one_active (AreWithin-suc s.next_revision s.memberships v.within)
      (unresolved-Decided actor note parent a b candidate s h)

pub max_revision-lt :
    (n h : ℕ) (rs : List IdentityRevision)
    → All (RevisionBelow n) rs
    → max_revision rs ≡ some h
    → h < n
unfolding max_revision
max_revision-lt n h [] all e = cc
max_revision-lt n h (r ∷ rs) all e = elim (Option-cases (max_revision rs)) [
  | inl alone ↦ ground arith
  | inr (k, old) ↦ ground (arith, max_revision-lt n k rs all.1 old)
]

one_more :
    (x : ℕ) (ms : List IdentityMembership) (m : IdentityMembership)
    → IsOneActive ms
    → active_count m.mention_id ms ≡ 0
    → active_count x (ms ++ m ∷ []) ≤ 1
one_more x ms m one zero_before = rw active_count-append (ground (arith, one x))

Opened-below :
    (mention entity : ℕ) (revision : Option ℕ) {s t : Session} {m : IdentityMembership}
    → IsSound s
    → ((n : ℕ) → revision ≡ some n → n < s.next_revision)
    → Opened s t mention entity revision m
    → m.opened_revision_id < s.next_revision
Opened-below mention entity none {s} v exists o =
    max_revision-lt s.next_revision _ s.revisions v.revisions (o.at_head refl)
Opened-below mention entity (some n) v exists o = rw (o.at_given n refl) (exists n refl)

within_open :
    {n : ℕ} (m : IdentityMembership)
    → m.opened_revision_id < n
    → m.closed_revision_id ≡ none
    → WithinRow n m
within_open m h e = ground arith

pub Opened-IsSound :
    (mention entity : ℕ) (revision : Option ℕ) {s t : Session} {m : IdentityMembership}
    → IsSound s
    → ((n : ℕ) → revision ≡ some n → n < s.next_revision)
    → Opened s t mention entity revision m
    → IsSound t
Opened-IsSound mention entity revision {s} {m = m} v exists o = record {
  one_active = subst IsOneActive (sym o.memberships) (λ x.
      one_more x s.memberships m v.one_active
        (active_count-zero m.mention_id s.memberships (cc (o.mention_id, o.unresolved))));
  within =
      rw (o.memberships, o.next_revision)
        (AreWithin-append s.next_revision s.memberships (m ∷ []) v.within
          (within_open m (Opened-below mention entity revision v exists o) o.still_open, tt));
  revisions = rw (o.revisions, o.next_revision) v.revisions;
  decisions = rw (o.decisions, o.next_revision) v.decisions;
}

pub Step-IsSound : {s t : Session} → Step s t → IsSound s → IsSound t
Step-IsSound (adjudicates a) v = Adjudicates-IsSound a v
Step-IsSound {s} (opens mention entity revision m exists h) v =
    Opened-IsSound mention entity revision v exists
      (open_membership-Opened mention entity revision s h)

-- From a sound ledger every sequence of changes leads to a sound one: a mention never has two
-- active memberships, no row or revision names a revision that was not handed out, and neither does a
-- decision, as its parent or as its result.
pub Reach-IsSound : {s t : Session} → Reach s t → IsSound s → IsSound t
Reach-IsSound here v = v
Reach-IsSound (next r st) v = Step-IsSound st (Reach-IsSound r v)
