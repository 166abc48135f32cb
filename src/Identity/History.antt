-- ===== src/Identity/History.antt =====
-- What the tables of a later session keep of an earlier one.
use mathlib.Core.List.{append_assoc, append-nil}
use criminal_networks_analys.Common.{
  ℕ, suc, ◌<◌, ◌≡◌, refl, sym, ap, ◌∙◌, subst, some, List, [], ◌∷◌, ◌++◌, map, arith,
}
use criminal_networks_analys.Identity.Store.{
  Session, IdentityMembership, IdentityDecision, IdentityRevision,
}
use criminal_networks_analys.Identity.Moves.{moved_table, close_moved}
use criminal_networks_analys.Identity.Membership.Spec.{entity_at}
use criminal_networks_analys.Identity.Membership.Moving.{entity_at-moved_table}
use criminal_networks_analys.Identity.Effects.Steps.{Decided}
use criminal_networks_analys.Identity.Effects.Confirm.{confirm-Confirmed}
use criminal_networks_analys.Identity.Effects.Split.{split-Splitted}
use criminal_networks_analys.Identity.Effects.Reject.{reject-Decided, unresolved-Decided}
use criminal_networks_analys.Identity.Effects.Open.{open_membership-Opened}
use criminal_networks_analys.Identity.Steps.{
  Adjudicates, confirms, rejects, splits, leaves, Step, adjudicates, opens, Reach, here, next,
}

-- A decision changes who a mention belonged to at no revision that existed before it.
pub Adjudicates-entity_at :
    {s t : Session}
    → Adjudicates s t
    → (revision x : ℕ) → revision < s.next_revision
    → entity_at revision x t.memberships ≡ entity_at revision x s.memberships
Adjudicates-entity_at {s} (confirms actor note parent a b candidate r h) revision x before =
    let (survivor, absorbed, c) = confirm-Confirmed actor note parent a b candidate s h in
    rw c.decided.memberships (
      entity_at-moved_table s.ids (suc s.drawn) _ survivor s.next_revision s.memberships revision x
        before)
Adjudicates-entity_at {s} (rejects actor note parent a b basis candidate r h) revision x before =
    rw (reject-Decided actor note parent a b basis candidate s h).memberships
Adjudicates-entity_at {s} (splits actor note parent entity mentions target r h) revision x before =
    let (onto, d, c) = split-Splitted actor note parent entity mentions target s h in
    rw c.decided.memberships
      (entity_at-moved_table s.ids d _ onto s.next_revision s.memberships revision x before)
Adjudicates-entity_at {s} (leaves actor note parent a b candidate r h) revision x before =
    rw (unresolved-Decided actor note parent a b candidate s h).memberships

-- The row is the one it was, and is still closed by what closed it.
pub record KeepsRow (m n : IdentityMembership) : Type 0 where
  pub membership_id : n.membership_id ≡ m.membership_id
  pub mention_id : n.mention_id ≡ m.mention_id
  pub entity_id : n.entity_id ≡ m.entity_id
  pub opened : n.opened_revision_id ≡ m.opened_revision_id
  pub closed : (c : ℕ) → m.closed_revision_id ≡ some c → n.closed_revision_id ≡ some c

-- Every row of the first table stands at its place in the second one.
abbrev pub Extends : List IdentityMembership → List IdentityMembership → Type 0
Extends [] ns = Unit
Extends (m ∷ ms) [] = ⊥
Extends (m ∷ ms) (n ∷ ns) = KeepsRow m n × Extends ms ns

Extends-append : (ms ns : List IdentityMembership) → Extends ms (ms ++ ns)
Extends-append [] ns = tt
Extends-append (m ∷ ms) ns = (
  record {
    membership_id = refl;
    mention_id = refl;
    entity_id = refl;
    opened = refl;
    closed = λ c e. e;
  },
  Extends-append ms ns,
)

Extends-trans : (ms ns os : List IdentityMembership) → Extends ms ns → Extends ns os → Extends ms os
Extends-trans [] ns os h k = tt
Extends-trans (m ∷ ms) [] os h k = elim h [ ]
Extends-trans (m ∷ ms) (n ∷ ns) [] h k = elim k [ ]
Extends-trans (m ∷ ms) (n ∷ ns) (o ∷ os) h k = (
  record {
    membership_id = k.0.membership_id ∙ h.0.membership_id;
    mention_id = k.0.mention_id ∙ h.0.mention_id;
    entity_id = k.0.entity_id ∙ h.0.entity_id;
    opened = k.0.opened ∙ h.0.opened;
    closed = λ c e. k.0.closed c (h.0.closed c e);
  },
  Extends-trans ms ns os h.1 k.1,
)

module _ (mentions : List ℕ) (target revision : ℕ) where
  KeepsRow-close : (m : IdentityMembership) → KeepsRow m (close_moved mentions target revision m)
  KeepsRow-close m = record {
    membership_id = ground arith;
    mention_id = ground arith;
    entity_id = ground arith;
    opened = ground arith;
    closed = λ c e. ground arith;
  }

  Extends-close :
      (ms ns : List IdentityMembership)
      → Extends ms (map (close_moved mentions target revision) ms ++ ns)
  Extends-close [] ns = tt
  Extends-close (m ∷ ms) ns = (KeepsRow-close m, Extends-close ms ns)

-- What a later session keeps of an earlier one.
pub record Grows (s t : Session) : Type 0 where
  pub memberships : Extends s.memberships t.memberships
  pub decisions : (ds : List IdentityDecision) × (t.decisions ≡ s.decisions ++ ds)
  pub revisions : (rs : List IdentityRevision) × (t.revisions ≡ s.revisions ++ rs)

Decided-Grows :
    {s t : Session} {ms : List IdentityMembership} {d : IdentityDecision}
    → Extends s.memberships ms
    → Decided s t ms d
    → Grows s t
Decided-Grows {s} {d = d} k h = record {
  memberships = subst (Extends s.memberships) (sym h.memberships) k;
  decisions = (d ∷ [], h.decisions);
  revisions = (_, h.revisions);
}

Adjudicates-Grows : {s t : Session} → Adjudicates s t → Grows s t
unfolding moved_table
Adjudicates-Grows {s} (confirms actor note parent a b candidate r h) =
    let (survivor, absorbed, c) = confirm-Confirmed actor note parent a b candidate s h in
    Decided-Grows (Extends-close _ survivor s.next_revision s.memberships _) c.decided
Adjudicates-Grows {s} (rejects actor note parent a b basis candidate r h) =
    Decided-Grows
      (subst (Extends s.memberships) (append-nil s.memberships) (Extends-append s.memberships []))
      (reject-Decided actor note parent a b basis candidate s h)
Adjudicates-Grows {s} (splits actor note parent entity mentions target r h) =
    let (onto, d, c) = split-Splitted actor note parent entity mentions target s h in
    Decided-Grows (Extends-close _ onto s.next_revision s.memberships _) c.decided
Adjudicates-Grows {s} (leaves actor note parent a b candidate r h) =
    Decided-Grows
      (subst (Extends s.memberships) (append-nil s.memberships) (Extends-append s.memberships []))
      (unresolved-Decided actor note parent a b candidate s h)

Step-Grows : {s t : Session} → Step s t → Grows s t
Step-Grows (adjudicates a) = Adjudicates-Grows a
Step-Grows {s} (opens mention entity revision m exists h) =
    let o = open_membership-Opened mention entity revision s h in
    record {
      memberships =
          subst (Extends s.memberships) (sym o.memberships) (Extends-append s.memberships (m ∷ []));
      decisions = ([], o.decisions ∙ sym (append-nil s.decisions));
      revisions = ([], o.revisions ∙ sym (append-nil s.revisions));
    }

append_twice :
    {A : Type 0} (xs ys zs : List A) {us vs : List A}
    → us ≡ xs ++ ys
    → vs ≡ us ++ zs
    → vs ≡ xs ++ (ys ++ zs)
append_twice xs ys zs p q = q ∙ ap (λ l. l ++ zs) p ∙ append_assoc xs ys zs

Grows-trans : {s t u : Session} → Grows s t → Grows t u → Grows s u
Grows-trans {s} {t} {u} h k = record {
  memberships = Extends-trans s.memberships t.memberships u.memberships h.memberships k.memberships;
  decisions = (
    h.decisions.0 ++ k.decisions.0,
    append_twice s.decisions h.decisions.0 k.decisions.0 h.decisions.1 k.decisions.1,
  );
  revisions = (
    h.revisions.0 ++ k.revisions.0,
    append_twice s.revisions h.revisions.0 k.revisions.0 h.revisions.1 k.revisions.1,
  );
}

Grows-refl : (s : Session) → Grows s s
Grows-refl s = record {
  memberships =
      subst (Extends s.memberships) (append-nil s.memberships) (Extends-append s.memberships []);
  decisions = ([], sym (append-nil s.decisions));
  revisions = ([], sym (append-nil s.revisions));
}

-- However many changes follow, every membership row keeps its place, its mention, its entity and its
-- opening revision, what closed it stays what closed it, and the decisions and revisions of the
-- earlier session are the first ones of the later.
pub Reach-Grows : {s t : Session} → Reach s t → Grows s t
Reach-Grows {s} here = Grows-refl s
Reach-Grows (next r st) = Grows-trans (Reach-Grows r) (Step-Grows st)
