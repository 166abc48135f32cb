-- ===== src/Identity/Tests.antt =====
-- Runs of the identity ledger on small sessions.
mod Stale
use criminal_networks_analys.Common.{
  false, ℕ, ◌+◌, ◌≡◌, ◌≢◌, refl, true, Option, none, some, [], ◌∷◌, arith, inr, any, member, ◌==◌,
  if◌then◌else◌,
}
use criminal_networks_analys.Common.Dict.{Dict, lookup}
use criminal_networks_analys.Identity.Store.{
  is_open, confirmed, rejected, NegativeConstraint, unresolved, Session, Entity, IdentityMembership,
}
use criminal_networks_analys.Identity.Monad.{already_settled, Result, ok, err, stale, out_of_fuel}
use criminal_networks_analys.Identity.Ledger.{active_entity, opened, open_membership}
use criminal_networks_analys.Identity.Scope.{intervening, check_scope_is_current}
use criminal_networks_analys.Identity.Canonical.{
  by_kind, gained, lost, lineage, resolve, canonical_entity, rebuild_canonical_map,
  CanonicalMapReport, map_rows, map_report, settle_tombstone,
}
use criminal_networks_analys.Identity.Moves.{revision_row}
use criminal_networks_analys.Identity.Adjudication.{
  reject_match, AdjudicationResult, plain_result, confirm_match, split_entity,
}
use criminal_networks_analys.Identity.Membership.Spec.{entity_at}
use criminal_networks_analys.Identity.Merging.{
  merged_into, split_off, confirm_match-merges, split_entity-moves, split-confirm_restores,
}
use criminal_networks_analys.Identity.Rejections.{
  find_constraint, IsOneAbove, found_after, reject_match-supersedes, settle_candidate-once,
}
use criminal_networks_analys.Identity.Candidates.{settle_candidate}
use criminal_networks_analys.Identity.Constraints.{latest_constraint, next_version}
use criminal_networks_analys.Identity.History.{Grows, Adjudicates-entity_at, Reach-Grows}
use criminal_networks_analys.Identity.Concurrency.{changed_after, check_scope-exact}
use criminal_networks_analys.Identity.Lineage.Resolve.{LeadsTo, resolve-terminates, resolve-root}
use criminal_networks_analys.Identity.Lineage.Late.{open_membership-forgets_merge}
use criminal_networks_analys.Identity.Lineage.Rebuild.{rebuild_canonical_map_idem}
use criminal_networks_analys.Identity.Lineage.Merged.{
  confirm_match-canonical, split-confirm_lineage,
}
use criminal_networks_analys.Identity.Steps.{
  Adjudicates-IsSound, IsSound, Reach, here, next, adjudicates, Adjudicates, confirms, splits,
  Reach-IsSound,
}

abbrev pub entity : ℕ → Entity
entity e = record { entity_id = e; entity_type = "Person"; label = "Person"; tombstoned_at = none }

-- Two entities: the first holds mention 10, the second mentions 11 and 12.
abbrev pub start : Session
start = record {
  revisions = revision_row 0 none ∷ [];
  next_revision = 1;
  decisions = [];
  memberships = opened 1 10 1 0 ∷ opened 2 11 2 0 ∷ opened 3 12 2 0 ∷ [];
  mentions = [];
  entities = entity 1 ∷ entity 2 ∷ entity 3 ∷ [];
  candidates = [];
  constraints = [];
  canonical_map = [];
  claims = [];
  now = 7;
  ids = λ n. 100 + n;
  drawn = 0;
}

abbrev pub value : {A : Type 0} → A → Result A → A
value d (ok a) = a
value d (err e) = d

start-IsSound : IsSound start
start-IsSound = record {
  one_active = λ x. ground arith;
  within = ground arith;
  revisions = ground arith;
  decisions = tt;
}

abbrev merge : Result (AdjudicationResult × Session)
merge = confirm_match "alice" "same person" 0 10 11 none start

abbrev pub no_result : AdjudicationResult
no_result = plain_result (record {
  decision_id = 0;
  kind = unresolved;
  decided_by = "";
  decision_note = "";
  candidate_id = none;
  input_mentions = [];
  parent_revision_id = 0;
  result_revision_id = 0;
})

abbrev merge_result : AdjudicationResult
merge_result = (value (no_result, start) merge).0

abbrev merged : Session
merged = (value (no_result, start) merge).1

merge_runs : confirm_match "alice" "same person" 0 10 11 none start ≡ ok (merge_result, merged)
unfolding confirm_match rebuild_canonical_map map_rows resolve lineage by_kind gained lost
    settle_tombstone
merge_runs = refl

abbrev undo : Result (AdjudicationResult × Session)
undo = split_entity "bob" "wrong" 1 1 merge_result.moved_mentions (some 2) merged

abbrev undo_result : AdjudicationResult
undo_result = (value (no_result, start) undo).0

abbrev undone : Session
undone = (value (no_result, start) undo).1

undo_runs :
    split_entity "bob" "wrong" 1 1 merge_result.moved_mentions (some 2) merged
    ≡ ok (undo_result, undone)
unfolding confirm_match split_entity rebuild_canonical_map map_rows resolve lineage by_kind gained
    lost settle_tombstone
undo_runs = refl

abbrev late : Result (IdentityMembership × Session)
late = open_membership 13 3 none merged

abbrev late_row : IdentityMembership
late_row = (value (opened 0 0 0 0, start) late).0

abbrev late_session : Session
late_session = (value (opened 0 0 0 0, start) late).1

late_runs : open_membership 13 3 none merged ≡ ok (late_row, late_session)
unfolding confirm_match open_membership rebuild_canonical_map map_rows resolve lineage by_kind
    gained lost settle_tombstone
late_runs = refl

merge_step : Adjudicates start merged
merge_step = confirms "alice" "same person" 0 10 11 none merge_result merge_runs

undo_step : Adjudicates merged undone
undo_step = splits "bob" "wrong" 1 1 merge_result.moved_mentions (some 2) undo_result undo_runs

history : Reach start undone
history = next (next here (adjudicates merge_step)) (adjudicates undo_step)

Reach-IsSound_example : IsSound undone
Reach-IsSound_example = Reach-IsSound history start-IsSound

confirm_match-merges_example :
    (survivor : ℕ) × (absorbed : ℕ) × (active_entity 10 start.memberships ≡ some survivor)
    × (active_entity 11 start.memberships ≡ some absorbed)
    × (survivor ≢ absorbed)
    × ((x : ℕ)
        → active_entity x merged.memberships
          ≡ merged_into survivor absorbed (active_entity x start.memberships))
confirm_match-merges_example =
    confirm_match-merges "alice" "same person" 0 10 11 none start start-IsSound merge_runs

merged-IsSound : IsSound merged
merged-IsSound = Adjudicates-IsSound merge_step start-IsSound

abbrev back_to : Option ℕ
back_to = some 2

split_entity-moves_example :
    (onto : ℕ) × ((e : ℕ) → back_to ≡ some e → onto ≡ e)
    × (back_to ≡ none → undo_result.new_entity_id ≡ some onto)
    × ((x : ℕ)
        → member x merge_result.moved_mentions ≡ true
        → active_entity x merged.memberships ≡ some 1)
    × ((x : ℕ)
        → active_entity x undone.memberships
          ≡ split_off
              (member x merge_result.moved_mentions)
              onto
              (active_entity x merged.memberships))
split_entity-moves_example =
    split_entity-moves "bob" "wrong" 1 1 merge_result.moved_mentions (some 2) merged merged-IsSound
      undo_runs

split-confirm_restores_example :
    active_entity 12 undone.memberships ≡ active_entity 12 start.memberships
unfolding active_entity
split-confirm_restores_example =
    split-confirm_restores "alice" "same person" 0 10 11 none start "bob" "wrong" 1 1 2
      start-IsSound merge_runs refl undo_runs 12

split-confirm_lineage_example :
    lookup 2 (lineage undone.memberships undone.decisions)
    ≡ (if 2 == 2 then none else lookup 2 (lineage start.memberships start.decisions))
unfolding active_entity
split-confirm_lineage_example =
    split-confirm_lineage "alice" "same person" 0 10 11 none start "bob" "wrong" 1 1 2 start-IsSound
      merge_runs refl undo_runs 2

Adjudicates-entity_at_example : entity_at 0 11 merged.memberships ≡ entity_at 0 11 start.memberships
Adjudicates-entity_at_example = Adjudicates-entity_at merge_step 0 11 (omega arith)

Reach-Grows_example : Grows start undone
Reach-Grows_example = Reach-Grows history

check_scope-exact_example : check_scope_is_current 0 (2 ∷ []) merged ≡ (
    if any (changed_after 0 (2 ∷ [])) merged.memberships
    then err (stale 0 (intervening 0 merged.decisions))
    else ok (tt, merged))
check_scope-exact_example = check_scope-exact 0 (2 ∷ []) merged

abbrev chain : Dict ℕ
chain = (3, 2) ∷ (2, 1) ∷ []

resolve-terminates_example : resolve 3 chain ≢ err out_of_fuel
resolve-terminates_example = resolve-terminates 3 chain

resolve-root_example : LeadsTo chain 3 1 × (lookup 1 chain ≡ none)
unfolding resolve
resolve-root_example = resolve-root 3 chain 1 refl

open_membership-forgets_merge_example :
    lineage late_session.memberships late_session.decisions
    ≡ lineage start.memberships start.decisions
unfolding active_entity
open_membership-forgets_merge_example =
    open_membership-forgets_merge "alice" "same person" 0 10 11 none start 13 3 1 start-IsSound
      merge_runs refl late_runs (λ e. ground (arith, e))

abbrev rebuild : Result (CanonicalMapReport × Session)
rebuild = rebuild_canonical_map merged

abbrev no_report : CanonicalMapReport
no_report = map_report [] [] []

abbrev rebuild_report : CanonicalMapReport
rebuild_report = (value (no_report, start) rebuild).0

abbrev rebuilt : Session
rebuilt = (value (no_report, start) rebuild).1

rebuild_runs : rebuild_canonical_map merged ≡ ok (rebuild_report, rebuilt)
unfolding confirm_match rebuild_canonical_map map_rows resolve lineage by_kind gained lost
    settle_tombstone
rebuild_runs = refl

rebuild_canonical_map_idem_example :
    (report : CanonicalMapReport) × (rebuild_canonical_map (record rebuilt { now = 9 })
      ≡ ok (report, record rebuilt { now = 9 }))
rebuild_canonical_map_idem_example = rebuild_canonical_map_idem merged 9 rebuild_runs

confirm_match-canonical_example : canonical_entity merged 2 ≡ canonical_entity merged 1
unfolding confirm_match active_entity rebuild_canonical_map map_rows resolve lineage by_kind gained
    lost settle_tombstone
confirm_match-canonical_example =
    confirm_match-canonical "alice" "same person" 0 10 11 none start 1 2 start-IsSound merge_runs
      refl refl refl refl

-- The pair of 10 and 11 was rejected before.
abbrev contested : Session
contested = record start {
  constraints =
      record {
        constraint_id = 50;
        mention_a = 10;
        mention_b = 11;
        version = 1;
        decision_id = 51;
        evidence_basis = "names";
        superseded_by = none;
      }
      ∷ [];
}

abbrev refusal : Result (AdjudicationResult × Session)
refusal = reject_match "carol" "different people" 0 11 10 "birth dates" none contested

abbrev refusal_result : AdjudicationResult
refusal_result = (value (no_result, contested) refusal).0

abbrev refused : Session
refused = (value (no_result, contested) refusal).1

refusal_runs :
    reject_match "carol" "different people" 0 11 10 "birth dates" none contested
    ≡ ok (refusal_result, refused)
unfolding reject_match
refusal_runs = refl

reject_match-supersedes_example :
    ◌≢◌ {A = ℕ} 11 10
    × ((row : NegativeConstraint) × (latest_constraint 10 11 refused.constraints ≡ some row)
        × (refusal_result.constraint_id ≡ some row.constraint_id)
        × (row.decision_id ≡ refusal_result.decision.decision_id)
        × IsOneAbove (latest_constraint 10 11 contested.constraints) row.version
        × (find_constraint 50 refused.constraints
            ≡ found_after
                (latest_constraint 10 11 contested.constraints)
                row
                50
                (find_constraint 50 contested.constraints)))
reject_match-supersedes_example =
    reject_match-supersedes "carol" "different people" 0 11 10 "birth dates" none contested 50
      refusal_runs

abbrev proposed : Session
proposed = record start {
  candidates =
      record {
        candidate_id = 40;
        mention_a = 10;
        mention_b = 11;
        producer = "rules";
        pre_verified = false;
        disposition = is_open;
        decision_id = none;
      }
      ∷ [];
}

abbrev settled : Session
settled = record proposed {
  candidates =
      record {
        candidate_id = 40;
        mention_a = 10;
        mention_b = 11;
        producer = "rules";
        pre_verified = false;
        disposition = confirmed;
        decision_id = some 100;
      }
      ∷ [];
}

settle_candidate-once_example :
    settle_candidate (some 40) rejected 101 settled ≡ err (already_settled confirmed)
unfolding settle_candidate
settle_candidate-once_example =
    settle_candidate-once 40 confirmed rejected 100 101 proposed refl (λ e. cc)
