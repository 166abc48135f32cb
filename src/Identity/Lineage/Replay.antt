-- ===== src/Identity/Lineage/Replay.antt =====
-- `_lineage_from_ledger` after one more decision: what the replay makes of it.
use mathlib.Core.List.{foldl, foldl-append}
use criminal_networks_analys.Common.{
  ℕ, ◌<◌, ◌≡◌, refl, ◌∙◌, ap, List, [], ◌∷◌, ◌++◌, arith, sort_by, insert_by, All,
}
use criminal_networks_analys.Common.Dict.{Dict}
use criminal_networks_analys.Identity.Store.{IdentityMembership, IdentityDecision}
use criminal_networks_analys.Identity.Canonical.{gained, lost, by_kind, lineage_step, lineage}
use criminal_networks_analys.Identity.Steps.{DecisionBelow}

abbrev result_of : IdentityDecision → ℕ
result_of d = d.result_revision_id

-- The newest decision is replayed last.
insert_by-last :
    (n : ℕ) (d e : IdentityDecision) (ds : List IdentityDecision)
    → result_of d < n
    → result_of e ≡ n
    → insert_by result_of d (ds ++ e ∷ []) ≡ insert_by result_of d ds ++ e ∷ []
insert_by-last n d e [] h k = ground arith
insert_by-last n d e (x ∷ ds) h k = ground (arith, insert_by-last n d e ds)

sort_by-last :
    (n : ℕ) (e : IdentityDecision) (ds : List IdentityDecision)
    → All (DecisionBelow n) ds
    → result_of e ≡ n
    → sort_by result_of (ds ++ e ∷ []) ≡ sort_by result_of ds ++ e ∷ []
sort_by-last n e [] h k = refl
sort_by-last n e (d ∷ ds) h k =
    rw (sort_by-last n e ds h.1 k) (insert_by-last n d e (sort_by result_of ds) h.0.0 k)

All-insert_by :
    (n : ℕ) (d : IdentityDecision) (ds : List IdentityDecision)
    → DecisionBelow n d
    → All (DecisionBelow n) ds
    → All (DecisionBelow n) (insert_by result_of d ds)
All-insert_by n d [] h k = (h, tt)
All-insert_by n d (x ∷ ds) h k = ground (arith, All-insert_by n d ds)

All-sort_by :
    (n : ℕ) (ds : List IdentityDecision)
    → All (DecisionBelow n) ds
    → All (DecisionBelow n) (sort_by result_of ds)
All-sort_by n [] h = tt
All-sort_by n (d ∷ ds) h = All-insert_by n d (sort_by result_of ds) h.0 (All-sort_by n ds h.1)

-- Two tables look the same to the replay of every decision before revision `n`.
pub record SameBefore (n : ℕ) (ms ns : List IdentityMembership) : Type 0 where
  pub gains : (r : ℕ) → r < n → gained ns r ≡ gained ms r
  pub losses : (r : ℕ) → r < n → lost ns r ≡ lost ms r

step-same :
    (n : ℕ) (ms ns : List IdentityMembership) (p : Dict ℕ) (d : IdentityDecision)
    → SameBefore n ms ns
    → DecisionBelow n d
    → lineage_step ns p d ≡ lineage_step ms p d
unfolding lineage_step
step-same n ms ns p d same k = λ i.
    by_kind d.kind (same.gains d.result_revision_id k.0 i) (same.losses d.result_revision_id k.0 i)
      p

foldl-same :
    (n : ℕ) (ms ns : List IdentityMembership) (ds : List IdentityDecision) (p : Dict ℕ)
    → SameBefore n ms ns
    → All (DecisionBelow n) ds
    → foldl (lineage_step ns) p ds ≡ foldl (lineage_step ms) p ds
foldl-same n ms ns [] p same h = refl
foldl-same n ms ns (d ∷ ds) p same h =
    ap (λ q. foldl (lineage_step ns) q ds) (step-same n ms ns p d same h.0)
    ∙ foldl-same n ms ns ds (lineage_step ms p d) same h.1

-- The lineage after one more decision is the one before, with the decision's own step.
pub lineage-append :
    (n : ℕ) (ms ns : List IdentityMembership) (ds : List IdentityDecision) (d : IdentityDecision)
    → SameBefore n ms ns
    → All (DecisionBelow n) ds
    → d.result_revision_id ≡ n
    → lineage ns (ds ++ d ∷ []) ≡ lineage_step ns (lineage ms ds) d
unfolding lineage
lineage-append n ms ns ds d same below k = rw (sort_by-last n d ds below k) (
    rw foldl-append (
      ap (λ p. lineage_step ns p d)
        (foldl-same n ms ns (sort_by result_of ds) [] same (All-sort_by n ds below))))
