-- ===== src/Identity/Rejections.antt =====
-- What a rejection leaves for the future: the pair's newest constraint, and its settled candidate.
use criminal_networks_analys.Common.{
  ℕ, suc, ◌<◌, ◌≤◌, String, ◌≡◌, ◌≢◌, refl, true, ◌==◌, if◌then◌else◌, Option, none, some, List, [],
  ◌∷◌, ◌++◌, map, arith, Option-cases, Bool-cases, inl, inr, All,
}
use criminal_networks_analys.Identity.Store.{
  Session, NegativeConstraint, ErCandidate, Disposition, is_open,
}
use criminal_networks_analys.Identity.Monad.{ok, err, already_settled}
use criminal_networks_analys.Identity.Moves.{open_decision}
use criminal_networks_analys.Identity.Candidates.{find_candidate, settle_row, settle_candidate}
use criminal_networks_analys.Identity.Constraints.{
  holds_pair, latest_constraint, next_version, supersede_row, constraint_row,
}
use criminal_networks_analys.Identity.Adjudication.{AdjudicationResult, reject_match, lower, higher}
use criminal_networks_analys.Identity.Effects.Steps.{settle-SameLedger}

-- The table after a rejection.
abbrev constraints_after : Session → ℕ → ℕ → ℕ → String → List NegativeConstraint
constraints_after s a b decision basis =
    map (supersede_row (latest_constraint a b s.constraints) (s.ids (suc s.drawn))) s.constraints
    ++ constraint_row (s.ids (suc s.drawn)) a b (next_version (latest_constraint a b s.constraints))
        decision basis
      ∷ []

reject-constraints :
    (actor note : String) (parent a b : ℕ) (basis : String) (candidate : Option ℕ) (s : Session)
    {t : Session} {r : AdjudicationResult}
    → reject_match actor note parent a b basis candidate s ≡ ok (r, t)
    → (t.constraints ≡ constraints_after s (lower a b) (higher a b) r.decision.decision_id basis)
      × (r.constraint_id ≡ some (s.ids (suc s.drawn)))
unfolding reject_match open_decision
reject-constraints actor note parent a b basis candidate s h =
    (grind (arith, settle-SameLedger), grind (arith, settle-SameLedger))

-- Every standing constraint of the pair has a version below the bound.
abbrev Below : ℕ → ℕ → ℕ → List NegativeConstraint → Type 0
Below a b n cs = All (λ c. holds_pair a b c ≡ true → c.version < n) cs

latest-last :
    (a b : ℕ) (cs : List NegativeConstraint) (row : NegativeConstraint)
    → Below a b row.version cs
    → holds_pair a b row ≡ true
    → latest_constraint a b (cs ++ row ∷ []) ≡ some row
unfolding latest_constraint
latest-last a b [] row hs h = ground arith
latest-last a b (c ∷ cs) row hs h = elim (Bool-cases (holds_pair a b c)) [
  | inl holds ↦ ground (arith, hs.0 holds, latest-last a b cs row hs.1 h)
  | inr other ↦ ground (arith, latest-last a b cs row hs.1 h)
]

Below-mono : (a b m n : ℕ) (cs : List NegativeConstraint) → m ≤ n → Below a b m cs → Below a b n cs
Below-mono a b m n [] le hs = tt
Below-mono a b m n (c ∷ cs) le hs = ((λ h. omega (arith, hs.0 h)), Below-mono a b m n cs le hs.1)

next_version-grows :
    (a b : ℕ) (c : NegativeConstraint) (cs : List NegativeConstraint)
    → (next_version (latest_constraint a b cs) ≤ next_version (latest_constraint a b (c ∷ cs)))
      × (holds_pair a b c ≡ true → c.version < next_version (latest_constraint a b (c ∷ cs)))
unfolding latest_constraint
next_version-grows a b c cs = elim (Bool-cases (holds_pair a b c)) [
  | inl holds ↦ elim (Option-cases (latest_constraint a b cs)) [
    | inl alone ↦ (ground arith, λ h. ground arith)
    | inr (d, rest) ↦ (ground arith, λ h. ground arith)
  ]
  | inr other ↦ (ground arith, λ h. cc)
]

Below-latest :
    (a b : ℕ) (cs : List NegativeConstraint)
    → Below a b (next_version (latest_constraint a b cs)) cs
unfolding latest_constraint
Below-latest a b [] = tt
Below-latest a b (c ∷ cs) =
    let (grows, below) = next_version-grows a b c cs in
    (below, Below-mono a b _ _ cs grows (Below-latest a b cs))

Below-supersede :
    (a b n constraint : ℕ) (previous : Option NegativeConstraint) (cs : List NegativeConstraint)
    → Below a b n cs
    → Below a b n (map (supersede_row previous constraint) cs)
Below-supersede a b n constraint previous [] hs = tt
Below-supersede a b n constraint none (c ∷ cs) hs =
    (hs.0, Below-supersede a b n constraint none cs hs.1)
Below-supersede a b n constraint (some p) (c ∷ cs) hs =
    ((λ h. ground (arith, hs.0)), Below-supersede a b n constraint (some p) cs hs.1)

-- The row of the identifier.
abbrev pub find_constraint : ℕ → List NegativeConstraint → Option NegativeConstraint
find_constraint i [] = none
find_constraint i (c ∷ cs) = if c.constraint_id == i then some c else find_constraint i cs

-- A row as a rejection leaves it: the constraint that was in force is marked as superseded by the new
-- one, and any other is as it was.
abbrev pub marked : Option NegativeConstraint → ℕ → NegativeConstraint → NegativeConstraint
marked none new c = c
marked (some previous) new c =
    if previous.constraint_id == c.constraint_id then record c { superseded_by = some new } else c

-- What the table has under an identifier after a rejection, from what it had before.
abbrev pub found_after :
    Option NegativeConstraint
    → NegativeConstraint
    → ℕ
    → Option NegativeConstraint
    → Option NegativeConstraint
found_after previous row i none = if row.constraint_id == i then some row else none
found_after previous row i (some c) = some (marked previous row.constraint_id c)

find_constraint-supersede :
    (i : ℕ) (previous : Option NegativeConstraint) (cs : List NegativeConstraint)
    (row : NegativeConstraint)
    → find_constraint i (map (supersede_row previous row.constraint_id) cs ++ row ∷ [])
      ≡ found_after previous row i (find_constraint i cs)
find_constraint-supersede i previous [] row = ground arith
find_constraint-supersede i none (d ∷ ds) row =
    ground (arith, find_constraint-supersede i none ds row)
find_constraint-supersede i (some p) (d ∷ ds) row =
    ground (arith, find_constraint-supersede i (some p) ds row)

-- The version after the one of the constraint that was in force.
abbrev pub IsOneAbove : Option NegativeConstraint → ℕ → Type 0
IsOneAbove none version = version ≡ 1
IsOneAbove (some previous) version = version ≡ suc previous.version

next_version-IsOneAbove : (o : Option NegativeConstraint) → IsOneAbove o (next_version o)
next_version-IsOneAbove none = refl
next_version-IsOneAbove (some previous) = omega arith

reject-ordered :
    (actor note : String) (parent a b : ℕ) (basis : String) (candidate : Option ℕ) (s : Session)
    {t : Session} {r : AdjudicationResult}
    → reject_match actor note parent a b basis candidate s ≡ ok (r, t)
    → lower a b < higher a b
unfolding reject_match open_decision
reject-ordered actor note parent a b basis candidate s h = grind (arith, settle-SameLedger)

-- A rejection, which is of two different mentions, makes its own constraint the one in force for the
-- pair, at the version after the one of the constraint that was in force before, or at version 1. It marks
-- that constraint as superseded by the new one, and leaves every other row of the table as it was.
pub reject_match-supersedes :
    (actor note : String) (parent a b : ℕ) (basis : String) (candidate : Option ℕ) (s : Session)
    {t : Session} {r : AdjudicationResult} (i : ℕ)
    → reject_match actor note parent a b basis candidate s ≡ ok (r, t)
    → (a ≢ b)
      × ((row : NegativeConstraint) × (latest_constraint (lower a b) (higher a b) t.constraints
            ≡ some row)
          × (r.constraint_id ≡ some row.constraint_id)
          × (row.decision_id ≡ r.decision.decision_id)
          × IsOneAbove (latest_constraint (lower a b) (higher a b) s.constraints) row.version
          × (find_constraint i t.constraints
              ≡ found_after
                  (latest_constraint (lower a b) (higher a b) s.constraints)
                  row
                  i
                  (find_constraint i s.constraints)))
reject_match-supersedes actor note parent a b basis candidate s {r = r} i h =
    let (table, minted) = reject-constraints actor note parent a b basis candidate s h in
    let before = reject-ordered actor note parent a b basis candidate s h in
    let previous = latest_constraint (lower a b) (higher a b) s.constraints in
    let row =
      constraint_row (s.ids (suc s.drawn)) (lower a b) (higher a b) (next_version previous)
        r.decision.decision_id basis in
    (
      (λ same. ground (arith, before, same)),
      (
        row,
        rw table (
            latest-last (lower a b) (higher a b) _ _
              (Below-supersede (lower a b) (higher a b) (next_version previous)
                (s.ids (suc s.drawn)) previous s.constraints
                (Below-latest (lower a b) (higher a b) s.constraints))
              (ground arith)),
        minted,
        refl,
        next_version-IsOneAbove previous,
        rw table (find_constraint-supersede i previous s.constraints row),
      ),
    )

find-settled :
    (candidate : ℕ) (disposition : Disposition) (decision : ℕ) (cs : List ErCandidate)
    (row : ErCandidate)
    → find_candidate candidate cs ≡ some row
    → find_candidate candidate (map (settle_row candidate disposition decision) cs)
      ≡ some (record row { disposition = disposition; decision_id = some decision })
unfolding find_candidate
find-settled candidate disposition decision [] row h = cc
find-settled candidate disposition decision (c ∷ cs) row h =
    ground (arith, find-settled candidate disposition decision cs row)

-- A candidate is settled once: after it was settled, whichever disposition but open it was given, any
-- attempt to settle it again is refused with that disposition.
pub settle_candidate-once :
    (candidate : ℕ) (disposition other : Disposition) (decision later : ℕ) (s : Session)
    {t : Session}
    → settle_candidate (some candidate) disposition decision s ≡ ok (tt, t)
    → disposition ≢ is_open
    → settle_candidate (some candidate) other later t ≡ err (already_settled disposition)
unfolding settle_candidate
settle_candidate-once candidate disposition other decision later s h closed =
    elim (Option-cases (find_candidate candidate s.candidates)) [
      | inl absent ↦ absurd (ground arith)
      | inr (row, found) ↦
          ground (arith, closed, find-settled candidate disposition decision s.candidates row found)
    ]
