-- ===== src/Identity/Candidates.antt =====
-- aegis/er/adjudication.py: `_settle_candidate`.
use criminal_networks_analys.Common.{ℕ, Option, none, some, List, [], ◌∷◌, map, ◌==◌, if◌then◌else◌}
use criminal_networks_analys.Identity.Store.{ErCandidate, Disposition, is_open}
use criminal_networks_analys.Identity.Monad.{
  Work, pure, gets, raise, or_raise, modify, no_such_candidate, already_settled, ◌>>=◌,
}

unfoldable pub find_candidate : ℕ → List ErCandidate → Option ErCandidate
find_candidate candidate [] = none
find_candidate candidate (c ∷ cs) =
    if c.candidate_id == candidate then some c else find_candidate candidate cs

abbrev pub settle_row : ℕ → Disposition → ℕ → ErCandidate → ErCandidate
settle_row candidate disposition decision c =
    if c.candidate_id == candidate
    then record c { disposition = disposition; decision_id = some decision }
    else c

settle_open : Disposition → ℕ → Disposition → ℕ → Work (Unit {0})
settle_open is_open candidate disposition decision =
    modify
      (λ s. record s { candidates = map (settle_row candidate disposition decision) s.candidates })
settle_open other candidate disposition decision = raise (already_settled other)

-- `_settle_candidate`
unfoldable pub settle_candidate : Option ℕ → Disposition → ℕ → Work (Unit {0})
unfolding find_candidate settle_open
settle_candidate none disposition decision = pure tt
settle_candidate (some candidate) disposition decision = do
  found ← gets (λ s. find_candidate candidate s.candidates)
  row ← or_raise found (no_such_candidate candidate)
  settle_open row.disposition candidate disposition decision
