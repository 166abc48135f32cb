-- ===== src/Identity/Constraints.antt =====
-- aegis/er/adjudication.py: the negative constraint that `reject_match` writes.
use criminal_networks_analys.Common.{
  ℕ, ◌+◌, String, Bool, true, false, Option, none, some, List, [], ◌∷◌, ◌++◌, map, ◌&&◌, ltb, ◌==◌,
  if◌then◌else◌, is_none,
}
use criminal_networks_analys.Identity.Store.{Session, NegativeConstraint}

abbrev pub holds_pair : ℕ → ℕ → NegativeConstraint → Bool
holds_pair a b c = (c.mention_a == a && c.mention_b == b) && is_none c.superseded_by

-- The standing constraint of the pair with the highest version.
unfoldable pub latest_constraint : ℕ → ℕ → List NegativeConstraint → Option NegativeConstraint
latest_constraint a b [] = none
latest_constraint a b (c ∷ cs) = newer (holds_pair a b c) c (latest_constraint a b cs)
  where
    newer : Bool → NegativeConstraint → Option NegativeConstraint → Option NegativeConstraint
    newer false c rest = rest
    newer true c none = some c
    newer true c (some d) = some (if ltb c.version d.version then d else c)

abbrev pub next_version : Option NegativeConstraint → ℕ
next_version none = 1
next_version (some previous) = previous.version + 1

abbrev pub supersede_row : Option NegativeConstraint → ℕ → NegativeConstraint → NegativeConstraint
supersede_row none constraint c = c
supersede_row (some previous) constraint c =
    if c.constraint_id == previous.constraint_id
    then record c { superseded_by = some constraint }
    else c

abbrev pub constraint_row : ℕ → ℕ → ℕ → ℕ → ℕ → String → NegativeConstraint
constraint_row constraint a b version decision basis = record {
  constraint_id = constraint;
  mention_a = a;
  mention_b = b;
  version = version;
  decision_id = decision;
  evidence_basis = basis;
  superseded_by = none;
}

-- The new constraint, and the mark on the one that it supersedes.
abbrev pub write_constraint : Option NegativeConstraint → NegativeConstraint → Session → Session
write_constraint previous row s = record s {
  constraints = map (supersede_row previous row.constraint_id) s.constraints ++ row ∷ [];
}
