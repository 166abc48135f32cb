-- ===== src/Identity/Splits.antt =====
-- aegis/er/adjudication.py: the target of a split, and the claims that it cannot attribute.
use criminal_networks_analys.Common.{
  ℕ, String, Bool, false, Option, none, some, List, [], ◌∷◌, ◌++◌, map, ◌&&◌, ◌||◌, ◌==◌,
  if◌then◌else◌, is_none, select, first, member, sort_by, identity,
}
use criminal_networks_analys.Identity.Store.{
  Session, Entity, EntityCanonicalMap, ClaimArguments, Mention,
}
use criminal_networks_analys.Identity.Monad.{
  Work, pure, gets, or_raise, new_id, modify, no_such_entity, missing_row, ◌>>=◌, ◌>>◌,
}

-- The entity and every entity that the map resolves to it.
unfoldable pub affected_entities : ℕ → List EntityCanonicalMap → List ℕ
affected_entities entity rows =
    entity ∷ map (λ r. r.entity_id) (select (λ r. r.canonical_entity_id == entity) rows)

abbrev pub names_unanchored : List ℕ → Option ℕ → Option ℕ → Bool
names_unanchored affected entity anchor = elim entity [
  | none ↦ false
  | some e ↦ member e affected && is_none anchor
]

abbrev pub unattributable : List ℕ → ClaimArguments → Bool
unattributable affected c =
    (names_unanchored affected (some c.subject_id) c.subject_mention_id
      || names_unanchored affected c.object_id c.object_mention_id)
    && is_none c.retracted_at

-- `_unattributable_claims`
unfoldable pub unattributable_claims : ℕ → Session → List ℕ
unfolding affected_entities
unattributable_claims entity s =
    map (λ c. c.claim_id)
      (sort_by (λ c. c.claim_id)
        (select (unattributable (affected_entities entity s.canonical_map)) s.claims))

unfoldable pub find_entity : ℕ → List Entity → Option Entity
find_entity entity [] = none
find_entity entity (e ∷ es) = if e.entity_id == entity then some e else find_entity entity es

unfoldable pub find_mention : ℕ → List Mention → Option Mention
find_mention mention [] = none
find_mention mention (m ∷ ms) = if m.mention_id == mention then some m else find_mention mention ms

abbrev pub new_entity : ℕ → String → String → Entity
new_entity entity type label = record {
  entity_id = entity;
  entity_type = type;
  label = label;
  tombstoned_at = none;
}

abbrev pub text_or : Option Mention → String → String
text_or none fallback = fallback
text_or (some m) fallback = m.raw_text

-- The label is the text of the least moved mention, if the table has it.
abbrev pub label_of : Option ℕ → List Mention → String → String
label_of none ms fallback = fallback
label_of (some mention) ms fallback = text_or (find_mention mention ms) fallback

add_entity : Entity → Work (Unit {0})
add_entity e = modify (λ s. record s { entities = s.entities ++ e ∷ [] })

-- The entity that a split moves to, and the one that it created.
unfoldable pub split_target : ℕ → List ℕ → Option ℕ → Work (ℕ × Option ℕ)
unfolding find_entity find_mention add_entity
split_target entity mentions none = do
  source ← gets (λ s. find_entity entity s.entities)
  label ← gets (λ s. label_of (first (sort_by identity mentions)) s.mentions)
  target ← new_id
  row ← or_raise source missing_row
  add_entity (new_entity target row.entity_type (label row.label))
  pure (target, some target)
split_target entity mentions (some target) = do
  found ← gets (λ s. find_entity target s.entities)
  or_raise found (no_such_entity target)
  pure (target, none)
