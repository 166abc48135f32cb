-- ===== src/Projection/Groups.antt =====
-- aegis/projections/edges.py: the first half of `rebuild_edge_projection`, which resolves the ends of
-- each live claim and groups the claims by edge.
use criminal_networks_analys.Common.{
  ℕ, suc, Bool, true, false, ◌&&◌, ◌||◌, not, Option, none, some, List, [], ◌∷◌, ◌++◌, ltb, ◌==◌,
  if◌then◌else◌, is_none,
}
use criminal_networks_analys.Common.Dict.{Dict, lookup, insert}
use criminal_networks_analys.Identity.Store.{IdentityMembership, EntityCanonicalMap}
use criminal_networks_analys.Identity.Ledger.{is_active}
use criminal_networks_analys.Projection.Store.{Claim, PredicateSpec, Ontology}

-- `{entity_id: canonical_id for ...}`
unfoldable pub canonical_dict : List EntityCanonicalMap → Dict ℕ → Dict ℕ
canonical_dict [] d = d
canonical_dict (r ∷ rs) d = canonical_dict rs (insert r.entity_id r.canonical_entity_id d)

-- `{mention_id: entity_id for ...}` over the active memberships
unfoldable pub anchor_dict : List IdentityMembership → Dict ℕ → Dict ℕ
anchor_dict [] d = d
anchor_dict (m ∷ ms) d =
    if is_active m then anchor_dict ms (insert m.mention_id m.entity_id d) else anchor_dict ms d

-- An end of an edge, and whether its anchor decided it.
pub record End : Type 0 where
  pub entity : ℕ
  pub anchored : Bool

abbrev pub entity_or : ℕ → Option ℕ → ℕ
entity_or entity none = entity
entity_or entity (some canonical) = canonical

abbrev pub through_map : ℕ → Dict ℕ → End
through_map entity canonical = record {
  entity = entity_or entity (lookup entity canonical);
  anchored = false;
}

abbrev pub anchored_or : Option ℕ → End → End
anchored_or none e = e
anchored_or (some entity) e = record { entity = entity; anchored = true }

abbrev pub mention_entity : Option ℕ → Dict ℕ → Option ℕ
mention_entity none anchors = none
mention_entity (some mention) anchors = lookup mention anchors

-- The local function `resolve`.
unfoldable pub resolve_end : Dict ℕ → Dict ℕ → ℕ → Option ℕ → End
resolve_end anchors canonical entity mention =
    anchored_or (mention_entity mention anchors) (through_map entity canonical)

-- The subject, the object and the predicate of an edge.
pub record Key : Type 0 where
  pub subject : ℕ
  pub object : ℕ
  pub predicate : ℕ

abbrev pub same_key : Key → Key → Bool
same_key j k = j.subject == k.subject && j.object == k.object && j.predicate == k.predicate

-- `<` on the tuples
abbrev pub key_lt : Key → Key → Bool
key_lt j k =
    ltb j.subject k.subject
    || (j.subject == k.subject
        && (ltb j.object k.object || (j.object == k.object && ltb j.predicate k.predicate)))

abbrev pub is_symmetric : Option PredicateSpec → Bool
is_symmetric none = false
is_symmetric (some spec) = spec.symmetric

-- `spec.symmetric and obj < subject` swaps the ends.
abbrev pub oriented : Bool → ℕ → ℕ → ℕ → Key
oriented symmetric subject object predicate =
    if symmetric && ltb object subject
    then record { subject = object; object = subject; predicate = predicate }
    else record { subject = subject; object = object; predicate = predicate }

-- What resolves the ends of claims: the anchors, the canonical map and the ontology.
pub record Resolver : Type 0 where
  pub anchors : Dict ℕ
  pub canonical : Dict ℕ
  pub ontology : Ontology

abbrev pub subject_end : Resolver → Claim → End
subject_end v c = resolve_end v.anchors v.canonical c.subject_id c.subject_mention_id

abbrev pub object_end : Resolver → ℕ → Claim → End
object_end v object c = resolve_end v.anchors v.canonical object c.object_mention_id

abbrev pub key_of : Resolver → ℕ → Claim → Key
key_of v object c =
    oriented (is_symmetric (lookup c.predicate v.ontology.predicates)) (subject_end v c).entity
      (object_end v object c).entity c.predicate

pub record Group : Type 0 where
  pub key : Key
  pub claims : List Claim

-- `groups[key].claims.append(claim)`
abbrev pub add_claim : Key → Claim → List Group → List Group
add_claim k c [] = record { key = k; claims = c ∷ [] } ∷ []
add_claim k c (g ∷ gs) =
    if same_key g.key k
    then record { key = g.key; claims = g.claims ++ c ∷ [] } ∷ gs
    else g ∷ add_claim k c gs

-- The counters of the report that the loop over the claims keeps, and the groups.
pub record Grouping : Type 0 where
  pub claims_considered : ℕ
  pub collapsed_endpoints : ℕ
  pub anchor_resolved : ℕ
  pub map_resolved : ℕ
  pub groups : List Group

abbrev pub count_if : Bool → ℕ → ℕ
count_if true n = suc n
count_if false n = n

abbrev pub count_end : End → Grouping → Grouping
count_end e g = record g {
  anchor_resolved = count_if e.anchored g.anchor_resolved;
  map_resolved = count_if (not e.anchored) g.map_resolved;
}

abbrev pub place : Key → Claim → Grouping → Grouping
place k c g =
    if k.subject == k.object
    then record g { collapsed_endpoints = suc g.collapsed_endpoints }
    else record g { groups = add_claim k c g.groups }

-- One turn of the loop, for a claim whose object is an entity.
abbrev pub group_claim : Resolver → ℕ → Claim → Grouping → Grouping
group_claim v object c g = place (key_of v object c) c (
    count_end (object_end v object c)
      (count_end (subject_end v c) (record g { claims_considered = suc g.claims_considered })))

-- The `where` clause, and the loop; a claim whose object is a literal is not in the result.
abbrev pub group_row : Resolver → Claim → Option ℕ → Bool → Grouping → Grouping
group_row v c (some object) true g = group_claim v object c g
group_row v c (some object) false g = g
group_row v c none live g = g

unfoldable pub group_claims : Resolver → List Claim → Grouping → Grouping
group_claims v [] g = g
group_claims v (c ∷ cs) g = group_claims v cs (group_row v c c.object_id (is_none c.retracted_at) g)

abbrev pub no_groups : Grouping
no_groups = record {
  claims_considered = 0;
  collapsed_endpoints = 0;
  anchor_resolved = 0;
  map_resolved = 0;
  groups = [];
}

-- `sorted(groups.items())`
abbrev pub insert_group : Group → List Group → List Group
insert_group g [] = g ∷ []
insert_group g (h ∷ hs) = if key_lt h.key g.key then h ∷ insert_group g hs else g ∷ h ∷ hs

abbrev pub sort_groups : List Group → List Group
sort_groups [] = []
sort_groups (g ∷ gs) = insert_group g (sort_groups gs)
