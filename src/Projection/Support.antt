-- ===== src/Projection/Support.antt =====
-- aegis/projections/edges.py: `relation_index`, `support_summary` and `_handling_rank`.
use criminal_networks_analys.Common.{
  ℕ, suc, String, Bool, true, false, ◌&&◌, Option, none, some, List, [], ◌∷◌, ◌++◌, map, ltb, ◌==◌,
  if◌then◌else◌, select, member, dedup, length, sort_by, any,
}
use text.Mathlib.Text.{◌==◌ as str_eq}
use criminal_networks_analys.Common.Dict.{Dict, lookup, insert}
use criminal_networks_analys.Projection.Store.{
  Claim, ClaimRelation, Relation, corroborates, contradicts, SupportEntry, SupportSummary,
}

-- What touches a claim: the claim at the other end, and how.
abbrev pub Touch : Type 0
Touch = ℕ × Relation

abbrev pub Index : Type 0
Index = Dict (List Touch)

abbrev pub or_empty : Option (List Touch) → List Touch
or_empty none = []
or_empty (some ts) = ts

-- `index.get(claim, [])`
abbrev pub touches : ℕ → Index → List Touch
touches claim index = or_empty (lookup claim index)

-- `index[claim].append(touch)`
abbrev pub append_touch : ℕ → Touch → Index → Index
append_touch claim touch index = insert claim (touches claim index ++ touch ∷ []) index

abbrev pub index_both : ClaimRelation → Index → Index
index_both r index =
    append_touch r.to_claim (r.from_claim, r.relation)
      (append_touch r.from_claim (r.to_claim, r.relation) index)

-- The loop over the relations.
unfoldable pub index_all : List ClaimRelation → Index → Index
index_all [] index = index
index_all (r ∷ rs) index = index_all rs (index_both r index)

abbrev pub is_visible : Option (List ℕ) → ClaimRelation → Bool
is_visible none r = true
is_visible (some visible_to) r = member r.from_claim visible_to && member r.to_claim visible_to

-- An empty `visible_to` returns before the query, which would have found nothing.
unfoldable pub relation_index : Option (List ℕ) → List ClaimRelation → Index
unfolding index_all
relation_index (some []) rs = []
relation_index visible_to rs = index_all (select (is_visible visible_to) rs) []

abbrev pub is_same : Relation → Relation → Bool
is_same corroborates corroborates = true
is_same contradicts contradicts = true
is_same _ _ = false

-- `counts[relation]`
unfoldable pub count_of : Relation → List Touch → ℕ
count_of relation [] = 0
count_of relation ((other, r) ∷ ts) =
    let rest = count_of relation ts in if is_same r relation then suc rest else rest

pub record Pair : Type 0 where
  pub low : ℕ
  pub high : ℕ
  pub relation : Relation

abbrev pub same_pair : Pair → Pair → Bool
same_pair p q = p.low == q.low && p.high == q.high && is_same p.relation q.relation

-- `low, high = sorted((claim.claim_id, other))`
abbrev pub pair_of : ℕ → Touch → Pair
pair_of claim (other, relation) =
    if ltb other claim
    then record { low = other; high = claim; relation = relation }
    else record { low = claim; high = other; relation = relation }

-- `distinct.add(...)`
abbrev pub add_pair : Pair → List Pair → List Pair
add_pair p ps = if any (same_pair p) ps then ps else ps ++ p ∷ []

unfoldable pub add_pairs : ℕ → List Touch → List Pair → List Pair
add_pairs claim [] ps = ps
add_pairs claim (t ∷ ts) ps = add_pairs claim ts (add_pair (pair_of claim t) ps)

unfoldable pub distinct_pairs : Index → List Claim → List Pair → List Pair
unfolding add_pairs
distinct_pairs relations [] ps = ps
distinct_pairs relations (c ∷ cs) ps =
    distinct_pairs relations cs (add_pairs c.claim_id (touches c.claim_id relations) ps)

abbrev pub or_null : Option (Option String) → Option String
or_null none = none
or_null (some reliability) = reliability

unfoldable pub support_entry : Dict (Option String) → Index → Claim → SupportEntry
unfolding count_of
support_entry reliability relations c = record {
  claim_id = c.claim_id;
  record_id = c.record_id;
  reliability = or_null (lookup c.record_id reliability);
  credibility = c.credibility_normalized;
  verification = c.verification_status;
  analytic_confidence = c.analytic_confidence;
  assertion_type = c.assertion_type;
  handling_code = c.handling_code;
  corroborated_by = count_of corroborates (touches c.claim_id relations);
  contradicted_by = count_of contradicts (touches c.claim_id relations);
}

abbrev pub aggregation_method : String
aggregation_method = "segmented-support"

-- `len({claim.record_id for claim in claims})`
abbrev pub distinct_records : List Claim → ℕ
distinct_records cs = length (dedup (map (λ c. c.record_id) cs))

abbrev pub by_id : List Claim → List Claim
by_id cs = sort_by (λ c. c.claim_id) cs

unfoldable pub support_summary : List Claim → Dict (Option String) → Index → SupportSummary
unfolding support_entry distinct_pairs
support_summary cs reliability relations =
    let distinct = distinct_pairs relations (by_id cs) [] in
    record {
      method = aggregation_method;
      method_version = 1;
      claims = map (support_entry reliability relations) (by_id cs);
      corroboration_count = length (select (λ p. is_same p.relation corroborates) distinct);
      contradiction_count = length (select (λ p. is_same p.relation contradicts) distinct);
      record_count = distinct_records cs;
    }

-- `_handling_rank`: an unknown code ranks as the most restricted.
unfoldable pub handling_rank : String → ℕ
handling_rank code =
    if str_eq code "open"
    then 0
    else if str_eq code "restricted"
    then 1
    else if str_eq code "sensitive"
    then 2
    else 999
