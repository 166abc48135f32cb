-- ===== src/Ids/Tests.antt =====
-- Identifiers of small numbers.
use criminal_networks_analys.Common.{
  ℕ, ◌≡◌, refl, ◌||◌, ◌&&◌, ltb, ◌==◌, length, List, [], ◌∷◌, arith,
}
use criminal_networks_analys.Ids.{new_id, ulid, symbol}
use criminal_networks_analys.Ids.Order.{new_id-text_lt, text_lt}

abbrev claim_prefix : List ℕ
claim_prefix = b'c' ∷ b'l' ∷ b'm' ∷ []

-- `Z` is 31 in base 32.
symbol_31 : symbol 31 ≡ b'Z'
symbol_31 = refl

new_id-text_lt_example :
    (text_lt (new_id claim_prefix 1700000000000 7) (new_id claim_prefix 1700000000001 5)
      ≡ (ltb 1700000000000 1700000000001 || (1700000000000 == 1700000000001 && ltb 7 5)))
    × (length (ulid 1700000000000 7) ≡ 26)
new_id-text_lt_example =
    new_id-text_lt claim_prefix 1700000000000 7 1700000000001 5 (omega arith) (omega arith)
      (omega arith) (omega arith)
