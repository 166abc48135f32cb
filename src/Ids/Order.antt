-- ===== src/Ids/Order.antt =====
-- The texts of identifiers against the numbers that they encode.
use criminal_networks_analys.Common.{
  ℕ, zero, suc, ◌+◌, ◌*◌, ◌/◌, ◌%◌, ◌^◌, ◌<◌, ◌≡◌, refl, ap, sym, ◌∙◌, Bool, true, false, ◌&&◌,
  ◌||◌, not, List, [], ◌∷◌, ◌++◌, arith, ltb, ◌==◌, length,
}
use criminal_networks_analys.Ids.{symbol, char_at, crockford, encode, ulid, ulid_value, new_id}

-- `<` on texts
abbrev pub text_lt : List ℕ → List ℕ → Bool
text_lt xs [] = false
text_lt [] (y ∷ ys) = true
text_lt (x ∷ xs) (y ∷ ys) = ltb x y || (x == y && text_lt xs ys)

abbrev agree : Bool → Bool → Bool
agree true b = b
agree false b = not b

abbrev all_below : ℕ → (ℕ → Bool) → Bool
all_below zero p = true
all_below (suc n) p = p n && all_below n p

all_below-holds : (n : ℕ) (p : ℕ → Bool) (x : ℕ) → all_below n p ≡ true → x < n → p x ≡ true
all_below-holds zero p x h lt = absurd (omega arith)
all_below-holds (suc n) p x h lt = ground (arith, all_below-holds n p x)

-- The alphabet is in the order of the character codes.
abbrev in_order : ℕ → ℕ → Bool
in_order x y =
    agree (ltb (char_at x crockford) (char_at y crockford)) (ltb x y)
    && agree (char_at x crockford == char_at y crockford) (x == y)

alphabet : all_below 32 (λ x. all_below 32 (in_order x)) ≡ true
alphabet = refl

symbols_in_order : (a b : ℕ) → in_order (a % 32) (b % 32) ≡ true
symbols_in_order a b =
    all_below-holds 32 (in_order (a % 32)) (b % 32)
      (all_below-holds 32 (λ x. all_below 32 (in_order x)) (a % 32) alphabet (omega arith))
      (omega arith)

-- 32 ^ n
abbrev limit : ℕ → ℕ
limit zero = 1
limit (suc n) = 32 * limit n

agree→eq : (p q : Bool) → agree p q ≡ true → p ≡ q
agree→eq true q h = sym h
agree→eq false true h = ground arith
agree→eq false false h = refl

-- A comparison of two symbols is one of the numbers they stand for.
symbol-ltb : (a b : ℕ) → ltb (symbol a) (symbol b) ≡ ltb (a % 32) (b % 32)
symbol-ltb a b =
    agree→eq (ltb (symbol a) (symbol b)) (ltb (a % 32) (b % 32))
      (ground (arith, symbols_in_order a b))

symbol-== : (a b : ℕ) → (symbol a == symbol b) ≡ (a % 32 == b % 32)
symbol-== a b =
    agree→eq (symbol a == symbol b) (a % 32 == b % 32) (ground (arith, symbols_in_order a b))

digits :
    (a b : ℕ) (c : Bool)
    → (ltb (a / 32) (b / 32)
        || (a / 32 == b / 32 && (ltb (a % 32) (b % 32) || (a % 32 == b % 32 && c))))
      ≡ (ltb a b || (a == b && c))
digits a b c = ground arith

encode-text_lt :
    (n a b : ℕ) (xs ys : List ℕ)
    → a < limit n
    → b < limit n
    → text_lt (encode n a xs) (encode n b ys) ≡ (ltb a b || (a == b && text_lt xs ys))
unfolding encode
encode-text_lt zero a b xs ys h k = ground (arith, h, k)
encode-text_lt (suc n) a b xs ys h k =
    encode-text_lt n (a / 32) (b / 32) (symbol a ∷ xs) (symbol b ∷ ys) (omega arith) (omega arith)
    ∙ ap
        (λ p.
          ltb (a / 32) (b / 32)
          || (a / 32 == b / 32 && (p || ((symbol a == symbol b) && text_lt xs ys))))
        (symbol-ltb a b)
    ∙ ap
        (λ q.
          ltb (a / 32) (b / 32)
          || (a / 32 == b / 32 && (ltb (a % 32) (b % 32) || (q && text_lt xs ys))))
        (symbol-== a b)
    ∙ digits a b (text_lt xs ys)

-- A common prefix decides nothing.
text_lt-++ : (prefix xs ys : List ℕ) → text_lt (prefix ++ xs) (prefix ++ ys) ≡ text_lt xs ys
text_lt-++ [] xs ys = refl
text_lt-++ (p ∷ prefix) xs ys = ground (arith, text_lt-++ prefix xs ys)

ulid_value-lt :
    (m r n s : ℕ)
    → r < 2 ^ 80
    → s < 2 ^ 80
    → (ltb (ulid_value m r) (ulid_value n s) || (ulid_value m r == ulid_value n s && false))
      ≡ (ltb m n || (m == n && ltb r s))
ulid_value-lt m r n s h k = ground arith

length-encode : (n value : ℕ) (xs : List ℕ) → length (encode n value xs) ≡ n + length xs
unfolding encode
length-encode zero value xs = omega arith
length-encode (suc n) value xs = length-encode n (value / 32) (symbol value ∷ xs) ∙ omega arith

-- Under one prefix, identifiers sort as texts by their time in milliseconds, and within a millisecond by
-- their random part, as long as the time is below 2 ^ 50; and the part after the prefix always has 26
-- characters.
pub new_id-text_lt :
    (prefix : List ℕ) (m r n s : ℕ)
    → m < 2 ^ 50
    → n < 2 ^ 50
    → r < 2 ^ 80
    → s < 2 ^ 80
    → (text_lt (new_id prefix m r) (new_id prefix n s) ≡ (ltb m n || (m == n && ltb r s)))
      × (length (ulid m r) ≡ 26)
unfolding new_id ulid
new_id-text_lt prefix m r n s a b c d = (
  text_lt-++ prefix (b'_' ∷ ulid m r) (b'_' ∷ ulid n s)
      ∙ text_lt-++ (b'_' ∷ []) (ulid m r) (ulid n s)
      ∙ encode-text_lt 26 (ulid_value m r) (ulid_value n s) [] [] (omega arith) (omega arith)
      ∙ ulid_value-lt m r n s c d,
  length-encode 26 (ulid_value m r) [],
)
