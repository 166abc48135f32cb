-- ===== src/Common/Lists.antt =====
-- Lists as the program uses them: query results, sets of identifiers, sorted sequences.
use Prim.Native.Nat.{ℕ, suc, ◌+◌, ◌<◌}
use mathlib.Core.Path.{◌≡◌, refl}
use mathlib.Core.Logic.{inl, inr}
use mathlib.Core.Bool.{Bool, true, false, ◌||◌, ◌&&◌, not}
use mathlib.Core.List.{List, [], ◌∷◌, ◌++◌}
use mathlib.Core.Option.{Option, none, some}
use native.Mathlib.Omega.{arith}
use criminal_networks_analys.Common.Tests.{Bool-cases, leb, ◌==◌, if◌then◌else◌}

module _ {ℓ} {A : Type ℓ} where
  abbrev pub length : List A → ℕ
  length [] = 0
  length (x ∷ xs) = suc (length xs)

  -- The rows that a `where` clause keeps, in the order of the table.
  abbrev pub select : (A → Bool) → List A → List A
  select p [] = []
  select p (x ∷ xs) = let rest = select p xs in if p x then x ∷ rest else rest

  -- The first row of a result, as `session.scalar` returns it.
  abbrev pub first : List A → Option A
  first [] = none
  first (x ∷ xs) = some x

  abbrev pub any : (A → Bool) → List A → Bool
  any p [] = false
  any p (x ∷ xs) = p x || any p xs

  -- Stable insertion: `x` goes in front of the first element whose key is not smaller.
  abbrev pub insert_by : (A → ℕ) → A → List A → List A
  insert_by key x [] = x ∷ []
  insert_by key x (y ∷ ys) = if leb (key x) (key y) then x ∷ y ∷ ys else y ∷ insert_by key x ys

  -- `order_by` and `sorted`: stable, ascending.
  abbrev pub sort_by : (A → ℕ) → List A → List A
  sort_by key [] = []
  sort_by key (x ∷ xs) = insert_by key x (sort_by key xs)

  -- Every element has the property.
  abbrev pub All {κ} : (A → Type κ) → List A → Type κ
  All P [] = Unit
  All P (x ∷ xs) = P x × All P xs

  pub All-append {κ} : (P : A → Type κ) (xs ys : List A) → All P xs → All P ys → All P (xs ++ ys)
  All-append P [] ys h k = k
  All-append P (x ∷ xs) ys h k = (h.0, All-append P xs ys h.1 k)

  pub select-append :
      (p : A → Bool) (xs ys : List A) → select p (xs ++ ys) ≡ select p xs ++ select p ys
  select-append p [] ys = refl
  select-append p (x ∷ xs) ys = ground (arith, select-append p xs ys)

  pub any-append : (p : A → Bool) (xs ys : List A) → any p (xs ++ ys) ≡ (any p xs || any p ys)
  any-append p [] ys = refl
  any-append p (x ∷ xs) ys = ground (arith, any-append p xs ys)

  pub any-insert_by :
      (p : A → Bool) (key : A → ℕ) (x : A) (xs : List A)
      → any p (insert_by key x xs) ≡ (p x || any p xs)
  any-insert_by p key x [] = refl
  any-insert_by p key x (y ∷ ys) = ground (arith, any-insert_by p key x ys)

  pub any-sort_by : (p : A → Bool) (key : A → ℕ) (xs : List A) → any p (sort_by key xs) ≡ any p xs
  any-sort_by p key [] = refl
  any-sort_by p key (x ∷ xs) =
      ground (arith, any-insert_by p key x (sort_by key xs), any-sort_by p key xs)

  pub All-select {κ} :
      (P : A → Type κ) (p : A → Bool) (xs : List A) → All P xs → All P (select p xs)
  All-select P p [] h = tt
  All-select P p (x ∷ xs) h = elim (Bool-cases (p x)) [
    | inl e ↦ rw e (h.0, All-select P p xs h.1)
    | inr e ↦ rw e (All-select P p xs h.1)
  ]

  insert_by-last :
      (key : A → ℕ) (n : ℕ) (x y : A) (xs : List A)
      → key x < n
      → key y ≡ n
      → insert_by key x (xs ++ y ∷ []) ≡ insert_by key x xs ++ y ∷ []
  insert_by-last key n x y [] lt e = ground arith
  insert_by-last key n x y (z ∷ zs) lt e = ground (arith, insert_by-last key n x y zs lt e)

  -- An element with the highest key comes last.
  pub sort_by-last :
      (key : A → ℕ) (n : ℕ) (xs : List A) (y : A)
      → All (λ x. key x < n) xs
      → key y ≡ n
      → sort_by key (xs ++ y ∷ []) ≡ sort_by key xs ++ y ∷ []
  sort_by-last key n [] y h e = refl
  sort_by-last key n (x ∷ xs) y h e =
      rw (sort_by-last key n xs y h.1 e) (insert_by-last key n x y (sort_by key xs) h.0 e)

  pub any-select : (p q : A → Bool) (xs : List A) → any p (select q xs) ≡ any (λ x. q x && p x) xs
  any-select p q [] = refl
  any-select p q (x ∷ xs) = ground (arith, any-select p q xs)

  pub length-append : (xs ys : List A) → length (xs ++ ys) ≡ length xs + length ys
  length-append [] ys = omega arith
  length-append (x ∷ xs) ys = omega (arith, length-append xs ys)

-- `a in xs`
abbrev pub member : ℕ → List ℕ → Bool
member a [] = false
member a (x ∷ xs) = a == x || member a xs

-- The elements of a Python `set` built from a sequence, each once.
abbrev pub dedup : List ℕ → List ℕ
dedup [] = []
dedup (x ∷ xs) = let rest = dedup xs in if member x rest then rest else x ∷ rest

abbrev pub identity : ℕ → ℕ
identity a = a

-- `sorted(set(xs))`
abbrev pub sorted_set : List ℕ → List ℕ
sorted_set xs = sort_by identity (dedup xs)

-- `set(xs) - set(ys)`
abbrev pub difference : List ℕ → List ℕ → List ℕ
difference xs ys = select (λ a. not (member a ys)) xs

-- `set(xs) == set(ys)`
abbrev pub same_set : List ℕ → List ℕ → Bool
same_set xs ys = elim (difference xs ys) [
  | [] ↦ elim (difference ys xs) [ [] ↦ true | _ ∷ _ ↦ false ]
  | _ ∷ _ ↦ false
]

pub member-append : (a : ℕ) (xs ys : List ℕ) → member a (xs ++ ys) ≡ (member a xs || member a ys)
member-append a [] ys = refl
member-append a (x ∷ xs) ys = ground (arith, member-append a xs ys)

pub member-dedup : (a : ℕ) (xs : List ℕ) → member a (dedup xs) ≡ member a xs
member-dedup a [] = refl
member-dedup a (x ∷ xs) = ground (arith, member-dedup a xs, member-dedup x xs)

pub member-insert_by :
    (a x : ℕ) (xs : List ℕ) → member a (insert_by identity x xs) ≡ (a == x || member a xs)
member-insert_by a x [] = refl
member-insert_by a x (y ∷ ys) = ground (arith, member-insert_by a x ys)

pub member-sort_by : (a : ℕ) (xs : List ℕ) → member a (sort_by identity xs) ≡ member a xs
member-sort_by a [] = refl
member-sort_by a (x ∷ xs) =
    ground (arith, member-insert_by a x (sort_by identity xs), member-sort_by a xs)

pub member-sorted_set : (a : ℕ) (xs : List ℕ) → member a (sorted_set xs) ≡ member a xs
member-sorted_set a xs = ground (arith, member-sort_by a (dedup xs), member-dedup a xs)

pub member-select :
    (a : ℕ) (p : ℕ → Bool) (xs : List ℕ) → member a (select p xs) ≡ (member a xs && p a)
member-select a p [] = refl
member-select a p (x ∷ xs) = ground (arith, member-select a p xs)
