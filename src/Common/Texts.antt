-- ===== src/Common/Texts.antt =====
-- Texts: prefixes and the Boolean equality.
use Prim.Native.String.{String, [] as end_of_text, ◌∷◌ as char_then, ◌++◌ as append_text}
use Prim.Native.String.append.{nil, cons}
use mathlib.Core.Path.{◌≡◌, ap, sym, ◌∙◌}
use mathlib.Core.Bool.{true}
use native.Mathlib.Omega.{arith}
use text.Mathlib.Text.{◌==◌ as str_eq}
use text.Mathlib.TextEquality.{eq_iff}

tail : String → String
tail end_of_text = end_of_text
tail (char_then c s) = s

append_cancel : (p a b : String) → append_text p a ≡ append_text p b → a ≡ b
unfolding tail
append_cancel end_of_text a b e = sym (nil a) ∙ e ∙ nil b
append_cancel (char_then c p) a b e =
    append_cancel p a b (ap tail (sym (cons c p a) ∙ e ∙ cons c p b))

-- Behind the same prefix, texts are equal when they are.
pub str_eq-append : (p a b : String) → str_eq (append_text p a) (append_text p b) ≡ str_eq a b
str_eq-append p a b = ground (
  arith,
  eq_iff (append_text p a) (append_text p b),
  eq_iff a b,
  append_cancel p a b,
  λ (e : a ≡ b). ap (append_text p) e,
)

pub str_eq_refl : (a : String) → str_eq a a ≡ true
str_eq_refl a = ground (arith, eq_iff a a)

pub str_eq_sym : (a b : String) → str_eq a b ≡ str_eq b a
str_eq_sym a b = ground (arith, eq_iff a b, eq_iff b a, λ (e : a ≡ b). sym e, λ (e : b ≡ a). sym e)

pub str_eq→eq : (a b : String) → str_eq a b ≡ true → a ≡ b
str_eq→eq a b h = (eq_iff a b).0 h
