-- ===== src/Ids.antt =====
-- aegis/ids.py: `new_id`. A text is the list of its character codes. The clock and the ten random bytes are
-- arguments: the time in milliseconds, and a number below 2 ^ 80.
pub mod Order
mod Tests
use criminal_networks_analys.Common.{ℕ, zero, suc, ◌+◌, ◌*◌, ◌/◌, ◌%◌, ◌^◌, List, [], ◌∷◌, ◌++◌}
use Prim.Native.String.{String}
use Prim.Native.Char.{code}

abbrev codes : String → List ℕ
codes String.[] = []
codes (String.◌∷◌ c s) = code c ∷ codes s

abbrev pub crockford : List ℕ
crockford = codes "0123456789ABCDEFGHJKMNPQRSTVWXYZ"

-- `xs[n]`, where n is below the length.
abbrev pub char_at : ℕ → List ℕ → ℕ
char_at n [] = 0
char_at zero (x ∷ xs) = x
char_at (suc n) (x ∷ xs) = char_at n xs

-- `_CROCKFORD[value & 31]`
abbrev pub symbol : ℕ → ℕ
symbol value = char_at (value % 32) crockford

-- The rounds that are left of the loop; `value >>= 5` is a division by 32.
unfoldable pub encode : ℕ → ℕ → List ℕ → List ℕ
encode zero value encoded = encoded
encode (suc n) value encoded = encode n (value / 32) (symbol value ∷ encoded)

-- The random bits fill the lower 80, so that `|` adds them.
abbrev pub ulid_value : ℕ → ℕ → ℕ
ulid_value milliseconds random = milliseconds * 2 ^ 80 + random

unfoldable pub ulid : ℕ → ℕ → List ℕ
unfolding encode
ulid milliseconds random = encode 26 (ulid_value milliseconds random) []

unfoldable pub new_id : List ℕ → ℕ → ℕ → List ℕ
unfolding ulid
new_id prefix milliseconds random = prefix ++ b'_' ∷ ulid milliseconds random
