-- ===== src/Base/Text.antt =====
-- Texts as lists of code points, and the character classes that the source's patterns use.
use Prim.Native.Nat.{ℕ}
use Prim.Native.Char.{code}
use Prim.Native.String.{String}
use mathlib.Core.Bool.{Bool, true, false, ◌&&◌, ◌||◌}
use mathlib.Core.List.{List, [], ◌∷◌}
use skivolve.Base.Tests.{nat_eq, ◌==◌, leb}
use skivolve.Base.Lists.{length, all}

unfoldable pub codes : String → List ℕ
codes String.[] = []
codes (String.◌∷◌ c s) = code c ∷ codes s

-- `not value`
unfoldable pub is_empty_text : String → Bool
is_empty_text String.[] = true
is_empty_text (String.◌∷◌ c s) = false

unfoldable pub is_digit : ℕ → Bool
is_digit c = leb b'0' c && leb c b'9'

unfoldable pub is_lower : ℕ → Bool
is_lower c = leb b'a' c && leb c b'z'

unfoldable pub is_upper : ℕ → Bool
is_upper c = leb b'A' c && leb c b'Z'

-- `[0-9a-f]`
unfoldable pub is_hex_digit : ℕ → Bool
unfolding is_digit
is_hex_digit c = is_digit c || leb b'a' c && leb c b'f'

-- `^[0-9a-f]{n}$` under `fullmatch`
unfoldable pub is_hex : ℕ → String → Bool
unfolding is_hex_digit codes
is_hex n s = length (codes s) == n && all is_hex_digit (codes s)
