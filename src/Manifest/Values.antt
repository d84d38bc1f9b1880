-- ===== src/Manifest/Values.antt =====
-- The readers of single JSON values in skivolve/manifest.py, and its identifier patterns.
use skivolve.Base.{
  ℕ, zero, suc, ◌^◌, ◌-◌, ◌*◌, ◌/◌, ◌%◌, ◌≤◌, String, Bool, true, false, ◌&&◌, ◌||◌, not, Option,
  none, some, List, [], ◌∷◌, ◌≡◌, arith, ◌==◌, nat_eq, string_eq, if◌then◌else◌, leb, ltb, length,
  all, distinct, subset, Result, ok, err, ◌>>◌, raise_if, traverse, length-traverse, Ensures,
  Ensures-if, Ensures-pure, Ensures-err, leb→le, &&-split,
}
use skivolve.Base.Int.{pos, negsuc}
use skivolve.Base.Text.{codes, is_digit, is_lower, is_upper, is_empty_text}
use skivolve.Json.{
  Float, finite, Value, null, bool, int, float, str, arr, obj, Fields, items, names, to_units,
}

unfoldable pub identifier_char : ℕ → Bool
unfolding is_lower is_digit
identifier_char c = is_lower c || is_digit c || c == b'.' || c == b'_' || c == b'-'

unfoldable pub skill_char : ℕ → Bool
unfolding is_lower is_digit
skill_char c = is_lower c || is_digit c || c == b'-'

unfoldable pub tool_char : ℕ → Bool
unfolding is_lower is_upper is_digit
tool_char c =
    is_lower c || is_upper c || is_digit c || c == b'.' || c == b'_' || c == b'+' || c == b'-'

-- A pattern `^[first][rest]*$` under `fullmatch`.
unfoldable pub full_match : (ℕ → Bool) → (ℕ → Bool) → List ℕ → Bool
full_match first rest [] = false
full_match first rest (c ∷ cs) = first c && all rest cs

-- `IDENTIFIER_RE`
unfoldable pub is_identifier : String → Bool
unfolding full_match identifier_char codes is_lower is_digit
is_identifier s = full_match (λ c. is_lower c || is_digit c) identifier_char (codes s)

-- `SKILL_RE`
unfoldable pub is_skill : String → Bool
unfolding full_match skill_char codes is_lower is_digit
is_skill s = full_match (λ c. is_lower c || is_digit c) skill_char (codes s)

-- `TOOL_RE`
unfoldable pub is_tool : String → Bool
unfolding full_match tool_char codes is_lower is_upper is_digit
is_tool s = full_match (λ c. is_lower c || is_upper c || is_digit c) tool_char (codes s)

-- No pattern.
abbrev pub any_text : String → Bool
any_text s = true

-- `_object`
unfoldable pub object : Value → List String → List String → Result Fields
unfolding names subset
object (obj fs) required allowed = do
  raise_if (not (subset required (names fs))) "is missing required keys"
  raise_if (not (subset (names fs) allowed)) "has unknown keys"
  ok fs
object _ required allowed = err "must be an object"

-- `_string`
unfoldable pub text : Value → (String → Bool) → Result String
text (str s) pattern' =
    if is_empty_text s
    then err "must be a non-empty string"
    else if pattern' s
    then ok s
    else err "has an invalid value"
text _ pattern' = err "must be a non-empty string"

abbrev pub within : ℕ → Option ℕ → Bool
within n none = true
within n (some maximum) = leb n maximum

-- `_integer`, whose minimum is never negative in this program
unfoldable pub integer : Value → ℕ → Option ℕ → Result ℕ
integer (int (pos n)) minimum maximum =
    if leb minimum n && within n maximum then ok n else err "must be within its bounds"
integer (int (negsuc n)) minimum maximum = err "must be within its bounds"
integer _ minimum maximum = err "must be an integer"

-- The least int that `float()` cannot convert.
abbrev float_overflow : ℕ
float_overflow = 2 ^ 1024 - 2 ^ 970

unfoldable pub positive : Float → Result Float
positive (finite (pos n)) =
    if leb n 0 then err "must be greater than the minimum" else ok (finite (pos n))
positive (finite (negsuc n)) = err "must be greater than the minimum"
positive _ = err "must be finite"

-- How many times a number is halved before it has at most 53 bits.
unfoldable pub excess_bits : ℕ → ℕ → ℕ
excess_bits zero n = 0
excess_bits (suc fuel) n =
    let more = excess_bits fuel (n / 2) in if ltb n (2 ^ 53) then 0 else suc more

-- The multiple of a unit that is nearest to a number, and of two such the even one.
unfoldable pub round_half_even : ℕ → ℕ → ℕ
round_half_even unit n =
    let low = n / unit in
    let twice = 2 * (n % unit) in
    if ltb unit twice || twice == unit && low % 2 == 1 then suc low * unit else low * unit

-- `float(n)` for an int that it can convert: the nearest number with 53 significant bits. The int has
-- at most 1,024 bits.
unfoldable pub rounded_int : ℕ → ℕ
unfolding excess_bits round_half_even
rounded_int n = round_half_even (2 ^ excess_bits 1024 n) n

-- `_number` with an exclusive minimum of 0
unfoldable pub positive_number : Value → Result Float
unfolding positive to_units rounded_int
positive_number (int (pos n)) =
    if leb float_overflow n
    then err "int too large to convert to float"
    else positive (finite (to_units (pos (rounded_int n))))
positive_number (int (negsuc n)) =
    if leb float_overflow (suc n)
    then err "int too large to convert to float"
    else err "must be greater than the minimum"
positive_number (float x) = positive x
positive_number _ = err "must be a number"

-- `_list`
unfoldable pub list : Value → ℕ → Result (List Value)
unfolding items
list (arr vs) minimum =
    if ltb (length (items vs)) minimum then err "must contain more items" else ok (items vs)
list _ minimum = err "must be an array"

-- `_unique_ids`, and the tests on the length of a set
unfoldable pub unique_ids : List String → Result (Unit {0})
unfolding distinct
unique_ids ids = raise_if (not (distinct ids)) "contains duplicates"

-- A text that is read is not empty and fits its pattern.
pub text-fits :
    (v : Value) (pattern' : String → Bool)
    → Ensures (λ s. (is_empty_text s ≡ false) × (pattern' s ≡ true)) (text v pattern')
unfolding text
text-fits (str s) p =
    Ensures-if (is_empty_text s) _ _ (λ _. Ensures-err "must be a non-empty string")
      (λ full.
        Ensures-if (p s) _ _ (λ fits. Ensures-pure s (full, fits))
          (λ _. Ensures-err "has an invalid value"))
text-fits null p = Ensures-err "must be a non-empty string"
text-fits (bool b) p = Ensures-err "must be a non-empty string"
text-fits (int n) p = Ensures-err "must be a non-empty string"
text-fits (float x) p = Ensures-err "must be a non-empty string"
text-fits (arr vs) p = Ensures-err "must be a non-empty string"
text-fits (obj fs) p = Ensures-err "must be a non-empty string"

-- An integer that is read is in its bounds.
pub integer-bounds :
    (v : Value) (lo hi : ℕ) → Ensures (λ n. (lo ≤ n) × (n ≤ hi)) (integer v lo (some hi))
unfolding integer
integer-bounds (int (pos n)) lo hi =
    Ensures-if (leb lo n && leb n hi) _ _
      (λ fits. Ensures-pure n (
        leb→le lo n (&&-split (leb lo n) (leb n hi) fits).0,
        leb→le n hi (&&-split (leb lo n) (leb n hi) fits).1,
      ))
      (λ _. Ensures-err "must be within its bounds")
integer-bounds (int (negsuc n)) lo hi = Ensures-err "must be within its bounds"
integer-bounds null lo hi = Ensures-err "must be an integer"
integer-bounds (bool b) lo hi = Ensures-err "must be an integer"
integer-bounds (float x) lo hi = Ensures-err "must be an integer"
integer-bounds (str s) lo hi = Ensures-err "must be an integer"
integer-bounds (arr vs) lo hi = Ensures-err "must be an integer"
integer-bounds (obj fs) lo hi = Ensures-err "must be an integer"

-- An array that is read is as long as was asked.
pub list-long : (v : Value) (minimum : ℕ) → Ensures (λ vs. minimum ≤ length vs) (list v minimum)
unfolding list
list-long (arr vs) minimum =
    Ensures-if (ltb (length (items vs)) minimum) _ _ (λ _. Ensures-err "must contain more items")
      (λ long. Ensures-pure (items vs) (ground (arith, long)))
list-long null minimum = Ensures-err "must be an array"
list-long (bool b) minimum = Ensures-err "must be an array"
list-long (int n) minimum = Ensures-err "must be an array"
list-long (float x) minimum = Ensures-err "must be an array"
list-long (str s) minimum = Ensures-err "must be an array"
list-long (obj fs) minimum = Ensures-err "must be an array"

-- An array that is read element by element is as long as was asked.
pub read_list-long :
    {B : Type 0} (v : Value) (minimum : ℕ) (f : Value → Result B) (vs : List Value) (bs : List B)
    → list v minimum ≡ ok vs
    → traverse f vs ≡ ok bs
    → minimum ≤ length bs
read_list-long v minimum f vs bs e h =
    omega (arith, (list-long v minimum).at vs e, (length-traverse f vs).at bs h)

pub distinct_ids : (ids : List String) → unique_ids ids ≡ ok tt → distinct ids ≡ true
unfolding unique_ids
distinct_ids ids h = ground (arith, h)
