-- ===== src/Spend/Money.antt =====
-- Amounts in US dollars: Python floats, compared as IEEE 754 says, with the arithmetic of the
-- interpreter as a parameter.
use skivolve.Base.{
  ℕ, ◌+◌, ◌-◌, ◌≤◌, Bool, true, false, ◌||◌, not, Option, List, map, ◌≡◌, ltb, Result, ok, err,
  ◌>>=◌, ◌>>◌, raise_if, or_raise,
}
use skivolve.Base.Int.{ℤ, pos, ltb_ℤ}
use skivolve.Json.{Value, int, float, Float, finite, infinite, not_a_number}

-- `+`, `-` and `sum` of floats, and `float` of an int, `none` where it overflows.
pub record Arithmetic : Type 0 where
  pub plus : Float → Float → Float
  pub minus : Float → Float → Float
  pub total : List Float → Float
  pub of_int : ℤ → Option Float

-- `x < y`
unfoldable pub less : Float → Float → Bool
less (finite a) (finite b) = ltb_ℤ a b
less (finite a) (infinite negative) = not negative
less (infinite negative) (finite b) = negative
less (infinite true) (infinite false) = true
less _ _ = false

-- `x <= 0`, which no NaN is
unfoldable pub not_positive : Float → Bool
not_positive (finite a) = not (ltb_ℤ (pos 0) a)
not_positive (infinite negative) = negative
not_positive not_a_number = false

-- `math.isfinite`
unfoldable pub is_finite : Float → Bool
is_finite (finite a) = true
is_finite _ = false

abbrev pub zero_usd : Float
zero_usd = finite (pos 0)

-- The sum of some numbers.
abbrev pub sum : List ℕ → ℕ
sum List.[] = 0
sum (List.◌∷◌ n ns) = n + sum ns

-- Amounts that are whole numbers of a unit: up to a bound on their number of units the arithmetic of
-- doubles is exact (2 ^ 53 units of a power of two), and they compare as their numbers do.
pub record ExactBelow (m : Arithmetic) (bound : ℕ) : Type 0 where
  pub usd : ℕ → Float
  pub usd_zero : usd 0 ≡ zero_usd
  pub usd_finite : (n : ℕ) → is_finite (usd n) ≡ true
  pub usd_positive : (n : ℕ) → not_positive (usd n) ≡ not (ltb 0 n)
  pub usd_less : (j k : ℕ) → less (usd j) (usd k) ≡ ltb j k
  pub plus_exact : (j k : ℕ) → j + k ≤ bound → m.plus (usd j) (usd k) ≡ usd (j + k)
  pub minus_exact : (j k : ℕ) → k ≤ j → j ≤ bound → m.minus (usd j) (usd k) ≡ usd (j - k)
  pub total_exact : (ns : List ℕ) → sum ns ≤ bound → m.total (map usd ns) ≡ usd (sum ns)

-- `_finite_nonnegative`
unfoldable pub finite_nonnegative : Arithmetic → Value → Result Float
unfolding is_finite less
finite_nonnegative m value = as_number value >>= λ x.
    raise_if (not (is_finite x) || less x zero_usd) "must be finite and non-negative" >> ok x
  where
    as_number : Value → Result Float
    as_number (float x) = ok x
    as_number (int n) = or_raise (m.of_int n) "int too large to convert to float"
    as_number _ = err "must be finite and non-negative"
