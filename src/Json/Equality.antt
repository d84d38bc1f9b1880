-- ===== src/Json/Equality.antt =====
-- Python's `==` on JSON values: numbers compare across bool, int and float, and a dict compares
-- without regard to the order of its keys.
use skivolve.Base.{
  ℕ, suc, ◌-◌, ◌*◌, ◌^◌, String, Bool, true, false, ◌&&◌, Option, none, some, ◌≡◌, ◌==◌, nat_eq,
  string_eq, arith, beq_refl, refl, &&-intro,
}
use text.Mathlib.TextEquality.{eq_iff}
use skivolve.Base.Int.{ℤ, pos, negsuc, int_eq}
use skivolve.Json.Document.{
  Float, finite, infinite, not_a_number, Value, null, bool, int, float, str, arr, obj, Items, nil,
  cons, Fields, end, field,
}
use skivolve.Json.Access.{get}

-- An int as a number of units.
unfoldable pub to_units : ℤ → ℤ
to_units (pos n) = pos (n * 2 ^ 1074)
to_units (negsuc n) = negsuc (suc n * 2 ^ 1074 - 1)

numeric : Value → Option Float
unfolding to_units
numeric (bool true) = some (finite (to_units (pos 1)))
numeric (bool false) = some (finite (pos 0))
numeric (int n) = some (finite (to_units n))
numeric (float x) = some x
numeric _ = none

-- `==` of two floats
unfoldable pub same_float : Float → Float → Bool
same_float (finite a) (finite b) = a == b
same_float (infinite true) (infinite true) = true
same_float (infinite false) (infinite false) = true
same_float _ _ = false

same_number : Option Float → Option Float → Bool
unfolding same_float
same_number (some a) (some b) = same_float a b
same_number _ _ = false

abbrev size : Fields → ℕ
size end = 0
size (field k v fs) = suc (size fs)

unfoldable mutual
  unfolding numeric same_number get

  pub same : Value → Value → Bool
  same null w = elim w [ null ↦ true | _ ↦ false ]
  same (bool a) w = same_number (numeric (bool a)) (numeric w)
  same (int a) w = same_number (numeric (int a)) (numeric w)
  same (float a) w = same_number (numeric (float a)) (numeric w)
  same (str s) w = elim w [ str t ↦ s == t | _ ↦ false ]
  same (arr vs) w = elim w [ arr ws ↦ same_items vs ws | _ ↦ false ]
  same (obj fs) w = elim w [ obj gs ↦ size fs == size gs && same_fields fs gs | _ ↦ false ]

  pub same_items : Items → Items → Bool
  same_items nil ws = elim ws [ nil ↦ true | cons _ _ ↦ false ]
  same_items (cons v vs) ws = elim ws [ nil ↦ false | cons w ws' ↦ same v w && same_items vs ws' ]

  pub same_fields : Fields → Fields → Bool
  same_fields end gs = true
  same_fields (field k v fs) gs = elim (get k gs) [
    | none ↦ false
    | some w ↦ same v w && same_fields fs gs
  ]

-- The values that equal themselves: no number is NaN, and no key is listed twice.
abbrev mutual
  pub IsPlain : Value → Type 0
  IsPlain (float not_a_number) = ⊥
  IsPlain (arr vs) = ItemsPlain vs
  IsPlain (obj fs) = FieldsPlain fs
  IsPlain _ = Unit

  pub ItemsPlain : Items → Type 0
  ItemsPlain nil = Unit
  ItemsPlain (cons v vs) = IsPlain v × ItemsPlain vs

  pub FieldsPlain : Fields → Type 0
  FieldsPlain end = Unit
  FieldsPlain (field k v fs) = (get k fs ≡ none) × IsPlain v × FieldsPlain fs

-- Every entry of the first dict is read back from the second.
abbrev Found : Fields → Fields → Type 0
Found end gs = Unit
Found (field k v fs) gs = (get k gs ≡ some v) × Found fs gs

Found-weaken :
    (j : String) (w : Value) (fs gs : Fields)
    → get j fs ≡ none
    → Found fs gs
    → Found fs (field j w gs)
unfolding get
Found-weaken j w end gs h f = tt
Found-weaken j w (field k v fs) gs h f =
    ground (arith, eq_iff j k, eq_iff k j, Found-weaken j w fs gs)

Found-refl : (fs : Fields) → FieldsPlain fs → Found fs fs
unfolding get
Found-refl end h = tt
Found-refl (field k v fs) h = (rw (beq_refl k), Found-weaken k v fs fs h.0 (Found-refl fs h.2))

mutual
  unfolding same numeric same_number same_float

  refl_value : (v : Value) → IsPlain v → same v v ≡ true
  refl_value null h = refl
  refl_value (bool true) h = beq_refl (to_units (pos 1))
  refl_value (bool false) h = refl
  refl_value (int a) h = beq_refl (to_units a)
  refl_value (float (finite a)) h = beq_refl a
  refl_value (float (infinite true)) h = refl
  refl_value (float (infinite false)) h = refl
  refl_value (float not_a_number) h = absurd h
  refl_value (str s) h = beq_refl s
  refl_value (arr vs) h = refl_items vs h
  refl_value (obj fs) h = &&-intro _ _ (beq_refl (size fs)) (refl_fields fs fs h (Found-refl fs h))

  refl_items : (vs : Items) → ItemsPlain vs → same_items vs vs ≡ true
  refl_items nil h = refl
  refl_items (cons v vs) h = &&-intro _ _ (refl_value v h.0) (refl_items vs h.1)

  refl_fields : (fs gs : Fields) → FieldsPlain fs → Found fs gs → same_fields fs gs ≡ true
  refl_fields end gs h f = refl
  refl_fields (field k v fs) gs h f =
      ground (arith, f.0, refl_value v h.1, refl_fields fs gs h.2 f.1)

pub same_refl : (v : Value) → IsPlain v → same v v ≡ true
same_refl v h = refl_value v h
