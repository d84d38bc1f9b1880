-- ===== src/Base/Fallible.antt =====
-- What a fallible function returns: a value, or the exception's message without the parts that the
-- source interpolates into it.
use Prim.Native.String.{String}
use mathlib.Core.Path.{◌≡◌, refl, ap, subst}
use mathlib.Core.Logic.{◌⊎◌, inl, inr}
use mathlib.Core.Bool.{Bool, true, false}
use mathlib.Core.Option.{Option, none, some}
use mathlib.Core.List.{List, [], ◌∷◌, ◌++◌}
use skivolve.Base.Tests.{if◌then◌else◌}
use skivolve.Base.Lists.{All, length}
use native.Mathlib.Omega.{arith}

pub data Result {ℓ} (A : Type ℓ) : Type ℓ where
  ok : A → Result A
  err : String → Result A

infixl 5 ◌>>=◌ ◌>>◌
abbrev pub ◌>>=◌ {ℓ κ} : {A : Type ℓ} {B : Type κ} → Result A → (A → Result B) → Result B
err message >>= next = err message
ok value >>= next = next value

-- `if test: raise E(message)`
abbrev pub raise_if : Bool → String → Result (Unit {0})
raise_if true e = err e
raise_if false e = ok tt

-- The second, once the first has not raised.
abbrev pub ◌>>◌ {ℓ} : {B : Type ℓ} → Result (Unit {0}) → Result B → Result B
check >> rest = check >>= λ _. rest

abbrev pub or_raise {ℓ} : {A : Type ℓ} → Option A → String → Result A
or_raise none e = err e
or_raise (some a) e = ok a

pub >>=-eq-ok {ℓ κ} :
    {A : Type ℓ} {B : Type κ} (first : Result A) (next : A → Result B) {c : B}
    → (first >>= next) ≡ ok c
    → (value : A) × (first ≡ ok value) × (next value ≡ ok c)
>>=-eq-ok (err message) next same = cc
>>=-eq-ok (ok value) next same = (value, refl, same)

pub raise_if-ok {ℓ} :
    {B : Type ℓ} (t : Bool) (e : String) (k : Result B) {b : B}
    → (raise_if t e >> k) ≡ ok b
    → (t ≡ false) × (k ≡ ok b)
raise_if-ok true e k h = cc
raise_if-ok false e k h = (refl, h)

pub Result-cases {ℓ} :
    {A : Type ℓ} (r : Result A) → ((a : A) × (r ≡ ok a)) ⊎ ((e : String) × (r ≡ err e))
Result-cases (ok a) = inl (a, refl)
Result-cases (err e) = inr (e, refl)

-- A comprehension whose body may raise, from left to right.
module _ {ℓ κ} {A : Type ℓ} {B : Type κ} (f : A → Result B) where
  unfoldable pub traverse : List A → Result (List B)
  traverse [] = ok []
  traverse (x ∷ xs) = do y ← f x; ys ← traverse xs; ok (y ∷ ys)

-- A property of the value, if one is returned.
pub record Ensures {ℓ κ} {B : Type ℓ} (P : B → Type κ) (r : Result B) : Type (ℓ ⊔ κ) where
  pub at : (b : B) → r ≡ ok b → P b

from_ok {ℓ} : {B : Type ℓ} → Result B → B → B
from_ok (ok x) y = x
from_ok (err _) y = y

module _ {ℓ κ} {B : Type ℓ} {P : B → Type κ} where
  pub Ensures-pure : (b : B) → P b → Ensures P (ok b)
  unfolding from_ok
  Ensures-pure b h = record { at = λ c e. subst P (ap (λ r. from_ok r b) e) h }

  pub Ensures-err : (m : String) → Ensures P (err m)
  Ensures-err m = record { at = λ c e. cc }

  pub Ensures-if :
      (t : Bool) (x y : Result B)
      → (t ≡ true → Ensures P x)
      → (t ≡ false → Ensures P y)
      → Ensures P (if t then x else y)
  Ensures-if true x y h k = h refl
  Ensures-if false x y h k = k refl

  pub Ensures-guard :
      (t : Bool) (e : String) (k : Result B)
      → (t ≡ false → Ensures P k)
      → Ensures P (raise_if t e >> k)
  Ensures-guard true e k h = Ensures-err e
  Ensures-guard false e k h = h refl

module _ {ℓ κ μ} {A : Type μ} {B : Type ℓ} {P : B → Type κ} where
  pub Ensures-bind :
      (m : Result A) (f : A → Result B)
      → ((a : A) → m ≡ ok a → Ensures P (f a))
      → Ensures P (m >>= f)
  Ensures-bind (ok a) f h = h a refl
  Ensures-bind (err e) f h = Ensures-err e

module _ {ℓ κ μ} {A : Type ℓ} {B : Type μ} {P : B → Type κ} (f : A → Result B) where
  -- What the body of a comprehension ensures holds of every element.
  pub traverse-All : ((a : A) → Ensures P (f a)) → (xs : List A) → Ensures (All P) (traverse f xs)
  unfolding traverse
  traverse-All h [] = Ensures-pure [] tt
  traverse-All h (x ∷ xs) =
      Ensures-bind (f x) (λ y. traverse f xs >>= λ ys. ok (y ∷ ys))
        λ y fy.
          Ensures-bind (traverse f xs) (λ ys. ok (y ∷ ys))
            λ ys fys. Ensures-pure (y ∷ ys) ((h x).at y fy, (traverse-All h xs).at ys fys)

module _ {ℓ μ} {A : Type ℓ} {B : Type μ} (f : A → Result B) where
  pub length-traverse : (xs : List A) → Ensures (λ ys. length ys ≡ length xs) (traverse f xs)
  unfolding traverse
  length-traverse [] = Ensures-pure [] refl
  length-traverse (x ∷ xs) =
      Ensures-bind (f x) (λ y. traverse f xs >>= λ ys. ok (y ∷ ys))
        λ y fy.
          Ensures-bind (traverse f xs) (λ ys. ok (y ∷ ys))
            λ ys fys. Ensures-pure (y ∷ ys) (omega (arith, (length-traverse xs).at ys fys))

  pub traverse-append :
      (xs : List A) (x : A) (ys : List B) (y : B)
      → traverse f xs ≡ ok ys
      → f x ≡ ok y
      → traverse f (xs ++ x ∷ []) ≡ ok (ys ++ y ∷ [])
  unfolding traverse
  traverse-append [] x ys y h e = ground (arith, h, e)
  traverse-append (z ∷ xs) x [] y h e = ground (arith, h, e)
  traverse-append (z ∷ xs) x (w ∷ ys) y h e = ground (arith, h, e, traverse-append xs x ys y)

pub ruleset ensures_rules =
    (Ensures-pure, Ensures-err, Ensures-if, Ensures-guard, Ensures-bind, traverse-All)
