-- ===== src/Spend/Owed.antt =====
-- What a replay of the journal of skivolve/comparator_runtime.py owes, in whole units.
use mathlib.Core.List.{head-eq_of_cons-eq, tail-eq_of_cons-eq}
use skivolve.Base.{
  ℕ, ◌+◌, String, none, some, List, [], ◌∷◌, ◌++◌, map, ◌≡◌, refl, sym, ap, ◌∙◌, arith, ◌==◌,
  string_eq, ltb, Bool-cases, inl, inr,
}
use skivolve.Base.Dict.{Dict, lookup, insert, values}
use skivolve.Spend.Money.{Arithmetic, ExactBelow, less, sum}
use skivolve.Spend.Journal.{Attempt, owed}

-- A new key goes to the end.
pub values-insert :
    (k : String) (a : Attempt) (d : Dict String Attempt)
    → lookup k d ≡ none
    → values (insert k a d) ≡ values d ++ a ∷ []
unfolding lookup insert
values-insert k a [] h = refl
values-insert k a ((j, w) ∷ d) h = elim (Bool-cases (k == j)) [
  | inl same ↦ absurd (cc (rw same at h))
  | inr other ↦ rw other (ap (λ l. w ∷ l) (values-insert k a d (rw other at h)))
]

pub sum-append : (ns : List ℕ) (n : ℕ) → sum (ns ++ n ∷ []) ≡ sum ns + n
sum-append [] n = omega arith
sum-append (k ∷ ns) n = omega (arith, sum-append ns n)

pub map-append :
    {A B : Type 0} (f : A → B) (xs : List A) (x : A) → map f (xs ++ x ∷ []) ≡ map f xs ++ f x ∷ []
map-append f [] x = refl
map-append f (y ∷ xs) x = ap (λ l. f y ∷ l) (map-append f xs x)

some_injective : {A : Type 0} {x y : A} → some x ≡ some y → x ≡ y
some_injective h = cc h

cons_cong : {A : Type 0} {x y : A} {xs ys : List A} → x ≡ y → xs ≡ ys → x ∷ xs ≡ y ∷ ys
cons_cong h k = cc (h, k)

module _ {m : Arithmetic} {bound : ℕ} (money : ExactBelow m bound) where
  usd_injective : (j k : ℕ) → money.usd j ≡ money.usd k → j ≡ k
  usd_injective j k same =
      let below : ltb j k ≡ ltb k k =
        sym (money.usd_less j k) ∙ ap (λ x. less x (money.usd k)) same ∙ money.usd_less k k in
      let above : ltb k j ≡ ltb k k =
        sym (money.usd_less k j) ∙ ap (λ x. less (money.usd k) x) same ∙ money.usd_less k k in
      ground (arith, below, above)

  -- The amounts that a replay owes are these numbers of units.
  abbrev pub Owes : List ℕ → Dict String Attempt → Type 0
  Owes ns d = map owed (values d) ≡ map money.usd ns

  pub Owes-new :
      (k : String) (a : Attempt) (d : Dict String Attempt) (n : ℕ) (ns : List ℕ)
      → lookup k d ≡ none
      → owed a ≡ money.usd n
      → Owes ns d
      → Owes (ns ++ n ∷ []) (insert k a d)
  Owes-new k a d n ns new amount owes =
      ap (map owed) (values-insert k a d new)
      ∙ map-append owed (values d) a
      ∙ ap (λ l. l ++ owed a ∷ []) owes
      ∙ ap (λ x. map money.usd ns ++ x ∷ []) amount
      ∙ sym (map-append money.usd ns n)

  -- An entry that changes what it owes changes the sum by as much.
  pub Owes-changed :
      (k : String) (a b : Attempt) (n c : ℕ) (d : Dict String Attempt) (ns : List ℕ)
      → lookup k d ≡ some a
      → owed a ≡ money.usd n
      → owed b ≡ money.usd c
      → Owes ns d
      → (after : List ℕ) × Owes after (insert k b d) × (sum after + n ≡ sum ns + c)
  unfolding lookup insert
  Owes-changed k a b n c [] ns found before after owes = absurd (cc found)
  Owes-changed k a b n c ((j, w) ∷ d) [] found before after owes = absurd (cc owes)
  Owes-changed k a b n c ((j, w) ∷ d) (x ∷ ns) found before after owes =
      elim (Bool-cases (k == j)) [
        | inl same ↦
            let first : w ≡ a = some_injective (rw same at found) in
            let units : x ≡ n =
              usd_injective x n (sym (head-eq_of_cons-eq owes) ∙ ap owed first ∙ before) in
            rw same (c ∷ ns, cons_cong after (tail-eq_of_cons-eq owes), omega (arith, units))
        | inr other ↦
            let (later, still, total) =
              Owes-changed k a b n c d ns (rw other at found) before after
                (tail-eq_of_cons-eq owes) in
            rw other (x ∷ later, cons_cong (head-eq_of_cons-eq owes) still, omega (arith, total))
      ]
