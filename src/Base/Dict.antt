-- ===== src/Base/Dict.antt =====
-- Python's `dict` as an association list in insertion order: a write to a key that is there keeps
-- its place.
use mathlib.Core.Path.{◌≡◌, refl, sym}
use mathlib.Core.Logic.{◌≢◌, inl, inr}
use mathlib.Core.Bool.{Bool, true, false, ◌&&◌}
use mathlib.Core.Option.{Option, none, some}
use mathlib.Core.List.{List, [], ◌∷◌}
use native.Mathlib.Omega.{arith}
use skivolve.Base.Tests.{
  Eq, nat_eq, ◌==◌, if◌then◌else◌, beq_refl, beq_ne, Bool-cases, Option-cases, &&-intro,
}
use skivolve.Base.Lists.{length, all}

abbrev pub Dict {ℓ κ} : Type ℓ → Type κ → Type (ℓ ⊔ κ)
Dict K V = List (K × V)

module _ {ℓ κ} {K : Type ℓ} ⦃e : Eq K⦄ {V : Type κ} where
  -- `d.get(k)`
  unfoldable pub lookup : K → Dict K V → Option V
  lookup k [] = none
  lookup k ((j, v) ∷ d) = if k == j then some v else lookup k d

  -- `k in d`
  unfoldable pub member : K → Dict K V → Bool
  unfolding lookup
  member k d = elim (lookup k d) [ none ↦ false | some _ ↦ true ]

  -- `d[k] = v`
  unfoldable pub insert : K → V → Dict K V → Dict K V
  insert k v [] = (k, v) ∷ []
  insert k v ((j, w) ∷ d) = if k == j then (j, v) ∷ d else (j, w) ∷ insert k v d

  abbrev pub keys : Dict K V → List K
  keys [] = []
  keys ((j, _) ∷ d) = j ∷ keys d

  abbrev pub values : Dict K V → List V
  values [] = []
  values ((_, v) ∷ d) = v ∷ values d

  -- No key is listed twice.
  abbrev pub KeysDistinct : Dict K V → Type κ
  KeysDistinct [] = Unit
  KeysDistinct ((j, _) ∷ d) = (member j d ≡ false) × KeysDistinct d

  -- A write is read back, and no other key is changed.
  pub lookup-insert :
      (j k : K) (v : V) (d : Dict K V)
      → lookup j (insert k v d) ≡ (if j == k then some v else lookup j d)
  unfolding lookup insert
  lookup-insert j k v [] = refl
  lookup-insert j k v ((i, w) ∷ d) =
      ground (arith, lookup-insert j k v d, e.beq_iff j k, e.beq_iff k i, e.beq_iff j i)

  pub member-insert :
      (j k : K) (v : V) (d : Dict K V)
      → j ≢ k
      → member j d ≡ false
      → member j (insert k v d) ≡ false
  unfolding member
  member-insert j k v d ne h = ground (arith, lookup-insert j k v d, e.beq_iff j k)

  pub insert-KeysDistinct :
      (k : K) (v : V) (d : Dict K V) → KeysDistinct d → KeysDistinct (insert k v d)
  unfolding insert member lookup
  insert-KeysDistinct k v [] h = (refl, tt)
  insert-KeysDistinct k v ((j, w) ∷ d) h = elim (Bool-cases (k == j)) [
    | inl same ↦ rw same h
    | inr other ↦
        rw other
          (member-insert j k v d (λ p. beq_ne k j other (sym p)) h.0, insert-KeysDistinct k v d h.1)
  ]

module _ {ℓ κ} {K : Type ℓ} ⦃e : Eq K⦄ {V : Type κ} ⦃v : Eq V⦄ where
  -- one key of a dict, compared with another dict
  unfoldable pub agrees : Dict K V → K × V → Bool
  agrees d p = elim (lookup p.0 d) [ none ↦ false | some w ↦ p.1 == w ]

  -- `d == c`, without regard to order
  unfoldable pub dict_same : Dict K V → Dict K V → Bool
  unfolding agrees
  dict_same c d = length c == length d && all (agrees d) c

  agrees-weaken :
      (j : K) (w : V) (c d : Dict K V)
      → member j d ≡ false
      → all (agrees d) c ≡ true
      → all (agrees ((j, w) ∷ d)) c ≡ true
  unfolding agrees member lookup
  agrees-weaken j w [] d h p = refl
  agrees-weaken j w ((k, x) ∷ c) d h p = ground (arith, e.beq_iff k j, agrees-weaken j w c d h)

  agrees_self : (d : Dict K V) → KeysDistinct d → all (agrees d) d ≡ true
  agrees_self [] h = refl
  agrees_self ((j, w) ∷ d) h =
      &&-intro (agrees ((j, w) ∷ d) (j, w)) (all (agrees ((j, w) ∷ d)) d)
        (unfold agrees lookup in ground (arith, beq_refl j, beq_refl w))
        (agrees-weaken j w d d h.0 (agrees_self d h.1))

  -- A dict equals itself.
  pub dict_same_refl : (d : Dict K V) → KeysDistinct d → dict_same d d ≡ true
  unfolding dict_same
  dict_same_refl d h = &&-intro _ _ (beq_refl (length d)) (agrees_self d h)

  all-agrees-lookup :
      (j : K) (w : V) (c d : Dict K V)
      → all (agrees d) c ≡ true
      → lookup j c ≡ some w
      → lookup j d ≡ some w
  unfolding agrees lookup
  all-agrees-lookup j w [] d h found = cc found
  all-agrees-lookup j w ((k, x) ∷ c) d h found = elim (Option-cases (lookup k d)) [
    | inl absent ↦ ground (arith, absent, h)
    | inr (y, there) ↦
        ground (arith, there, h, found, e.beq_iff j k, v.beq_iff x y, all-agrees-lookup j w c d)
  ]

  -- Two dicts that differ at a key are not equal.
  pub dict_same-differs :
      (c d : Dict K V) (j : K) (w : V)
      → lookup j c ≡ some w
      → ¬ (lookup j d ≡ some w)
      → dict_same c d ≡ false
  unfolding dict_same
  dict_same-differs c d j w found differs = elim (Bool-cases (all (agrees d) c)) [
    | inl same ↦ absurd (differs (all-agrees-lookup j w c d same found))
    | inr other ↦ ground (arith, other)
  ]
