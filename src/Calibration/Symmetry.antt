-- ===== src/Calibration/Symmetry.antt =====
-- The decisions of skivolve/comparator_calibration/calibration.py do not favour a side.
use package.text.Mathlib.TextEquality.{eq_iff}
use mathlib.Core.Path.{ap₂}
use skivolve.Base.{
  String, Bool, true, false, ◌&&◌, ◌||◌, not, Option, none, some, List, [], ◌∷◌, ◌≡◌, refl, ap, ◌∙◌,
  arith, ◌==◌, string_eq, beq_sound, if◌then◌else◌, all, contains, subset, length, Result, ok, err,
  ◌>>◌, raise_if, Bool-cases, inl, inr, &&-split,
}
use skivolve.Base.Dict.{Dict, keys, values, dict_same, lookup, agrees}
use skivolve.Calibration.{
  requirement_statuses, eligibility_statuses, winners, derive_eligibility, without_criteria, pareto,
  compare_criteria, sides, derive_outcome,
}

-- The side that a text names when the candidates change places.
abbrev pub swap_side : String → String
swap_side t = if t == "A" then "B" else if t == "B" then "A" else t

-- The same criteria when the candidates change places.
abbrev pub swap_criteria : Dict String String → Dict String String
swap_criteria [] = []
swap_criteria ((k, v) ∷ d) = (k, swap_side v) ∷ swap_criteria d

abbrev pub swap_outcome : Result String → Result String
swap_outcome (ok t) = ok (swap_side t)
swap_outcome (err e) = err e

abbrev pub swap_given : Option (Dict String String) → Option (Dict String String)
swap_given none = none
swap_given (some d) = some (swap_criteria d)

-- The three tests that the decisions make of a side.
swap_side-tests :
    (t : String)
    → (("A" == swap_side t) ≡ ("B" == t))
      × (("B" == swap_side t) ≡ ("A" == t))
      × (contains (swap_side t) winners ≡ contains t winners)
unfolding contains
swap_side-tests t = elim (Bool-cases (t == "A")) [
  | inl a ↦ rw (beq_sound t "A" a) (refl, refl, refl)
  | inr not_a ↦ elim (Bool-cases (t == "B")) [
    | inl b ↦ rw (beq_sound t "B" b) (refl, refl, refl)
    | inr not_b ↦
        rw (not_a, not_b)
          (
            ground (arith, not_a, not_b, eq_iff t "A", eq_iff t "B", eq_iff "A" t, eq_iff "B" t),
            ground (arith, not_a, not_b, eq_iff t "A", eq_iff t "B", eq_iff "A" t, eq_iff "B" t),
            ap (λ r. r || contains t ("B" ∷ "tie" ∷ [])) not_a
                ∙ ap (λ r. r || contains t ("tie" ∷ [])) not_b,
          )
  ]
]

swap_criteria-tests :
    (d : Dict String String)
    → (contains "A" (values (swap_criteria d)) ≡ contains "B" (values d))
      × (contains "B" (values (swap_criteria d)) ≡ contains "A" (values d))
      × (subset (values (swap_criteria d)) winners ≡ subset (values d) winners)
      × (keys (swap_criteria d) ≡ keys d)
unfolding contains subset
swap_criteria-tests [] = (refl, refl, refl, refl)
swap_criteria-tests ((k, v) ∷ d) =
    let here = swap_side-tests v in
    let there = swap_criteria-tests d in
    (
      ap₂ (λ s t. s || t) here.0 there.0,
      ap₂ (λ s t. s || t) here.1 there.1,
      ap₂ (λ s t. s && t) here.2 there.2,
      ap (λ ks. k ∷ ks) there.3,
    )

pareto-swap :
    (xs ys : List String)
    → contains "A" ys ≡ contains "B" xs
    → contains "B" ys ≡ contains "A" xs
    → pareto ys ≡ swap_side (pareto xs)
unfolding pareto
pareto-swap xs ys h k = elim (Bool-cases (contains "A" xs)) [
  | inl a ↦ elim (Bool-cases (contains "B" xs)) [
    | inl b ↦ rw (h, k, a, b) refl
    | inr b ↦ rw (h, k, a, b) refl
  ]
  | inr a ↦ elim (Bool-cases (contains "B" xs)) [
    | inl b ↦ rw (h, k, a, b) refl
    | inr b ↦ rw (h, k, a, b) refl
  ]
]

raise_if-swap :
    (t : Bool) (e : String) (x y : String)
    → y ≡ swap_side x
    → (raise_if t e >> ok y) ≡ swap_outcome (raise_if t e >> ok x)
raise_if-swap true e x y h = refl
raise_if-swap false e x y h = ap ok h

compare_criteria-swap :
    (c : Option (Dict String String)) (ids : List String)
    → compare_criteria (swap_given c) ids ≡ swap_outcome (compare_criteria c ids)
unfolding compare_criteria
compare_criteria-swap none ids = refl
compare_criteria-swap (some d) ids =
    let tests = swap_criteria-tests d in
    rw (tests.2, tests.3)
      (raise_if-swap _ _ (pareto (values d)) (pareto (values (swap_criteria d)))
        (pareto-swap (values d) (values (swap_criteria d)) tests.0 tests.1))

without_criteria-swap :
    (c : Option (Dict String String)) (x y : String)
    → y ≡ swap_side x
    → without_criteria (swap_given c) y ≡ swap_outcome (without_criteria c x)
unfolding without_criteria
without_criteria-swap none x y h = ap ok h
without_criteria-swap (some d) x y h = refl

-- The decision when neither side is excluded for its status.
abbrev decide : (ae ai be bi : Bool) → Option (Dict String String) → List String → Result String
decide ae ai be bi c ids =
    if ae && (bi && true)
    then without_criteria c "A"
    else if ai && (be && true)
    then without_criteria c "B"
    else if not (ae && (be && true))
    then without_criteria c "unqualified"
    else compare_criteria c ids

decide-swap :
    (ae ai be bi : Bool) (c : Option (Dict String String)) (ids : List String)
    → (ae && ai) ≡ false
    → (be && bi) ≡ false
    → decide be bi ae ai (swap_given c) ids ≡ swap_outcome (decide ae ai be bi c ids)
decide-swap true true be bi c ids h k = cc
decide-swap true false true true c ids h k = cc
decide-swap true false true false c ids h k = compare_criteria-swap c ids
decide-swap true false false true c ids h k = without_criteria-swap c "A" "B" refl
decide-swap true false false false c ids h k =
    without_criteria-swap c "unqualified" "unqualified" refl
decide-swap false true true true c ids h k = cc
decide-swap false true true false c ids h k = without_criteria-swap c "B" "A" refl
decide-swap false true false true c ids h k =
    without_criteria-swap c "unqualified" "unqualified" refl
decide-swap false true false false c ids h k =
    without_criteria-swap c "unqualified" "unqualified" refl
decide-swap false false true true c ids h k = cc
decide-swap false false true false c ids h k =
    without_criteria-swap c "unqualified" "unqualified" refl
decide-swap false false false true c ids h k =
    without_criteria-swap c "unqualified" "unqualified" refl
decide-swap false false false false c ids h k =
    without_criteria-swap c "unqualified" "unqualified" refl

one_status : (t : String) → (t == "eligible" && t == "ineligible") ≡ false
one_status t = elim (Bool-cases (t == "eligible")) [
  | inl same ↦ rw (beq_sound t "eligible" same) refl
  | inr other ↦ rw other refl
]

guarded-swap :
    (a b : Bool) (e : String) (x y : Result String)
    → y ≡ swap_outcome x
    → (raise_if (not (b && (a && true))) e >> y)
      ≡ swap_outcome (raise_if (not (a && (b && true))) e >> x)
guarded-swap true true e x y h = h
guarded-swap true false e x y h = refl
guarded-swap false true e x y h = refl
guarded-swap false false e x y h = refl

-- When the candidates change places, in their statuses and in every criterion, the outcome changes
-- places with them, and an error stays the same error.
pub derive_outcome-swap :
    (a b : String) (criteria : Option (Dict String String)) (criterion_ids : List String)
    → derive_outcome (sides b a) (swap_given criteria) criterion_ids
      ≡ swap_outcome (derive_outcome (sides a b) criteria criterion_ids)
unfolding derive_outcome dict_same agrees lookup subset contains length
derive_outcome-swap a b criteria ids =
    guarded-swap (contains a eligibility_statuses) (contains b eligibility_statuses)
      "eligibility must contain canonical A and B decisions" _ _
      (decide-swap (a == "eligible") (a == "ineligible") (b == "eligible") (b == "ineligible")
        criteria ids (one_status a) (one_status b))

supported_status :
    (t : String)
    → contains t requirement_statuses ≡ true
    → (not ("violated" == t) && not ("unknown" == t)) ≡ (t == "satisfied")
unfolding contains
supported_status t h = elim (Bool-cases (t == "satisfied")) [
  | inl a ↦ rw (beq_sound t "satisfied" a) refl
  | inr not_a ↦ elim (Bool-cases (t == "violated")) [
    | inl b ↦ rw (beq_sound t "violated" b) refl
    | inr not_b ↦
        let unknown = beq_sound t "unknown" (ground (arith, h, not_a, not_b)) in rw unknown refl
  ]
]

all_satisfied :
    (ts : List String)
    → subset ts requirement_statuses ≡ true
    → (not (contains "violated" ts) && not (contains "unknown" ts)) ≡ all (λ t. t == "satisfied") ts
unfolding subset contains
all_satisfied [] h = refl
all_satisfied (t ∷ ts) h =
    let both = &&-split (contains t requirement_statuses) (subset ts requirement_statuses) h in
    ground (arith, supported_status t both.0, all_satisfied ts both.1)

abbrev status_of : Bool → Bool → String
status_of v u = if v then "ineligible" else if u then "unknown" else "eligible"

eligible_only : (v u : Bool) → (status_of v u == "eligible") ≡ (not v && not u)
eligible_only true u = refl
eligible_only false true = refl
eligible_only false false = refl

-- A candidate whose statuses are all known to the program is eligible just if every one is
-- "satisfied".
pub derive_eligibility_lem :
    (checks : Dict String String)
    → subset (values checks) requirement_statuses ≡ true
    → (decision : String) × (derive_eligibility checks ≡ ok decision)
      × ((decision == "eligible") ≡ all (λ t. t == "satisfied") (values checks))
unfolding derive_eligibility
derive_eligibility_lem checks h = (
  status_of (contains "violated" (values checks)) (contains "unknown" (values checks)),
  rw h refl,
  eligible_only (contains "violated" (values checks)) (contains "unknown" (values checks))
      ∙ all_satisfied (values checks) h,
)
