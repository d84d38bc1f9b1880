-- ===== src/Manifest/Comparisons.antt =====
-- `_parse_comparisons`, `_exact_repetitions` and `_parse_holdout_comparison_ids` of
-- skivolve/manifest.py.
use mathlib.Core.List.{map}
use skivolve.Base.{
  ℕ, ◌≤◌, String, true, false, not, some, List, [], ◌∷◌, ◌≡◌, ◌≢◌, arith, ◌==◌, nat_eq, string_eq,
  list_eq, beq_sound, contains, distinct, subset, select, Result, ok, ◌>>=◌, ◌>>◌, raise_if,
  traverse, All, Ensures, ensures_rules, Ensures-pure, Ensures-guard, length, Ensures-bind,
  traverse-All,
}
use skivolve.Json.{Value, get_or_null}
use skivolve.Manifest.Types.{ComparisonSpec}
use skivolve.Manifest.Values.{
  object, text, any_text, is_identifier, integer, list, unique_ids, read_list-long, distinct_ids,
}

abbrev pub comparison_keys : List String
comparison_keys = "id" ∷ "control" ∷ "treatment" ∷ "repetitions" ∷ "comparator_order" ∷ []

abbrev pub comparison_ids : List ComparisonSpec → List String
comparison_ids comparisons = map (λ c. c.id) comparisons

-- `_exact_repetitions`
unfoldable pub exact_repetitions : Value → Result ℕ
exact_repetitions value = do
  result ← integer value 3 (some 3)
  raise_if (not (result == 3)) "must be exactly 3"
  ok result

-- One turn of the loop.
unfoldable pub parse_comparison : List String → Value → Result ComparisonSpec
unfolding contains exact_repetitions
parse_comparison variant_ids item = do
  data' ← object item comparison_keys comparison_keys
  control ← text (get_or_null "control" data') is_identifier
  treatment ← text (get_or_null "treatment" data') is_identifier
  raise_if (control == treatment) "must compare two distinct variants"
  raise_if (not (contains control variant_ids)) "control references unknown variant"
  raise_if (not (contains treatment variant_ids)) "treatment references unknown variant"
  order ← text (get_or_null "comparator_order" data') any_text
  raise_if (not (order == "ab_ba")) "comparator_order must be 'ab_ba'"
  id ← text (get_or_null "id" data') is_identifier
  repetitions ← exact_repetitions (get_or_null "repetitions" data')
  ok (record {
    id = id;
    control = control;
    treatment = treatment;
    repetitions = repetitions;
    comparator_order = order;
  })

-- `_parse_comparisons`
unfoldable pub parse_comparisons : Value → List String → Result (List ComparisonSpec)
unfolding unique_ids
parse_comparisons raw variant_ids = do
  items ← list raw 1
  comparisons ← traverse (parse_comparison variant_ids) items
  unique_ids (comparison_ids comparisons)
  ok comparisons

-- `_parse_holdout_comparison_ids`
unfoldable pub parse_holdout_comparison_ids : Value → List ComparisonSpec → Result (List String)
unfolding distinct subset
parse_holdout_comparison_ids raw comparisons = do
  data' ← object raw ("comparison_ids" ∷ []) ("comparison_ids" ∷ [])
  values ← list (get_or_null "comparison_ids" data') 1
  selected ← traverse (λ v. text v is_identifier) values
  raise_if (not (distinct selected)) "contains duplicates"
  raise_if (not (subset selected (comparison_ids comparisons))) "references unknown comparisons"
  raise_if (not (selected == select (λ c. contains c selected) (comparison_ids comparisons)))
      "must follow canonical manifest comparison order"
  ok selected

-- A comparison that is read: two different known variants, three repetitions, both orders.
pub record IsComparison (variant_ids : List String) (c : ComparisonSpec) : Type 0 where
  pub different : c.control ≢ c.treatment
  pub control_known : contains c.control variant_ids ≡ true
  pub treatment_known : contains c.treatment variant_ids ≡ true
  pub three : c.repetitions ≡ 3
  pub both_orders : c.comparator_order ≡ "ab_ba"

not_same : (a b : String) → (a == b) ≡ false → a ≢ b
not_same a b h e = ground (arith, h, e, string_eq.beq_iff a b)

three_repetitions : (v : Value) → Ensures (λ n. n ≡ 3) (exact_repetitions v)
unfolding exact_repetitions
three_repetitions v =
    Ensures-bind (integer v 3 (some 3)) _ λ n _. record { at = λ m e. ground (arith, e) }

given-IsComparison :
    (ids : List String) (id control treatment order : String) (n : ℕ)
    → (control == treatment) ≡ false
    → not (contains control ids) ≡ false
    → not (contains treatment ids) ≡ false
    → not (order == "ab_ba") ≡ false
    → n ≡ 3
    → IsComparison ids (record {
      id = id;
      control = control;
      treatment = treatment;
      repetitions = n;
      comparator_order = order;
    })
given-IsComparison ids id control treatment order n differ known known' both three = record {
  different = not_same control treatment differ;
  control_known = ground (arith, known);
  treatment_known = ground (arith, known');
  three = three;
  both_orders = beq_sound order "ab_ba" (ground (arith, both));
}

three_of : (v : Value) (n : ℕ) → exact_repetitions v ≡ ok n → n ≡ 3
three_of v n e = (three_repetitions v).at n e

parse_comparison-IsComparison :
    (ids : List String) (item : Value) → Ensures (IsComparison ids) (parse_comparison ids item)
unfolding parse_comparison
parse_comparison-IsComparison ids item =
    search (ensures_rules, given-IsComparison, three_of) depth 16

-- A list of comparisons that is read: not empty, its ids distinct, each comparison sound.
pub record AreComparisons (variant_ids : List String) (cs : List ComparisonSpec) : Type 0 where
  pub nonempty : 1 ≤ length cs
  pub ids_distinct : distinct (comparison_ids cs) ≡ true
  pub each : All (IsComparison variant_ids) cs

pub parse_comparisons-Ensures :
    (raw : Value) (variant_ids : List String)
    → Ensures (AreComparisons variant_ids) (parse_comparisons raw variant_ids)
unfolding parse_comparisons
parse_comparisons-Ensures raw ids = Ensures-bind (list raw 1) _ λ vs listed.
    Ensures-bind (traverse (parse_comparison ids) vs) _ λ cs read.
      Ensures-bind (unique_ids (comparison_ids cs)) _ λ _ unique. Ensures-pure cs (record {
        nonempty = read_list-long raw 1 (parse_comparison ids) vs cs listed read;
        ids_distinct = distinct_ids (comparison_ids cs) unique;
        each =
            (traverse-All (parse_comparison ids) (parse_comparison-IsComparison ids) vs).at cs read;
      })

-- The holdout's comparisons: a selection of the declared ones, in their order.
pub record IsHoldout (comparisons : List ComparisonSpec) (selected : List String) : Type 0 where
  pub nonempty : 1 ≤ length selected
  pub canonical : selected ≡ select (λ c. contains c selected) (comparison_ids comparisons)
  pub ids_distinct : distinct selected ≡ true
  pub known : subset selected (comparison_ids comparisons) ≡ true

pub parse_holdout_comparison_ids-Ensures :
    (raw : Value) (comparisons : List ComparisonSpec)
    → Ensures (IsHoldout comparisons) (parse_holdout_comparison_ids raw comparisons)
unfolding parse_holdout_comparison_ids
parse_holdout_comparison_ids-Ensures raw comparisons =
    Ensures-bind (object raw ("comparison_ids" ∷ []) ("comparison_ids" ∷ [])) _ λ data' _.
      Ensures-bind (list (get_or_null "comparison_ids" data') 1) _ λ vs listed.
        Ensures-bind (traverse (λ v. text v is_identifier) vs) _ λ selected read.
          Ensures-guard (not (distinct selected)) "contains duplicates" _ λ once.
            Ensures-guard (not (subset selected (comparison_ids comparisons)))
              "references unknown comparisons" _
              λ known.
                Ensures-guard
                  (not (selected == select (λ c. contains c selected) (comparison_ids comparisons)))
                  "must follow canonical manifest comparison order" _
                  λ ordered. Ensures-pure selected (record {
                    nonempty =
                        read_list-long (get_or_null "comparison_ids" data') 1
                          (λ v. text v is_identifier) vs selected listed read;
                    canonical = beq_sound selected _ (ground (arith, ordered));
                    ids_distinct = ground (arith, once);
                    known = ground (arith, known);
                  })

-- The comparisons that `_parse_comparisons` returns are at least one, have distinct ids, compare two
-- different variants that are declared, run three repetitions and judge in both orders.
pub parse_comparisons-AreComparisons :
    (raw : Value) (variant_ids : List String) (cs : List ComparisonSpec)
    → parse_comparisons raw variant_ids ≡ ok cs
    → AreComparisons variant_ids cs
parse_comparisons-AreComparisons raw variant_ids cs e =
    (parse_comparisons-Ensures raw variant_ids).at cs e

-- The ids that `_parse_holdout_comparison_ids` returns are at least one, distinct and declared, and
-- they stand in the order of the manifest's comparisons.
pub parse_holdout_comparison_ids-IsHoldout :
    (raw : Value) (comparisons : List ComparisonSpec) (selected : List String)
    → parse_holdout_comparison_ids raw comparisons ≡ ok selected
    → IsHoldout comparisons selected
parse_holdout_comparison_ids-IsHoldout raw comparisons selected e =
    (parse_holdout_comparison_ids-Ensures raw comparisons).at selected e
