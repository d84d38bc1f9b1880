-- ===== src/Selection.antt =====
-- The selection of the cases and comparisons of a run: `_selected`,
-- `_validate_holdout_selection_shape`, `_effective_selection` and `_execution_mode` of
-- skivolve/runner.py.
use mathlib.Core.List.{map}
use skivolve.Base.{
  ℕ, String, Bool, true, false, ◌&&◌, ◌||◌, not, Option, none, some, List, [], ◌∷◌, ◌≡◌, ◌==◌,
  nat_eq, string_eq, list_eq, if◌then◌else◌, is_none, ltb, length, all, any, select, count_if,
  is_empty, contains, distinct, subset, dedup, Result, ok, err, ◌>>=◌, ◌>>◌, raise_if,
}
use skivolve.Base.Int.{ℤ, pos, ltb_ℤ}
use skivolve.Manifest.Types.{FilePath, CaseSpec, ComparisonSpec, SuiteSpec}
use skivolve.Manifest.Comparisons.{comparison_ids}
use skivolve.Manifest.Cases.{case_ids}
pub mod Rules

pub record RunSelection : Type 0 where
  pub split : String
  pub case_ids : List String
  pub comparison_ids : List String
  pub seed : Option ℤ
  pub verifier_only : Bool
  pub holdout_plan : Option FilePath

-- `_MIN_HOLDOUT_CASES_PER_SKILL`
abbrev pub min_holdout_cases_per_skill : ℕ
min_holdout_cases_per_skill = 8

abbrev pub known_splits : List String
known_splits = "train" ∷ "validation" ∷ "public" ∷ "holdout" ∷ []

-- `_validate_holdout_selection_shape`
unfoldable pub validate_holdout_selection_shape :
    SuiteSpec → RunSelection → Bool → Result (Unit {0})
validate_holdout_selection_shape suite selection unsealed =
    if not (selection.split == "holdout")
    then ok tt
    else (raise_if (unsealed && not (is_none selection.holdout_plan))
          "holdout preparation cannot consume an existing plan"
        >> (raise_if (not unsealed && is_none selection.holdout_plan)
              "holdout execution requires an explicit holdout plan"
            >> (raise_if (not (is_empty selection.case_ids))
                  "holdout execution forbids case filters"
                >> (raise_if (not (is_none selection.seed))
                      "holdout execution forbids seed overrides"
                    >> raise_if (not (selection.comparison_ids == suite.holdout_comparison_ids))
                        "holdout execution requires exactly the explicit comparisons"))))

-- The tests of `_selected` on a split that is not "holdout".
unfoldable pub validate_diagnostic_selection : RunSelection → Result (Unit {0})
validate_diagnostic_selection selection =
    if selection.split == "holdout"
    then ok tt
    else (raise_if (not (is_none selection.holdout_plan))
          "a holdout plan may only be used with split=holdout"
        >> raise_if (not selection.verifier_only && not (length selection.comparison_ids == 1))
            "a judged diagnostic run requires exactly one explicit comparison id")

-- Whether a case is in the split and passes the filter.
unfoldable pub case_selected : RunSelection → CaseSpec → Bool
unfolding contains
case_selected selection case =
    (selection.split == "public" && contains case.split ("train" ∷ "validation" ∷ [])
      || case.split == selection.split)
    && (is_empty selection.case_ids || contains case.id selection.case_ids)

unfoldable pub comparison_selected : RunSelection → ComparisonSpec → Bool
unfolding contains
comparison_selected selection comparison =
    is_empty selection.comparison_ids || contains comparison.id selection.comparison_ids

abbrev pub negative_seed : Option ℤ → Bool
negative_seed none = false
negative_seed (some seed) = ltb_ℤ seed (pos 0)

-- Whether a comparison has the repetitions and the order of the release profile.
abbrev pub in_release_profile : ComparisonSpec → Bool
in_release_profile comparison =
    comparison.repetitions == 3 && comparison.comparator_order == "ab_ba"

-- Whether some skill of the cases has fewer of them than the release asks for.
unfoldable pub too_few_cases : List CaseSpec → Bool
unfolding dedup
too_few_cases cases =
    any (λ skill. ltb (count_if (λ c. c.skill == skill) cases) min_holdout_cases_per_skill)
      (dedup (map (λ c. c.skill) cases))

-- The tests of `_selected` on what a holdout run selects.
unfoldable pub validate_release_profile :
    String → List CaseSpec → List ComparisonSpec → Result (Unit {0})
unfolding too_few_cases
validate_release_profile split cases comparisons =
    if not (split == "holdout")
    then ok tt
    else (raise_if (not (all in_release_profile comparisons))
          "holdout comparison semantics differ from the release profile"
        >> raise_if (too_few_cases cases)
            "holdout requires at least 8 cases for each selected skill")

-- `_selected`
unfoldable pub selected :
    SuiteSpec → RunSelection → Bool → Result (List CaseSpec × List ComparisonSpec)
unfolding contains distinct subset
selected suite selection unsealed = do
  raise_if (not (contains selection.split known_splits))
      "split must be train, validation, public, or holdout"
  raise_if (unsealed && not (selection.split == "holdout"))
      "unsealed preparation is only valid for holdout"
  raise_if (not (distinct selection.case_ids)) "case selection must not contain duplicates"
  raise_if (not (distinct selection.comparison_ids))
      "comparison selection must not contain duplicates"
  validate_holdout_selection_shape suite selection unsealed
  validate_diagnostic_selection selection
  raise_if (not (subset selection.case_ids (case_ids suite.cases))) "unknown case ids"
  raise_if (not (subset selection.comparison_ids (comparison_ids suite.comparisons)))
      "unknown comparison ids"
  let cases = select (case_selected selection) suite.cases
  let comparisons = select (comparison_selected selection) suite.comparisons
  raise_if (is_empty cases) "selection matched no cases"
  raise_if (is_empty comparisons) "selection matched no comparisons"
  raise_if (negative_seed selection.seed) "seed override must be non-negative"
  validate_release_profile selection.split cases comparisons
  ok (cases, comparisons)

-- `_effective_selection`
unfoldable pub effective_selection : SuiteSpec → RunSelection → RunSelection
effective_selection suite selection =
    if suite.evaluation_mode == "objective_only" && not selection.verifier_only
    then record selection { verifier_only = true }
    else selection

-- `_execution_mode`
unfoldable pub execution_mode : SuiteSpec → RunSelection → String
execution_mode suite selection =
    if suite.evaluation_mode == "objective_only"
    then "objective_only"
    else if selection.verifier_only
    then "verifier_only"
    else "judged"
