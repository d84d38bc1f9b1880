-- ===== src/Calibration.antt =====
-- The decisions of skivolve/comparator_calibration/calibration.py: `derive_eligibility` and
-- `derive_outcome`.
use skivolve.Base.{
  String, Bool, true, false, ◌&&◌, ◌||◌, not, Option, none, some, List, [], ◌∷◌, ◌==◌, string_eq,
  if◌then◌else◌, is_none, contains, subset, Result, ok, err, ◌>>=◌, ◌>>◌, raise_if,
}
use skivolve.Base.Dict.{Dict, keys, values, dict_same}
pub mod Symmetry

-- `REQUIREMENT_STATUSES`, `ELIGIBILITY` and `WINNERS`
abbrev pub requirement_statuses : List String
requirement_statuses = "satisfied" ∷ "violated" ∷ "unknown" ∷ []

abbrev pub eligibility_statuses : List String
eligibility_statuses = "eligible" ∷ "ineligible" ∷ "unknown" ∷ []

abbrev pub winners : List String
winners = "A" ∷ "B" ∷ "tie" ∷ []

-- `derive_eligibility`
unfoldable pub derive_eligibility : Dict String String → Result String
unfolding contains subset
derive_eligibility checks =
    let found = values checks in
    raise_if (not (subset found requirement_statuses))
      "requirement checks contain an unsupported status"
    >> ok (
        if contains "violated" found
        then "ineligible"
        else if contains "unknown" found
        then "unknown"
        else "eligible")

-- A decision that needs no criteria.
unfoldable pub without_criteria : Option (Dict String String) → String → Result String
without_criteria criteria outcome =
    raise_if (not (is_none criteria)) "criteria are not applicable unless both candidates qualify"
    >> ok outcome

-- The Pareto comparison of two eligible candidates.
unfoldable pub pareto : List String → String
unfolding contains
pareto found =
    if contains "A" found && contains "B" found
    then "tradeoff"
    else if contains "A" found
    then "A"
    else if contains "B" found
    then "B"
    else "tie"

unfoldable pub compare_criteria : Option (Dict String String) → List String → Result String
unfolding subset pareto
compare_criteria none criterion_ids = err "both eligible candidates need the exact criterion vector"
compare_criteria (some criteria) criterion_ids =
    raise_if
      (not (subset (keys criteria) criterion_ids && subset criterion_ids (keys criteria))
        || not (subset (values criteria) winners))
      "both eligible candidates need the exact criterion vector"
    >> ok (pareto (values criteria))

abbrev pub sides : String → String → Dict String String
sides a b = ("A", a) ∷ ("B", b) ∷ []

-- `derive_outcome`
unfoldable pub derive_outcome :
    Dict String String → Option (Dict String String) → List String → Result String
unfolding subset without_criteria compare_criteria dict_same
derive_outcome eligibility criteria criterion_ids =
    raise_if
      (not
          (subset (keys eligibility) ("A" ∷ "B" ∷ []) && subset ("A" ∷ "B" ∷ []) (keys eligibility))
        || not (subset (values eligibility) eligibility_statuses))
      "eligibility must contain canonical A and B decisions"
    >> (if dict_same eligibility (sides "eligible" "ineligible")
        then without_criteria criteria "A"
        else if dict_same eligibility (sides "ineligible" "eligible")
        then without_criteria criteria "B"
        else if not (dict_same eligibility (sides "eligible" "eligible"))
        then without_criteria criteria "unqualified"
        else compare_criteria criteria criterion_ids)
