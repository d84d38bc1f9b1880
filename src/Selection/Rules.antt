-- ===== src/Selection/Rules.antt =====
-- What the selection of a run guarantees (skivolve/runner.py, `_selected`).
use skivolve.Base.{
  String, Bool, true, false, ◌&&◌, ◌||◌, not, List, [], ◌∷◌, ◌≡◌, refl, ap, ◌⊎◌, &&-split,
  raise_if-ok, arith, ◌==◌, nat_eq, string_eq, list_eq, beq_sound, is_none, length, all, select,
  select-All, all-All, All, is_empty, contains, distinct, subset, ok, inl, inr, Ensures,
  Ensures-pure, Ensures-guard, Ensures-bind, not-false,
}
use skivolve.Manifest.Types.{CaseSpec, ComparisonSpec, SuiteSpec}
use skivolve.Manifest.Comparisons.{comparison_ids}
use skivolve.Manifest.Cases.{case_ids}
use skivolve.Selection.{
  RunSelection, known_splits, validate_holdout_selection_shape, validate_diagnostic_selection,
  case_selected, comparison_selected, negative_seed, in_release_profile, too_few_cases,
  validate_release_profile, selected,
}

or_cases : (a b : Bool) → (a || b) ≡ true → (a ≡ true) ⊎ (b ≡ true)
or_cases true b h = inl refl
or_cases false b h = inr h

public_apart :
    (p c : String)
    → (p == "public" && contains c ("train" ∷ "validation" ∷ [])) ≡ true
    → (c == "holdout") ≡ (p == "holdout")
unfolding contains
public_apart p c h =
    let both = &&-split (p == "public") (c == "train" || (c == "validation" || false)) h in
    let public = beq_sound p "public" both.0 in
    elim (or_cases (c == "train") (c == "validation" || false) both.1) [
      | inl train ↦ rw (public, beq_sound c "train" train) refl
      | inr rest ↦ elim (or_cases (c == "validation") false rest) [
        | inl validation ↦ rw (public, beq_sound c "validation" validation) refl
        | inr absurd' ↦ cc
      ]
    ]

-- A case is held out just if the split is "holdout".
apart :
    (s : RunSelection) (c : CaseSpec)
    → case_selected s c ≡ true
    → (c.split == "holdout") ≡ (s.split == "holdout")
unfolding case_selected
apart s c h =
    elim (or_cases (s.split == "public" && contains c.split ("train" ∷ "validation" ∷ []))
      (c.split == s.split) (&&-split _ _ h).0) [
        | inl public ↦ public_apart s.split c.split public
        | inr same ↦ ap (λ t. t == "holdout") (beq_sound c.split s.split same)
      ]

All-map :
    {A : Type 0} {P Q : A → Type 0} (xs : List A) → ((a : A) → P a → Q a) → All P xs → All Q xs
All-map [] f h = tt
All-map (x ∷ xs) f h = (f x h.0, All-map xs f h.1)

-- The conditions on a holdout run.
pub record IsHoldoutRun (suite : SuiteSpec) (s : RunSelection) (unsealed : Bool)
    (cases : List CaseSpec) (comparisons : List ComparisonSpec) : Type 0 where
  pub plan : is_none s.holdout_plan ≡ unsealed
  pub no_case_filter : is_empty s.case_ids ≡ true
  pub no_seed : is_none s.seed ≡ true
  pub release_comparisons : s.comparison_ids ≡ suite.holdout_comparison_ids
  pub profile : All (λ c. in_release_profile c ≡ true) comparisons
  pub enough : too_few_cases cases ≡ false

-- What a selection yields: a part of the suite, in the manifest's order.
pub record IsSelected (suite : SuiteSpec) (s : RunSelection) (unsealed : Bool)
    (r : List CaseSpec × List ComparisonSpec) : Type 0 where
  pub cases : r.0 ≡ select (case_selected s) suite.cases
  pub comparisons : r.1 ≡ select (comparison_selected s) suite.comparisons
  pub some_case : is_empty r.0 ≡ false
  pub some_comparison : is_empty r.1 ≡ false
  pub held_apart : All (λ c. (c.split == "holdout") ≡ (s.split == "holdout")) r.0
  pub holdout : (s.split == "holdout") ≡ true → IsHoldoutRun suite s unsealed r.0 r.1
  pub diagnostic :
      (s.split == "holdout") ≡ false
      → (unsealed ≡ false)
        × (is_none s.holdout_plan ≡ true)
        × (s.verifier_only ≡ false → length s.comparison_ids ≡ 1)

-- What the shape of a holdout run says.
abbrev HoldoutShape : SuiteSpec → RunSelection → Bool → Type 0
HoldoutShape suite s unsealed =
    (is_none s.holdout_plan ≡ unsealed)
    × (is_empty s.case_ids ≡ true)
    × (is_none s.seed ≡ true)
    × (s.comparison_ids ≡ suite.holdout_comparison_ids)

holdout_shape :
    (suite : SuiteSpec) (s : RunSelection) (unsealed : Bool)
    → (s.split == "holdout") ≡ true
    → validate_holdout_selection_shape suite s unsealed ≡ ok tt
    → HoldoutShape suite s unsealed
unfolding validate_holdout_selection_shape
holdout_shape suite s unsealed held h =
    let ids = s.comparison_ids == suite.holdout_comparison_ids in
    let (a, rest) =
      raise_if-ok (unsealed && not (is_none s.holdout_plan))
        "holdout preparation cannot consume an existing plan" _ (rw held at h) in
    let (b, rest2) =
      raise_if-ok (not unsealed && is_none s.holdout_plan)
        "holdout execution requires an explicit holdout plan" _ rest in
    let (c, rest3) =
      raise_if-ok (not (is_empty s.case_ids)) "holdout execution forbids case filters" _ rest2 in
    let (d, rest4) =
      raise_if-ok (not (is_none s.seed)) "holdout execution forbids seed overrides" _ rest3 in
    (
      ground (arith, a, b),
      not-false _ c,
      not-false _ d,
      beq_sound s.comparison_ids suite.holdout_comparison_ids (ground (arith, rest4)),
    )

diagnostic_shape :
    (s : RunSelection)
    → (s.split == "holdout") ≡ false
    → validate_diagnostic_selection s ≡ ok tt
    → (is_none s.holdout_plan ≡ true) × (s.verifier_only ≡ false → length s.comparison_ids ≡ 1)
unfolding validate_diagnostic_selection
diagnostic_shape s open_split h =
    let (a, rest) =
      raise_if-ok (not (is_none s.holdout_plan))
        "a holdout plan may only be used with split=holdout" _ (rw open_split at h) in
    (not-false _ a, λ judged. ground (arith, rest, judged))

release_shape :
    (split : String) (cases : List CaseSpec) (comparisons : List ComparisonSpec)
    → (split == "holdout") ≡ true
    → validate_release_profile split cases comparisons ≡ ok tt
    → All (λ c. in_release_profile c ≡ true) comparisons × (too_few_cases cases ≡ false)
unfolding validate_release_profile
release_shape split cases comparisons held h =
    let (a, rest) =
      raise_if-ok (not (all in_release_profile comparisons))
        "holdout comparison semantics differ from the release profile" _ (rw held at h) in
    (all-All in_release_profile comparisons (not-false _ a), ground (arith, rest))

pub selected-Ensures :
    (suite : SuiteSpec) (s : RunSelection) (unsealed : Bool)
    → Ensures (IsSelected suite s unsealed) (selected suite s unsealed)
unfolding selected
selected-Ensures suite s unsealed =
    let cases = select (case_selected s) suite.cases in
    let comparisons = select (comparison_selected s) suite.comparisons in
    Ensures-guard (not (contains s.split known_splits))
      "split must be train, validation, public, or holdout" _
      λ _.
        Ensures-guard (unsealed && not (s.split == "holdout"))
          "unsealed preparation is only valid for holdout" _
          λ sealed.
            Ensures-guard (not (distinct s.case_ids)) "case selection must not contain duplicates" _
              λ _.
                Ensures-guard (not (distinct s.comparison_ids))
                  "comparison selection must not contain duplicates" _
                  λ _.
                    Ensures-bind (validate_holdout_selection_shape suite s unsealed) _ λ _ shaped.
                      Ensures-bind (validate_diagnostic_selection s) _ λ _ diagnosed.
                        Ensures-guard (not (subset s.case_ids (case_ids suite.cases)))
                          "unknown case ids" _
                          λ _.
                            Ensures-guard
                              (not (subset s.comparison_ids (comparison_ids suite.comparisons)))
                              "unknown comparison ids" _
                              λ _.
                                Ensures-guard (is_empty cases) "selection matched no cases" _
                                  λ nonempty.
                                    Ensures-guard (is_empty comparisons)
                                      "selection matched no comparisons" _
                                      λ nonempty'.
                                        Ensures-guard (negative_seed s.seed)
                                          "seed override must be non-negative" _
                                          λ _.
                                            Ensures-bind
                                              (validate_release_profile s.split cases comparisons) _
                                              λ _ released.
                                                Ensures-pure (cases, comparisons)
                                                  (record {
                                                    cases = refl;
                                                    comparisons = refl;
                                                    some_case = nonempty;
                                                    some_comparison = nonempty';
                                                    held_apart =
                                                        All-map cases (apart s) (
                                                          select-All (case_selected s) suite.cases);
                                                    holdout = λ held.
                                                        let shape =
                                                          holdout_shape suite s unsealed held
                                                            shaped in
                                                        let release =
                                                          release_shape s.split cases comparisons
                                                            held released in
                                                        record {
                                                          plan = shape.0;
                                                          no_case_filter = shape.1;
                                                          no_seed = shape.2;
                                                          release_comparisons = shape.3;
                                                          profile = release.0;
                                                          enough = release.1;
                                                        };
                                                    diagnostic = λ open_split.
                                                        let shape =
                                                          diagnostic_shape s open_split diagnosed in
                                                        (
                                                          ground (arith, sealed, open_split),
                                                          shape.0,
                                                          shape.1,
                                                        );
                                                  })

-- What `_selected` returns is a part of the suite, not empty, in the manifest's order. A holdout case
-- is in it just if the split is "holdout". Then the plan is absent just if one is prepared, there is
-- no filter and no seed, the comparisons are the release's with three repetitions in both orders, and
-- no skill has fewer than eight cases. In another split there is no plan, and a judged run names
-- exactly one comparison.
pub selected-IsSelected :
    (suite : SuiteSpec) (s : RunSelection) (unsealed : Bool)
    (r : List CaseSpec × List ComparisonSpec)
    → selected suite s unsealed ≡ ok r
    → IsSelected suite s unsealed r
selected-IsSelected suite s unsealed r e = (selected-Ensures suite s unsealed).at r e
