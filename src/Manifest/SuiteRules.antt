-- ===== src/Manifest/SuiteRules.antt =====
-- What `load_suite` of skivolve/manifest.py guarantees of a suite.
use skivolve.Base.{
  String, Bool, true, false, not, Option, none, some, List, [], ◌∷◌, ◌≡◌, refl, ◌∙◌, arith, ◌==◌,
  nat_eq, string_eq, is_none, any, contains, All, ok, ◌>>=◌, Ensures, Ensures-pure, Ensures-err,
  Ensures-guard, Ensures-bind, >>=-eq-ok,
}
use skivolve.Json.{Value, null, bool, int, float, str, arr, obj, Fields, get, get_or_null}
use skivolve.Manifest.Types.{
  FilePath, PathLibrary, ProfileLibrary, ProviderConfig, VariantSpec, CaseSpec,
  ComparatorProfileSpec, SuiteSpec,
}
use skivolve.Manifest.Values.{text, any_text, is_identifier, integer}
use skivolve.Manifest.Paths.{shared_verifier_directory, root_path}
use skivolve.Manifest.Provider.{optional, parse_provider}
use skivolve.Manifest.ProviderRules.{IsProvider, parse_provider-Ensures}
use skivolve.Manifest.Variants.{variant_ids, parse_variants, AreVariants, parse_variants-Ensures}
use skivolve.Manifest.Comparisons.{
  parse_comparisons, parse_holdout_comparison_ids, AreComparisons, parse_comparisons-Ensures,
  IsHoldout, parse_holdout_comparison_ids-Ensures,
}
use skivolve.Manifest.Contract.{comparator_contract_vocabulary}
use skivolve.Manifest.Cases.{parse_cases}
use skivolve.Manifest.CaseRules.{AreCases, parse_cases-Ensures}
use skivolve.Manifest.Suite.{
  overlaps_case, assert_shared_verifier_separation, read_mode, read_comparator, read_suite,
  load_suite, overlaps, protected_paths,
}

any-All :
    {A B : Type 0} (p : A → Bool) (f : A → List B) (q : B → Bool)
    → ((a : A) → p a ≡ any q (f a))
    → (xs : List A) → any p xs ≡ false
    → All (λ a. All (λ b. q b ≡ false) (f a)) xs
any-All p f q same [] h = tt
any-All {B} p f q same (x ∷ xs) h =
    (none_of (f x) (ground (arith, h, same x)), any-All p f q same xs (ground (arith, h)))
  where
    none_of : (bs : List B) → any q bs ≡ false → All (λ b. q b ≡ false) bs
    none_of [] e = tt
    none_of (b ∷ bs) e = (ground (arith, e), none_of bs (ground (arith, e)))

module _ (paths : PathLibrary) where
  -- No case and no source under evaluation overlaps the shared verifier's directory.
  abbrev pub AreSeparate : FilePath → FilePath → List VariantSpec → List CaseSpec → Type 0
  AreSeparate shared repository_root variants cases =
      All
        (λ c.
          All (λ p. overlaps paths shared p ≡ false)
            (protected_paths paths repository_root variants c))
        cases

  -- A suite that `load_suite` accepts.
  pub record IsSuite (s : SuiteSpec) : Type 0 where
    pub mode_known : contains s.evaluation_mode ("judged" ∷ "objective_only" ∷ []) ≡ true
    pub variants : AreVariants s.variants
    pub comparisons : AreComparisons (variant_ids s.variants) s.comparisons
    pub holdout : IsHoldout s.comparisons s.holdout_comparison_ids
    pub cases : AreCases paths s.root (s.evaluation_mode == "judged") s.cases
    pub provider : IsProvider "generation" true s.provider
    pub comparator : (c : ProviderConfig) → s.comparator ≡ some c → IsProvider "comparison" false c
    pub comparator_given : is_none s.comparator ≡ not (s.evaluation_mode == "judged")
    pub separate :
        (shared : FilePath)
        → s.shared_verifier_dir ≡ some shared
        → AreSeparate shared s.repository_root s.variants s.cases

  separate_of :
      (o : Option FilePath) (root : FilePath) (vs : List VariantSpec) (cs : List CaseSpec)
      → assert_shared_verifier_separation paths o root vs cs ≡ ok tt
      → (shared : FilePath) → o ≡ some shared
      → AreSeparate shared root vs cs
  unfolding assert_shared_verifier_separation overlaps_case
  separate_of none root vs cs h shared e = cc
  separate_of (some a) root vs cs h shared e =
      any-All (overlaps_case paths shared root vs) (protected_paths paths root vs)
        (overlaps paths shared) (λ c. refl) cs (ground (arith, h, e))

  comparator_of :
      (judged : Bool) (root : FilePath) (fs : Fields) (o : Option ProviderConfig)
      → read_comparator paths judged root fs ≡ ok o
      → (is_none o ≡ not judged)
        × ((c : ProviderConfig) → o ≡ some c → IsProvider "comparison" false c)
  unfolding read_comparator
  comparator_of false root fs o h = (ground (arith, h), λ c e. cc)
  comparator_of true root fs o h =
      let raw = get_or_null "comparator" fs in
      let (c, read, same) =
        >>=-eq-ok (parse_provider paths root "comparison" false raw) (λ c. ok (some c)) h in
      (
        ground (arith, same),
        λ d e.
            (parse_provider-Ensures paths root "comparison" false raw).at d
              (read ∙ ground (arith, same, e)),
      )

  mode_of :
      (profiles : ProfileLibrary) (mode : String) (v : Value) (root : FilePath)
      → Ensures
          (λ _. contains mode ("judged" ∷ "objective_only" ∷ []) ≡ true)
          (read_mode paths profiles mode v root)
  unfolding read_mode contains
  mode_of profiles mode v root = record { at = λ f e. ground (arith, e) }

  module _ (profiles : ProfileLibrary) where
    read_suite-IsSuite :
        (path root : FilePath) (mode : String) (f : Fields × Option ComparatorProfileSpec)
        → contains mode ("judged" ∷ "objective_only" ∷ []) ≡ true
        → Ensures IsSuite (read_suite paths profiles path root mode f)
    unfolding read_suite
    read_suite-IsSuite path root mode (fs, profile) known =
        Ensures-bind (root_path paths root (get_or_null "repository_root" fs)) _ λ repository _.
          Ensures-bind (parse_provider paths root "generation" true (get_or_null "provider" fs)) _
            λ provider provided.
              Ensures-bind (read_comparator paths (mode == "judged") root fs) _
                λ comparator compared.
                  Ensures-bind (optional (λ v. text v any_text) (get "$schema" fs)) _ λ schema _.
                    Ensures-bind (parse_variants paths root (get_or_null "variants" fs)) _
                      λ vs varied.
                        Ensures-bind
                          (parse_comparisons (get_or_null "comparisons" fs) (variant_ids vs)) _
                          λ cs read.
                            Ensures-bind
                              (parse_holdout_comparison_ids (get_or_null "holdout" fs) cs) _
                              λ hs held.
                                Ensures-bind (comparator_contract_vocabulary profiles profile) _
                                  λ vocabulary _.
                                    Ensures-bind
                                      (parse_cases paths root (mode == "judged") vocabulary
                                        (get_or_null "cases" fs))
                                      _
                                      λ cases cased.
                                        Ensures-bind
                                          (shared_verifier_directory paths root
                                            (get_or_null "shared_verifier_dir" fs))
                                          _
                                          λ shared _.
                                            Ensures-bind
                                              (assert_shared_verifier_separation paths shared
                                                repository vs cases)
                                              _
                                              λ _ separated.
                                                Ensures-bind
                                                  (text (get_or_null "suite_id" fs) is_identifier) _
                                                  λ suite_id _.
                                                    Ensures-bind
                                                      (integer (get_or_null "seed" fs) 0 none) _
                                                      λ seed _. Ensures-pure _ (record {
                                                        mode_known = known;
                                                        variants =
                                                            (parse_variants-Ensures paths root _).at
                                                            vs varied;
                                                        comparisons =
                                                            (parse_comparisons-Ensures _
                                                            (variant_ids vs)).at
                                                            cs read;
                                                        holdout =
                                                            (parse_holdout_comparison_ids-Ensures _
                                                            cs).at
                                                            hs held;
                                                        cases =
                                                            (parse_cases-Ensures paths root
                                                            (mode == "judged") vocabulary _).at
                                                            cases cased;
                                                        provider =
                                                            (parse_provider-Ensures paths root
                                                            "generation" true _).at
                                                            provider provided;
                                                        comparator =
                                                            (comparator_of (mode == "judged") root
                                                            fs comparator compared).1;
                                                        comparator_given =
                                                            (comparator_of (mode == "judged") root
                                                            fs comparator compared).0;
                                                        separate =
                                                            separate_of shared repository vs cases
                                                            separated;
                                                      })

    read_known-IsSuite :
        (path root : FilePath) (mode : String) (v : Value)
        → Ensures IsSuite
            (read_mode paths profiles mode v root >>= read_suite paths profiles path root mode)
    read_known-IsSuite path root mode v =
        Ensures-bind (read_mode paths profiles mode v root) _
          λ f e. read_suite-IsSuite path root mode f ((mode_of profiles mode v root).at f e)

    pub load_suite-Ensures :
        (path : FilePath) (v : Value) → Ensures IsSuite (load_suite paths profiles path v)
    unfolding load_suite
    load_suite-Ensures path (obj fs) =
        Ensures-bind (integer (get_or_null "schema_version" fs) 0 none) _ λ n _.
          Ensures-guard (not (n == 1)) "schema_version must be 1" _ λ _.
            Ensures-bind (text (get_or_null "evaluation_mode" fs) any_text) _
              λ mode _. read_known-IsSuite path (paths.parent path) mode (obj fs)
    load_suite-Ensures path null = Ensures-err "suite must be an object"
    load_suite-Ensures path (bool b) = Ensures-err "suite must be an object"
    load_suite-Ensures path (int n) = Ensures-err "suite must be an object"
    load_suite-Ensures path (float x) = Ensures-err "suite must be an object"
    load_suite-Ensures path (str s) = Ensures-err "suite must be an object"
    load_suite-Ensures path (arr vs) = Ensures-err "suite must be an object"

    -- A suite that `load_suite` returns has a known evaluation mode; sound variants, comparisons of
    -- them, holdout ids and cases; a generation provider; a comparison provider, which is not Codex,
    -- just if it is judged; and, if it names a directory of shared verifiers, no prompt, fixture or
    -- evaluated source that this overlaps.
    pub load_suite-IsSuite :
        (path : FilePath) (v : Value) (s : SuiteSpec)
        → load_suite paths profiles path v ≡ ok s
        → IsSuite s
    load_suite-IsSuite path v s e = (load_suite-Ensures path v).at s e
