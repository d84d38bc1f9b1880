-- ===== src/Manifest/Suite.antt =====
-- `load_suite`, `_parse_comparator_profile` and `_assert_shared_verifier_separation` of
-- skivolve/manifest.py. The reading of the file and `json.loads` are not part of it.
use mathlib.Core.List.{map}
use skivolve.Base.{
  String, Bool, true, false, ◌||◌, not, Option, none, some, List, [], ◌∷◌, ◌++◌, ◌==◌, nat_eq,
  string_eq, if◌then◌else◌, any, contains, Result, ok, err, ◌>>=◌, ◌>>◌, raise_if,
}
use skivolve.Json.{Value, obj, Fields, get, get_or_null}
use skivolve.Manifest.Types.{
  FilePath, PathLibrary, ProfileLibrary, ProviderConfig, VariantSpec, CaseSpec,
  ComparatorProfileSpec, SuiteSpec,
}
use skivolve.Manifest.Values.{object, text, any_text, is_identifier, integer}
use skivolve.Manifest.Paths.{suite_profile_directory, shared_verifier_directory, root_path}
use skivolve.Manifest.Provider.{optional, parse_provider}
use skivolve.Manifest.Variants.{variant_ids, parse_variants}
use skivolve.Manifest.Comparisons.{parse_comparisons, parse_holdout_comparison_ids}
use skivolve.Manifest.Contract.{comparator_contract_vocabulary}
use skivolve.Manifest.Cases.{parse_cases}

abbrev pub required_suite_keys : List String
required_suite_keys =
    "schema_version" ∷ "suite_id" ∷ "seed" ∷ "repository_root" ∷ "provider" ∷ "variants"
    ∷ "comparisons" ∷ "cases" ∷ "evaluation_mode" ∷ "shared_verifier_dir" ∷ "holdout" ∷ []

abbrev pub judged_suite_keys : List String
judged_suite_keys = "comparator" ∷ "comparator_profile" ∷ required_suite_keys

-- `variant.root` of the worktree variants
unfoldable pub worktree_roots : List VariantSpec → List FilePath
worktree_roots [] = []
worktree_roots (v ∷ vs) =
    let rest = worktree_roots vs in
    if v.kind == "worktree" then elim v.root [ none ↦ rest | some root ↦ root ∷ rest ] else rest

module _ (paths : PathLibrary) where
  open paths use {join, resolve, is_relative_to, parent}

  -- The paths that a case's sources have under one source root.
  unfoldable pub source_paths : CaseSpec → FilePath → List FilePath
  source_paths case source_root =
      resolve (join source_root case.bundle_source)
      ∷ map (λ context_file. resolve (join source_root context_file)) case.context_files

  unfoldable pub all_source_paths : CaseSpec → List FilePath → List FilePath
  unfolding source_paths
  all_source_paths case [] = []
  all_source_paths case (root ∷ roots) = source_paths case root ++ all_source_paths case roots

  unfoldable pub protected_paths : FilePath → List VariantSpec → CaseSpec → List FilePath
  unfolding all_source_paths
  protected_paths repository_root variants case =
      parent case.prompt_file
      ∷ case.fixture_dir
      ∷ all_source_paths case (repository_root ∷ worktree_roots variants)

  abbrev pub overlaps : FilePath → FilePath → Bool
  overlaps a b = is_relative_to a b || is_relative_to b a

  unfoldable pub overlaps_case : FilePath → FilePath → List VariantSpec → CaseSpec → Bool
  overlaps_case shared repository_root variants case =
      any (overlaps shared) (protected_paths repository_root variants case)

  -- `_assert_shared_verifier_separation`
  unfoldable pub assert_shared_verifier_separation :
      Option FilePath → FilePath → List VariantSpec → List CaseSpec → Result (Unit {0})
  assert_shared_verifier_separation none repository_root variants cases = ok tt
  assert_shared_verifier_separation (some shared) repository_root variants cases =
      raise_if (any (overlaps_case shared repository_root variants) cases)
        "shared_verifier_dir overlaps a case or evaluated source"

  unfoldable pub read_comparator : Bool → FilePath → Fields → Result (Option ProviderConfig)
  unfolding parse_provider
  read_comparator false suite_root root = ok none
  read_comparator true suite_root root = do
    comparator ← parse_provider paths suite_root "comparison" false (get_or_null "comparator" root)
    ok (some comparator)

  module _ (profiles : ProfileLibrary) where
    builtin_profile : Value → Result ComparatorProfileSpec
    builtin_profile raw = do
      exact ← object raw ("kind" ∷ "id" ∷ []) ("kind" ∷ "id" ∷ [])
      id ← text (get_or_null "id" exact) any_text
      resources ← profiles.resolve_builtin_profile id
      ok (record { kind = "builtin"; id = id; root = none; resources = some resources })

    suite_local_profile : Value → FilePath → Result ComparatorProfileSpec
    unfolding contains
    suite_local_profile raw suite_root = do
      exact ← object raw ("kind" ∷ "path" ∷ []) ("kind" ∷ "path" ∷ [])
      root ← suite_profile_directory paths suite_root (get_or_null "path" exact)
      resources ← profiles.resolve_profile_directory root
      raise_if (contains resources.id profiles.builtin_profile_ids)
          "suite-local comparator profile must not shadow a built-in id"
      ok (record {
        kind = "suite_local";
        id = resources.id;
        root = some root;
        resources = some resources;
      })

    -- `_parse_comparator_profile`
    unfoldable pub parse_comparator_profile : Value → FilePath → Result ComparatorProfileSpec
    unfolding builtin_profile suite_local_profile
    parse_comparator_profile raw suite_root = do
      data' ← object raw ("kind" ∷ []) ("kind" ∷ "id" ∷ "path" ∷ [])
      kind ← text (get_or_null "kind" data') any_text
      if kind == "builtin"
          then builtin_profile raw
          else if kind == "suite_local"
          then suite_local_profile raw suite_root
          else err "comparator_profile.kind must be 'builtin' or 'suite_local'"

    -- The root object and the comparator profile, by the evaluation mode.
    unfoldable pub read_mode :
        String → Value → FilePath → Result (Fields × Option ComparatorProfileSpec)
    unfolding parse_comparator_profile
    read_mode mode value suite_root =
        if mode == "judged"
        then (do
          root ← object value judged_suite_keys ("$schema" ∷ judged_suite_keys)
          profile ← parse_comparator_profile (get_or_null "comparator_profile" root) suite_root
          ok (root, some profile))
        else if mode == "objective_only"
        then (do
          root ← object value required_suite_keys ("$schema" ∷ required_suite_keys)
          ok (root, none))
        else err "evaluation_mode must be 'judged' or 'objective_only'"

    -- The part of `load_suite` after the mode is known.
    unfoldable pub read_suite :
        FilePath → FilePath → String → Fields × Option ComparatorProfileSpec → Result SuiteSpec
    unfolding assert_shared_verifier_separation
    read_suite path suite_root mode (root, profile) = do
      let judged = mode == "judged"
      repository_root ← root_path paths suite_root (get_or_null "repository_root" root)
      provider ← parse_provider paths suite_root "generation" true (get_or_null "provider" root)
      comparator ← read_comparator judged suite_root root
      schema ← optional (λ v. text v any_text) (get "$schema" root)
      variants ← parse_variants paths suite_root (get_or_null "variants" root)
      comparisons ← parse_comparisons (get_or_null "comparisons" root) (variant_ids variants)
      holdout ← parse_holdout_comparison_ids (get_or_null "holdout" root) comparisons
      vocabulary ← comparator_contract_vocabulary profiles profile
      cases ← parse_cases paths suite_root judged vocabulary (get_or_null "cases" root)
      shared ← shared_verifier_directory paths suite_root (get_or_null "shared_verifier_dir" root)
      assert_shared_verifier_separation shared repository_root variants cases
      suite_id ← text (get_or_null "suite_id" root) is_identifier
      seed ← integer (get_or_null "seed" root) 0 none
      ok (record {
        path = path;
        root = suite_root;
        repository_root = repository_root;
        suite_id = suite_id;
        seed = seed;
        evaluation_mode = mode;
        provider = provider;
        comparator = comparator;
        comparator_profile = profile;
        variants = variants;
        comparisons = comparisons;
        cases = cases;
        shared_verifier_dir = shared;
        holdout_comparison_ids = holdout;
      })

    -- `load_suite`, on the value that `json.loads` returns for the file's bytes
    unfoldable pub load_suite : FilePath → Value → Result SuiteSpec
    unfolding read_mode read_suite
    load_suite path (obj fs) = do
      schema_version ← integer (get_or_null "schema_version" fs) 0 none
      raise_if (not (schema_version == 1)) "schema_version must be 1"
      mode ← text (get_or_null "evaluation_mode" fs) any_text
      found ← read_mode mode (obj fs) (parent path)
      read_suite path (parent path) mode found
    load_suite path _ = err "suite must be an object"
