-- ===== src/Examples/Accepted.antt =====
-- Inputs that the validators of skivolve/manifest.py, skivolve/runner.py and
-- skivolve/provider_capabilities.py accept, and what follows of them.
use skivolve.Base.{
  true, false, none, some, [], ◌∷◌, ◌≡◌, refl, contains, subset, distinct, traverse, ok, nat_eq,
  string_eq, list_eq,
}
use skivolve.Base.Text.{codes, is_lower, is_digit, is_empty_text}
use skivolve.Base.Dict.{lookup}
use skivolve.Json.{str, get, get_or_null, get_or, names, items, entries, has_exactly}
use skivolve.Capabilities.{
  claude_cli, capabilities_for, role_supported, found_or_unknown, Supports,
  capabilities_for-Supports,
}
use skivolve.Manifest.Values.{
  object, text, integer, list, unique_ids, is_identifier, is_skill, full_match, identifier_char,
  skill_char,
}
use skivolve.Manifest.Paths.{
  file, suite_path, right_kind, root_path, repository_path, bundle_source_path,
  noncanonical_spelling, starts_with_dot_slash, ends_with_slash, has_double_slash,
  shared_verifier_directory, suite_path-contained, IsSuitePath,
}
use skivolve.Manifest.Provider.{parse_provider, read_options, provider_model, other_model}
use skivolve.Manifest.ProviderRules.{IsProvider, parse_provider-IsProvider}
use skivolve.Manifest.Variants.{
  parse_variants, parse_variant, without_skill_variant, git_ref_variant, AreVariants,
  parse_variants-AreVariants,
}
use skivolve.Manifest.Comparisons.{
  parse_comparisons, parse_comparison, exact_repetitions, parse_holdout_comparison_ids,
  AreComparisons, IsHoldout, parse_comparisons-AreComparisons,
  parse_holdout_comparison_ids-IsHoldout,
}
use skivolve.Manifest.Contract.{
  default_vocabulary, parse_comparator_contract, parse_requirement, long_text, parse_performance,
  parse_qualitative, comparator_contract_vocabulary,
}
use skivolve.Manifest.ContractRules.{IsContract, parse_comparator_contract-IsContract}
use skivolve.Manifest.Cases.{
  parse_cases, parse_case, read_texts, distinct_texts, read_context_files, case_contract,
  parse_artifact_contract,
}
use skivolve.Manifest.CaseRules.{AreCases, parse_cases-AreCases}
use skivolve.Manifest.Suite.{
  load_suite, read_mode, read_suite, read_comparator, assert_shared_verifier_separation,
}
use skivolve.Manifest.SuiteRules.{IsSuite, load_suite-IsSuite}
use skivolve.Selection.{
  selected, validate_holdout_selection_shape, validate_diagnostic_selection, case_selected,
  comparison_selected, validate_release_profile,
}
use skivolve.Selection.Rules.{IsSelected, selected-IsSelected}
use skivolve.Verifier.{
  validate_verifier_payload, fresh_id, boolean, string, read_assertion, read_assertions,
  assertion_values, metrics_object,
}
use skivolve.Verifier.Payload.{IsPayload, validate_verifier_payload-IsPayload}
use skivolve.Examples.{
  paths0, profiles0, provider0, provider1, variants0, variant_specs, comparisons0, comparison0,
  holdout0, contract0, contract1, cases0, case1, suite0, suite1, output0, output1, spec0,
  selection0,
}

path_read : suite_path paths0 "suite" (str "prompt.md") file ≡ ok "prompt.md"
unfolding text object is_empty_text get get_or_null names subset contains suite_path right_kind
path_read = refl

suite_path-contained_example : IsSuitePath paths0 "suite" (str "prompt.md") file "prompt.md"
suite_path-contained_example =
    suite_path-contained paths0 "suite" (str "prompt.md") file "prompt.md" path_read

provider_read : parse_provider paths0 "suite" "generation" true provider0 ≡ ok provider1
unfolding text object is_empty_text get get_or_null names subset contains parse_provider
    read_options provider_model other_model capabilities_for role_supported found_or_unknown lookup
    get_or integer
provider_read = refl

parse_provider-IsProvider_example : IsProvider "generation" true provider1
parse_provider-IsProvider_example =
    parse_provider-IsProvider paths0 "suite" "generation" true provider0 provider1 provider_read

variants_read : parse_variants paths0 "suite" variants0 ≡ ok variant_specs
unfolding text object is_empty_text get get_or_null names subset contains is_identifier full_match
    identifier_char codes is_lower is_digit list items traverse unique_ids distinct parse_variants
    parse_variant without_skill_variant git_ref_variant
variants_read = refl

parse_variants-AreVariants_example : AreVariants variant_specs
parse_variants-AreVariants_example =
    parse_variants-AreVariants paths0 "suite" variants0 variant_specs variants_read

comparisons_read :
    parse_comparisons comparisons0 ("without" ∷ "released" ∷ []) ≡ ok (comparison0 ∷ [])
unfolding text object is_empty_text get get_or_null names subset contains is_identifier full_match
    identifier_char codes is_lower is_digit list items traverse unique_ids distinct
    parse_comparisons parse_comparison exact_repetitions integer
comparisons_read = refl

parse_comparisons-AreComparisons_example :
    AreComparisons ("without" ∷ "released" ∷ []) (comparison0 ∷ [])
parse_comparisons-AreComparisons_example =
    parse_comparisons-AreComparisons comparisons0 ("without" ∷ "released" ∷ []) (comparison0 ∷ [])
      comparisons_read

holdout_read : parse_holdout_comparison_ids holdout0 (comparison0 ∷ []) ≡ ok ("skill-vs-none" ∷ [])
unfolding text object is_empty_text get get_or_null names subset contains is_identifier full_match
    identifier_char codes is_lower is_digit list items traverse unique_ids distinct
    parse_holdout_comparison_ids
holdout_read = refl

parse_holdout_comparison_ids-IsHoldout_example : IsHoldout (comparison0 ∷ []) ("skill-vs-none" ∷ [])
parse_holdout_comparison_ids-IsHoldout_example =
    parse_holdout_comparison_ids-IsHoldout holdout0 (comparison0 ∷ []) ("skill-vs-none" ∷ [])
      holdout_read

contract_read : parse_comparator_contract contract0 (some default_vocabulary) ≡ ok contract1
unfolding text object is_empty_text get get_or_null names subset contains is_identifier full_match
    identifier_char codes is_lower is_digit list items traverse unique_ids distinct
    parse_comparator_contract parse_requirement long_text parse_performance parse_qualitative
    entries
contract_read = refl

parse_comparator_contract-IsContract_example : IsContract default_vocabulary contract1
parse_comparator_contract-IsContract_example =
    parse_comparator_contract-IsContract contract0 default_vocabulary contract1 contract_read

cases_read : parse_cases paths0 "suite" false none cases0 ≡ ok (case1 ∷ [])
unfolding text object is_empty_text get get_or_null names subset contains is_identifier full_match
    identifier_char codes is_lower is_digit list items traverse unique_ids distinct parse_cases
    parse_case read_texts distinct_texts read_context_files case_contract parse_artifact_contract
    is_skill skill_char bundle_source_path repository_path noncanonical_spelling
    starts_with_dot_slash ends_with_slash has_double_slash integer suite_path right_kind
cases_read = refl

parse_cases-AreCases_example : AreCases paths0 "suite" false (case1 ∷ [])
parse_cases-AreCases_example =
    parse_cases-AreCases paths0 "suite" false none cases0 (case1 ∷ []) cases_read

suite_read : load_suite paths0 profiles0 "suite/suite.json" suite0 ≡ ok suite1
unfolding text object is_empty_text get get_or_null names subset contains is_identifier full_match
    identifier_char codes is_lower is_digit list items traverse unique_ids distinct parse_variants
    parse_variant without_skill_variant git_ref_variant parse_comparisons parse_comparison
    exact_repetitions integer parse_holdout_comparison_ids parse_provider read_options
    provider_model other_model capabilities_for role_supported found_or_unknown lookup get_or
    parse_cases parse_case read_texts distinct_texts read_context_files case_contract
    parse_artifact_contract is_skill skill_char bundle_source_path repository_path
    noncanonical_spelling starts_with_dot_slash ends_with_slash has_double_slash suite_path
    right_kind load_suite read_mode read_suite read_comparator assert_shared_verifier_separation
    root_path comparator_contract_vocabulary shared_verifier_directory
suite_read = refl

load_suite-IsSuite_example : IsSuite paths0 suite1
load_suite-IsSuite_example =
    load_suite-IsSuite paths0 profiles0 "suite/suite.json" suite0 suite1 suite_read

selection_read : selected spec0 selection0 false ≡ ok (case1 ∷ [], comparison0 ∷ [])
unfolding selected validate_holdout_selection_shape validate_diagnostic_selection case_selected
    comparison_selected validate_release_profile
selection_read = refl

selected-IsSelected_example : IsSelected spec0 selection0 false (case1 ∷ [], comparison0 ∷ [])
selected-IsSelected_example =
    selected-IsSelected spec0 selection0 false (case1 ∷ [], comparison0 ∷ []) selection_read

output_read : validate_verifier_payload output0 ("builds" ∷ []) ≡ ok output1
unfolding text object is_empty_text get get_or_null names subset contains validate_verifier_payload
    fresh_id boolean string read_assertion read_assertions assertion_values metrics_object get_or
    items has_exactly
output_read = refl

validate_verifier_payload-IsPayload_example : IsPayload ("builds" ∷ []) output1
validate_verifier_payload-IsPayload_example =
    validate_verifier_payload-IsPayload output0 ("builds" ∷ []) output1 output_read

capabilities_read : capabilities_for "claude-cli" (some "comparison") ≡ ok claude_cli
unfolding capabilities_for role_supported found_or_unknown lookup contains
capabilities_read = refl

capabilities_for-Supports_example : Supports "claude-cli" "comparison" claude_cli
capabilities_for-Supports_example =
    capabilities_for-Supports "claude-cli" "comparison" claude_cli capabilities_read
