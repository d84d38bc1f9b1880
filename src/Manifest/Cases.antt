-- ===== src/Manifest/Cases.antt =====
-- `_parse_cases` and `_parse_artifact_contract` of skivolve/manifest.py.
use mathlib.Core.List.{map}
use skivolve.Base.{
  ℕ, String, Bool, true, false, not, Option, none, some, List, [], ◌∷◌, string_eq, if◌then◌else◌,
  contains, distinct, Result, ok, ◌>>=◌, ◌>>◌, raise_if, traverse,
}
use skivolve.Json.{Value, Fields, get_or_null}
use skivolve.Manifest.Types.{FilePath, PathLibrary, CaseSpec, Vocabulary, ComparatorContract}
use skivolve.Manifest.Values.{
  object, text, any_text, is_identifier, is_skill, is_tool, integer, list, unique_ids,
}
use skivolve.Manifest.Paths.{suite_path, file, directory, repository_path, bundle_source_path}
use skivolve.Manifest.Provider.{max_timeout_seconds}
use skivolve.Manifest.Contract.{parse_comparator_contract}

abbrev pub case_ids : List CaseSpec → List String
case_ids cases = map (λ c. c.id) cases

abbrev pub splits : List String
splits = "train" ∷ "validation" ∷ "holdout" ∷ []

abbrev pub artifact_kinds : List String
artifact_kinds = "workspace_diff" ∷ "final_output_text" ∷ "final_output_json" ∷ []

abbrev objective_case_keys : List String
objective_case_keys =
    "id" ∷ "skill" ∷ "bundle_source" ∷ "split" ∷ "prompt_file" ∷ "fixture_dir" ∷ "verifier"
    ∷ "context_files" ∷ "timeout_seconds" ∷ "critical_expectations" ∷ "artifact_contract" ∷ []

-- The keys that a case requires, which are all that it allows.
abbrev pub case_keys : Bool → List String
case_keys judged =
    if judged then "comparator_contract" ∷ objective_case_keys else objective_case_keys

abbrev pub verifier_keys : List String
verifier_keys = "argv" ∷ "timeout_seconds" ∷ "required_tools" ∷ []

-- An array of texts of one pattern.
unfoldable pub read_texts : (String → Bool) → ℕ → Value → Result (List String)
read_texts pattern' minimum value = do
  values ← list value minimum
  traverse (λ v. text v pattern') values

-- An array of texts of one pattern, each once.
unfoldable pub distinct_texts : (String → Bool) → ℕ → Value → Result (List String)
unfolding read_texts distinct
distinct_texts pattern' minimum value = do
  texts ← read_texts pattern' minimum value
  raise_if (not (distinct texts)) "contains duplicates"
  ok texts

-- `_parse_artifact_contract`
unfoldable pub parse_artifact_contract : Value → Result String
unfolding contains
parse_artifact_contract raw = do
  value ← object raw ("kind" ∷ []) ("kind" ∷ [])
  kind ← text (get_or_null "kind" value) any_text
  raise_if (not (contains kind artifact_kinds)) "kind is unsupported"
  ok kind

-- The contract of a judged case; an objective one has none.
unfoldable pub case_contract :
    Bool → Option Vocabulary → Fields → Result (Option ComparatorContract)
unfolding parse_comparator_contract
case_contract false vocabulary data' = ok none
case_contract true vocabulary data' =
    parse_comparator_contract (get_or_null "comparator_contract" data') vocabulary >>= λ c.
    ok (some c)

module _ (paths : PathLibrary) where
  unfoldable pub read_context_files : Value → Result (List String)
  unfolding distinct
  read_context_files value = do
    values ← list value 0
    context_files ← traverse (repository_path paths) values
    raise_if (not (distinct context_files)) "contains duplicates"
    ok context_files

  -- One turn of the loop.
  unfoldable pub parse_case : FilePath → Bool → Option Vocabulary → Value → Result CaseSpec
  unfolding contains
  parse_case suite_root judged vocabulary item = do
    data' ← object item (case_keys judged) (case_keys judged)
    split ← text (get_or_null "split" data') any_text
    raise_if (not (contains split splits)) "split must be 'train', 'validation', or 'holdout'"
    verifier ← object (get_or_null "verifier" data') verifier_keys verifier_keys
    argv ← read_texts any_text 1 (get_or_null "argv" verifier)
    required_tools ← distinct_texts is_tool 0 (get_or_null "required_tools" verifier)
    context_files ← read_context_files (get_or_null "context_files" data')
    critical ← distinct_texts is_identifier 1 (get_or_null "critical_expectations" data')
    skill ← text (get_or_null "skill" data') is_skill
    id ← text (get_or_null "id" data') is_identifier
    bundle_source ← bundle_source_path paths (get_or_null "bundle_source" data')
    prompt_file ← suite_path paths suite_root (get_or_null "prompt_file" data') file
    fixture_dir ← suite_path paths suite_root (get_or_null "fixture_dir" data') directory
    verifier_timeout ← integer (get_or_null "timeout_seconds" verifier) 1 (some max_timeout_seconds)
    timeout ← integer (get_or_null "timeout_seconds" data') 1 (some max_timeout_seconds)
    contract ← case_contract judged vocabulary data'
    artifact_kind ← parse_artifact_contract (get_or_null "artifact_contract" data')
    ok (record {
      id = id;
      skill = skill;
      bundle_source = bundle_source;
      split = split;
      prompt_file = prompt_file;
      fixture_dir = fixture_dir;
      verifier = record {
        argv = argv;
        timeout_seconds = verifier_timeout;
        required_tools = required_tools;
      };
      context_files = context_files;
      timeout_seconds = timeout;
      critical_expectations = critical;
      comparator_contract = contract;
      artifact_kind = artifact_kind;
    })

  -- `_parse_cases`
  unfoldable pub parse_cases : FilePath → Bool → Option Vocabulary → Value → Result (List CaseSpec)
  unfolding unique_ids
  parse_cases suite_root judged vocabulary raw = do
    items ← list raw 1
    cases ← traverse (parse_case suite_root judged vocabulary) items
    unique_ids (case_ids cases)
    ok cases
