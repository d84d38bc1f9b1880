-- ===== src/Examples.antt =====
-- A small suite, a selection and an output of a verifier as data (skivolve/manifest.py,
-- skivolve/runner.py), in a file system where every path is there and no path is a link.
use skivolve.Base.{ℕ, String, true, false, none, some, List, [], ◌∷◌, ok}
use skivolve.Base.Int.{pos}
use skivolve.Base.Dict.{Dict}
use skivolve.Json.{Value, null, bool, int, str, arr, obj, nil, cons, Fields, end, field}
use skivolve.Manifest.Types.{
  PathLibrary, ProfileLibrary, ProviderConfig, VariantSpec, ComparisonSpec, CaseSpec, SuiteSpec,
  ComparatorContract,
}
use skivolve.Manifest.Contract.{default_vocabulary}
use skivolve.Selection.{RunSelection}
use skivolve.Verifier.{VerifierPayload}
mod Accepted
mod Decisions

abbrev pub paths0 : PathLibrary
paths0 = record {
  is_absolute = λ s. false;
  join = λ root p. p;
  resolve = λ p. p;
  is_relative_to = λ a b. true;
  is_symlink = λ p. false;
  is_file = λ p. true;
  is_dir = λ p. true;
  parent = λ p. "suite";
  as_posix = λ s. s;
  parts = λ s. s ∷ [];
}

abbrev pub profiles0 : ProfileLibrary
profiles0 = record {
  resolve_builtin_profile = λ id. ok (record { id = id; semantic_contract = [] });
  resolve_profile_directory = λ p. ok (record { id = p; semantic_contract = [] });
  builtin_profile_ids = "code-change-v1" ∷ [];
  contract_vocabulary = λ r. ok default_vocabulary;
}

abbrev pub number : ℕ → Value
number n = int (pos n)

abbrev pub provider0 : Value
provider0 = obj (
    field "adapter" (str "deterministic-fake")
      (field "model" (str "fixture") (field "timeout_seconds" (number 60) end)))

abbrev pub variant0 : Value
variant0 = obj (field "id" (str "without") (field "kind" (str "without_skill") end))

abbrev pub variant1 : Value
variant1 =
    obj (
      field "id" (str "released") (field "kind" (str "git_ref") (field "git_ref" (str "v1.0") end)))

abbrev pub variants0 : Value
variants0 = arr (cons variant0 (cons variant1 nil))

abbrev pub comparisons0 : Value
comparisons0 = arr (
    cons
      (obj (
        field "id" (str "skill-vs-none") (
          field "control" (str "without") (
            field "treatment" (str "released")
              (field "repetitions" (number 3) (field "comparator_order" (str "ab_ba") end))))))
      nil)

abbrev pub holdout0 : Value
holdout0 = obj (field "comparison_ids" (arr (cons (str "skill-vs-none") nil)) end)

abbrev pub verifier0 : Value
verifier0 = obj (
    field "argv" (arr (cons (str "verify") nil))
      (field "timeout_seconds" (number 30) (field "required_tools" (arr nil) end)))

abbrev pub case0 : Fields
case0 = field "id" (str "case-1") (
    field "skill" (str "engineering") (
      field "bundle_source" (str "skills/engineering") (
        field "split" (str "train") (
          field "prompt_file" (str "prompt.md") (
            field "fixture_dir" (str "fixture") (
              field "verifier" verifier0 (
                field "context_files" (arr nil) (
                  field "timeout_seconds" (number 60) (
                    field "critical_expectations" (arr (cons (str "builds") nil)) (
                      field "artifact_contract" (obj (field "kind" (str "workspace_diff") end))
                        end))))))))))

abbrev pub cases0 : Value
cases0 = arr (cons (obj case0) nil)

abbrev pub suite0 : Value
suite0 = obj (
    field "schema_version" (number 1) (
      field "suite_id" (str "demo") (
        field "seed" (number 7) (
          field "repository_root" (str "..") (
            field "provider" provider0 (
              field "variants" variants0 (
                field "comparisons" comparisons0 (
                  field "cases" cases0 (
                    field "evaluation_mode" (str "objective_only")
                      (field "shared_verifier_dir" null (field "holdout" holdout0 end)))))))))))

abbrev pub contract0 : Value
contract0 = obj (
    field "requirements"
      (arr (
        cons
          (obj (
            field "id" (str "keeps-api") (
              field "kind" (str "hard_constraint")
                (field "text" (str "The public interface must not change.") end))))
          nil))
      (field "performance_basis" null (field "qualitative_bases" (obj end) end)))

abbrev pub output0 : Value
output0 = obj (
    field "passed" (bool true) (
      field "assertions"
        (arr (
          cons
            (obj (
              field "id" (str "builds")
                (field "passed" (bool true) (field "evidence" (str "exit 0") end))))
            nil))
        end))

abbrev pub comparison0 : ComparisonSpec
comparison0 = record {
  id = "skill-vs-none";
  control = "without";
  treatment = "released";
  repetitions = 3;
  comparator_order = "ab_ba";
}

abbrev pub criteria0 : Dict String String
criteria0 = ("performance_efficiency", "A") ∷ ("functional_correctness", "tie") ∷ []

abbrev pub criterion_ids0 : List String
criterion_ids0 = "functional_correctness" ∷ "performance_efficiency" ∷ []

abbrev pub checks0 : Dict String String
checks0 = ("keeps-api", "satisfied") ∷ ("fast", "unknown") ∷ []

abbrev pub provider1 : ProviderConfig
provider1 = record {
  adapter_id = "deterministic-fake";
  kind = "fake";
  model = "fixture";
  timeout_seconds = 60;
  executable = none;
  max_budget_usd = none;
  reasoning_effort = none;
  billing_basis = "metered_api";
  protocol_lock = none;
}

abbrev pub case1 : CaseSpec
case1 = record {
  id = "case-1";
  skill = "engineering";
  bundle_source = "skills/engineering";
  split = "train";
  prompt_file = "prompt.md";
  fixture_dir = "fixture";
  verifier = record { argv = "verify" ∷ []; timeout_seconds = 30; required_tools = [] };
  context_files = [];
  timeout_seconds = 60;
  critical_expectations = "builds" ∷ [];
  comparator_contract = none;
  artifact_kind = "workspace_diff";
}

abbrev pub spec0 : SuiteSpec
spec0 = record {
  path = "suite/suite.json";
  root = "suite";
  repository_root = "..";
  suite_id = "demo";
  seed = 7;
  evaluation_mode = "objective_only";
  provider = provider1;
  comparator = none;
  comparator_profile = none;
  variants = [];
  comparisons = comparison0 ∷ [];
  cases = case1 ∷ record case1 { id = "case-2"; split = "holdout" } ∷ [];
  shared_verifier_dir = none;
  holdout_comparison_ids = "skill-vs-none" ∷ [];
}

abbrev pub selection0 : RunSelection
selection0 = record {
  split = "public";
  case_ids = [];
  comparison_ids = "skill-vs-none" ∷ [];
  seed = none;
  verifier_only = true;
  holdout_plan = none;
}

abbrev pub variant_specs : List VariantSpec
variant_specs =
    record {
      id = "without";
      kind = "without_skill";
      git_ref = none;
      root = none;
      source_ref = none;
    }
    ∷ record {
      id = "released";
      kind = "git_ref";
      git_ref = some "v1.0";
      root = none;
      source_ref = none;
    }
    ∷ []

abbrev pub suite1 : SuiteSpec
suite1 = record spec0 { variants = variant_specs; cases = case1 ∷ [] }

abbrev pub contract1 : ComparatorContract
contract1 = record {
  requirements =
      record {
        id = "keeps-api";
        kind = "hard_constraint";
        text = "The public interface must not change.";
      }
      ∷ [];
  performance_basis = none;
  qualitative_bases = [];
}

abbrev pub output1 : VerifierPayload
output1 = record {
  passed = true;
  assertions = record { id = "builds"; passed = true; evidence = "exit 0" } ∷ [];
  metrics = end;
}
