-- ===== src/Manifest/Types.antt =====
-- The dataclasses of skivolve/manifest.py, and what it calls of `pathlib`. A path is its text.
use skivolve.Base.{ℕ, String, Bool, Option, List, Result}
use skivolve.Base.Dict.{Dict}
use skivolve.Json.{Float}

abbrev pub FilePath : Type 0
FilePath = String

-- The methods of `Path` and `PurePosixPath` that the loader calls.
pub record PathLibrary : Type 0 where
  pub is_absolute : String → Bool
  -- `root / candidate`
  pub join : FilePath → String → FilePath
  -- `path.resolve()`
  pub resolve : FilePath → FilePath
  pub is_relative_to : FilePath → FilePath → Bool
  pub is_symlink : FilePath → Bool
  pub is_file : FilePath → Bool
  pub is_dir : FilePath → Bool
  pub parent : FilePath → FilePath
  -- `PurePosixPath(raw).as_posix()` and `.parts`
  pub as_posix : String → String
  pub parts : String → List String

pub record ProviderConfig : Type 0 where
  pub adapter_id : String
  pub kind : String
  pub model : String
  pub timeout_seconds : ℕ
  pub executable : Option String
  pub max_budget_usd : Option Float
  pub reasoning_effort : Option String
  pub billing_basis : String
  pub protocol_lock : Option FilePath

pub record VariantSpec : Type 0 where
  pub id : String
  pub kind : String
  pub git_ref : Option String
  pub root : Option FilePath
  pub source_ref : Option String

pub record ComparisonSpec : Type 0 where
  pub id : String
  pub control : String
  pub treatment : String
  pub repetitions : ℕ
  pub comparator_order : String

pub record VerifierSpec : Type 0 where
  pub argv : List String
  pub timeout_seconds : ℕ
  pub required_tools : List String

pub record Requirement : Type 0 where
  pub id : String
  pub kind : String
  pub text : String

pub record Basis : Type 0 where
  pub kind : String
  pub detail : String

pub record ComparatorContract : Type 0 where
  pub requirements : List Requirement
  pub performance_basis : Option Basis
  pub qualitative_bases : Dict String Basis

-- The vocabulary of a comparator profile.
pub record Vocabulary : Type 0 where
  pub requirement_kinds : List String
  pub performance_basis_kinds : List String
  pub qualitative_basis_criteria : List String
  pub qualitative_basis_kinds : List String

pub record CaseSpec : Type 0 where
  pub id : String
  pub skill : String
  pub bundle_source : String
  pub split : String
  pub prompt_file : FilePath
  pub fixture_dir : FilePath
  pub verifier : VerifierSpec
  pub context_files : List String
  pub timeout_seconds : ℕ
  pub critical_expectations : List String
  pub comparator_contract : Option ComparatorContract
  -- `ArtifactContractSpec.kind`
  pub artifact_kind : String

-- The resources of a comparator profile (skivolve/comparator_profiles.py).
pub record ProfileResources : Type 0 where
  pub id : String
  pub semantic_contract : List ℕ

-- The resolution of comparator profiles, and the vocabulary of a semantic contract that is valid.
pub record ProfileLibrary : Type 0 where
  pub resolve_builtin_profile : String → Result ProfileResources
  pub resolve_profile_directory : FilePath → Result ProfileResources
  pub builtin_profile_ids : List String
  pub contract_vocabulary : ProfileResources → Result Vocabulary

pub record ComparatorProfileSpec : Type 0 where
  pub kind : String
  pub id : String
  pub root : Option FilePath
  pub resources : Option ProfileResources

pub record SuiteSpec : Type 0 where
  pub path : FilePath
  pub root : FilePath
  pub repository_root : FilePath
  pub suite_id : String
  pub seed : ℕ
  pub evaluation_mode : String
  pub provider : ProviderConfig
  pub comparator : Option ProviderConfig
  pub comparator_profile : Option ComparatorProfileSpec
  pub variants : List VariantSpec
  pub comparisons : List ComparisonSpec
  pub cases : List CaseSpec
  pub shared_verifier_dir : Option FilePath
  pub holdout_comparison_ids : List String
