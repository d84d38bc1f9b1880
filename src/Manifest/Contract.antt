-- ===== src/Manifest/Contract.antt =====
-- `_parse_comparator_contract`, `_comparator_contract_vocabulary` and their helpers in
-- skivolve/manifest.py.
use mathlib.Core.List.{map}
use skivolve.Base.{
  String, not, Option, none, some, List, [], ◌∷◌, nat_eq, string_eq, length, ltb, contains, subset,
  Result, ok, err, ◌>>=◌, ◌>>◌, raise_if, traverse,
}
use skivolve.Base.Dict.{Dict}
use skivolve.Base.Text.{codes}
use skivolve.Json.{Value, null, obj, get_or_null, names, entries}
use skivolve.Manifest.Types.{
  Requirement, Basis, ComparatorContract, Vocabulary, ProfileLibrary, ComparatorProfileSpec,
}
use skivolve.Manifest.Values.{object, text, any_text, is_identifier, list, unique_ids}

-- `_long_text`
unfoldable pub long_text : Value → Result String
unfolding codes
long_text value = do
  result ← text value any_text
  raise_if (ltb (length (codes result)) 20) "must contain at least 20 characters"
  ok result

abbrev requirement_keys : List String
requirement_keys = "id" ∷ "kind" ∷ "text" ∷ []

-- One turn of the loop over the requirements.
unfoldable pub parse_requirement : List String → Value → Result Requirement
unfolding contains long_text
parse_requirement kinds raw = do
  requirement ← object raw requirement_keys requirement_keys
  kind ← text (get_or_null "kind" requirement) any_text
  raise_if (not (contains kind kinds)) "kind is unsupported"
  id ← text (get_or_null "id" requirement) is_identifier
  detail ← long_text (get_or_null "text" requirement)
  ok (record { id = id; kind = kind; text = detail })

abbrev basis_keys : List String
basis_keys = "kind" ∷ "detail" ∷ []

-- A basis of performance or of quality.
unfoldable pub parse_basis : List String → Value → Result Basis
unfolding contains long_text
parse_basis kinds raw = do
  basis ← object raw basis_keys basis_keys
  kind ← text (get_or_null "kind" basis) any_text
  raise_if (not (contains kind kinds)) "kind is unsupported"
  detail ← long_text (get_or_null "detail" basis)
  ok (record { kind = kind; detail = detail })

unfoldable pub parse_performance : List String → Value → Result (Option Basis)
unfolding parse_basis
parse_performance kinds null = ok none
parse_performance kinds raw = parse_basis kinds raw >>= λ basis. ok (some basis)

unfoldable pub parse_criterion : List String → String × Value → Result (String × Basis)
unfolding parse_basis
parse_criterion kinds entry = parse_basis kinds entry.1 >>= λ basis. ok (entry.0, basis)

unfoldable pub parse_qualitative : Vocabulary → Value → Result (Dict String Basis)
unfolding subset names entries
parse_qualitative vocabulary (obj fs) = do
  raise_if (not (subset (names fs) vocabulary.qualitative_basis_criteria))
      "qualitative_bases is invalid"
  traverse (parse_criterion vocabulary.qualitative_basis_kinds) (entries fs)
parse_qualitative vocabulary _ = err "qualitative_bases is invalid"

abbrev pub contract_keys : List String
contract_keys = "requirements" ∷ "performance_basis" ∷ "qualitative_bases" ∷ []

abbrev pub requirement_ids : List Requirement → List String
requirement_ids rs = map (λ r. r.id) rs

-- `_parse_comparator_contract`
unfoldable pub parse_comparator_contract : Value → Option Vocabulary → Result ComparatorContract
unfolding unique_ids
parse_comparator_contract raw none = err "has no comparator profile vocabulary"
parse_comparator_contract raw (some vocabulary) = do
  contract ← object raw contract_keys contract_keys
  raw_requirements ← list (get_or_null "requirements" contract) 1
  requirements ← traverse (parse_requirement vocabulary.requirement_kinds) raw_requirements
  unique_ids (requirement_ids requirements)
  performance ←
      parse_performance vocabulary.performance_basis_kinds
        (get_or_null "performance_basis" contract)
  qualitative ← parse_qualitative vocabulary (get_or_null "qualitative_bases" contract)
  ok (record {
    requirements = requirements;
    performance_basis = performance;
    qualitative_bases = qualitative;
  })

abbrev pub default_vocabulary : Vocabulary
default_vocabulary = record {
  requirement_kinds = "required_behavior" ∷ "hard_constraint" ∷ [];
  performance_basis_kinds = "workload" ∷ "asymptotic" ∷ "measurement" ∷ [];
  qualitative_basis_criteria = "functional_correctness" ∷ "security_reliability" ∷ [];
  qualitative_basis_kinds =
      "test-fault-sensitivity" ∷ "behavioral-quality" ∷ "defense-in-depth" ∷ "failure-determinism"
      ∷ "concurrency-margin" ∷ [];
}

-- `_comparator_contract_vocabulary`
unfoldable pub comparator_contract_vocabulary :
    ProfileLibrary → Option ComparatorProfileSpec → Result (Option Vocabulary)
comparator_contract_vocabulary profiles none = ok none
comparator_contract_vocabulary profiles (some profile) = elim profile.resources [
  | none ↦ ok (some default_vocabulary)
  | some resources ↦ profiles.contract_vocabulary resources >>= λ v. ok (some v)
]
