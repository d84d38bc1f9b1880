-- ===== src/Manifest/ContractRules.antt =====
-- What `_parse_comparator_contract` of skivolve/manifest.py guarantees of a contract.
use skivolve.Base.{
  ◌≤◌, String, true, false, not, some, List, ◌≡◌, ap, ◌∙◌, arith, nat_eq, string_eq, length, ltb,
  contains, distinct, subset, ok, traverse, All, Ensures, ensures_rules, Ensures-pure, Ensures-err,
  Ensures-guard, Ensures-bind, traverse-All, not-false, >>=-eq-ok,
}
use skivolve.Base.Dict.{Dict, keys}
use skivolve.Base.Text.{codes}
use skivolve.Json.{
  Value, null, bool, int, float, str, arr, obj, Fields, end, field, get_or_null, names, entries,
}
use skivolve.Manifest.Types.{Requirement, Basis, ComparatorContract, Vocabulary}
use skivolve.Manifest.Values.{object, list, unique_ids, read_list-long, distinct_ids}
use skivolve.Manifest.Contract.{
  long_text, parse_requirement, parse_basis, parse_performance, parse_criterion, parse_qualitative,
  contract_keys, requirement_ids, parse_comparator_contract,
}

-- A requirement of a contract: its kind is in the vocabulary, its text has 20 characters or more.
pub record IsRequirement (v : Vocabulary) (r : Requirement) : Type 0 where
  pub kind : contains r.kind v.requirement_kinds ≡ true
  pub long : ltb (length (codes r.text)) 20 ≡ false

-- A basis of one of the kinds, with a detail of 20 characters or more.
pub record IsBasis (kinds : List String) (b : Basis) : Type 0 where
  pub kind : contains b.kind kinds ≡ true
  pub long : ltb (length (codes b.detail)) 20 ≡ false

long_text-IsLong : (v : Value) → Ensures (λ s. ltb (length (codes s)) 20 ≡ false) (long_text v)
unfolding long_text
long_text-IsLong v = search (ensures_rules) depth 8

is_long : (v : Value) (s : String) → long_text v ≡ ok s → ltb (length (codes s)) 20 ≡ false
is_long v s e = (long_text-IsLong v).at s e

given-IsRequirement :
    (v : Vocabulary) (id kind t : String)
    → not (contains kind v.requirement_kinds) ≡ false
    → ltb (length (codes t)) 20 ≡ false
    → IsRequirement v (record { id = id; kind = kind; text = t })
given-IsRequirement v id kind t known long = record { kind = ground (arith, known); long = long }

parse_requirement-IsRequirement :
    (v : Vocabulary) (raw : Value)
    → Ensures (IsRequirement v) (parse_requirement v.requirement_kinds raw)
unfolding parse_requirement
parse_requirement-IsRequirement v raw =
    search (ensures_rules, given-IsRequirement, is_long) depth 12

given-IsBasis :
    (kinds : List String) (kind t : String)
    → not (contains kind kinds) ≡ false
    → ltb (length (codes t)) 20 ≡ false
    → IsBasis kinds (record { kind = kind; detail = t })
given-IsBasis kinds kind t known long = record { kind = ground (arith, known); long = long }

parse_basis-IsBasis :
    (kinds : List String) (raw : Value) → Ensures (IsBasis kinds) (parse_basis kinds raw)
unfolding parse_basis
parse_basis-IsBasis kinds raw = search (ensures_rules, given-IsBasis, is_long) depth 12

basis_of :
    (kinds : List String) (v : Value) (b : Basis) → parse_basis kinds v ≡ ok b → IsBasis kinds b
basis_of kinds v b e = (parse_basis-IsBasis kinds v).at b e

parse_criterion-IsBasis :
    (kinds : List String) (entry : String × Value)
    → Ensures (λ c. IsBasis kinds c.1) (parse_criterion kinds entry)
unfolding parse_criterion
parse_criterion-IsBasis kinds entry = search (ensures_rules, basis_of) depth 8

performance_of :
    (kinds : List String) (v : Value) (b : Basis)
    → parse_performance kinds v ≡ ok (some b)
    → IsBasis kinds b
unfolding parse_performance
performance_of kinds null b h = cc
performance_of kinds (bool x) b h =
    let (c, read, same) = >>=-eq-ok (parse_basis kinds (bool x)) _ h in
    basis_of kinds (bool x) b (ground (arith, read, same))
performance_of kinds (int x) b h =
    let (c, read, same) = >>=-eq-ok (parse_basis kinds (int x)) _ h in
    basis_of kinds (int x) b (ground (arith, read, same))
performance_of kinds (float x) b h =
    let (c, read, same) = >>=-eq-ok (parse_basis kinds (float x)) _ h in
    basis_of kinds (float x) b (ground (arith, read, same))
performance_of kinds (str x) b h =
    let (c, read, same) = >>=-eq-ok (parse_basis kinds (str x)) _ h in
    basis_of kinds (str x) b (ground (arith, read, same))
performance_of kinds (arr x) b h =
    let (c, read, same) = >>=-eq-ok (parse_basis kinds (arr x)) _ h in
    basis_of kinds (arr x) b (ground (arith, read, same))
performance_of kinds (obj x) b h =
    let (c, read, same) = >>=-eq-ok (parse_basis kinds (obj x)) _ h in
    basis_of kinds (obj x) b (ground (arith, read, same))

-- The criteria that are read are the object's keys, in order.
criteria-names :
    (kinds : List String) (fs : Fields) (d : Dict String Basis)
    → traverse (parse_criterion kinds) (entries fs) ≡ ok d
    → keys d ≡ names fs
unfolding traverse entries names parse_criterion
criteria-names kinds end d h = ground (arith, h)
criteria-names kinds (field k v fs) d h =
    let (c, read, rest) = >>=-eq-ok (parse_criterion kinds (k, v)) _ h in
    let (b, basis, same) = >>=-eq-ok (parse_basis kinds v) _ read in
    let (e, later, joined) = >>=-eq-ok (traverse (parse_criterion kinds) (entries fs)) _ rest in
    ground (arith, same, joined, criteria-names kinds fs e later)

-- The qualitative bases: criteria and kinds of the vocabulary.
abbrev AreCriteria : Vocabulary → Dict String Basis → Type 0
AreCriteria v d =
    (subset (keys d) v.qualitative_basis_criteria ≡ true)
    × All (λ c. IsBasis v.qualitative_basis_kinds c.1) d

parse_qualitative-AreCriteria :
    (v : Vocabulary) (raw : Value) → Ensures (AreCriteria v) (parse_qualitative v raw)
unfolding parse_qualitative
parse_qualitative-AreCriteria v (obj fs) =
    Ensures-guard (not (subset (names fs) v.qualitative_basis_criteria))
      "qualitative_bases is invalid" _
      λ known. record {
        at = λ d read. (
          rw (criteria-names v.qualitative_basis_kinds fs d read) (not-false _ known),
          (traverse-All (parse_criterion v.qualitative_basis_kinds)
                (parse_criterion-IsBasis v.qualitative_basis_kinds) (entries fs)).at
              d read,
        );
      }
parse_qualitative-AreCriteria v null = Ensures-err "qualitative_bases is invalid"
parse_qualitative-AreCriteria v (bool b) = Ensures-err "qualitative_bases is invalid"
parse_qualitative-AreCriteria v (int n) = Ensures-err "qualitative_bases is invalid"
parse_qualitative-AreCriteria v (float x) = Ensures-err "qualitative_bases is invalid"
parse_qualitative-AreCriteria v (str s) = Ensures-err "qualitative_bases is invalid"
parse_qualitative-AreCriteria v (arr vs) = Ensures-err "qualitative_bases is invalid"

-- A contract in the words of a vocabulary.
pub record IsContract (v : Vocabulary) (c : ComparatorContract) : Type 0 where
  pub nonempty : 1 ≤ length c.requirements
  pub ids_distinct : distinct (requirement_ids c.requirements) ≡ true
  pub each : All (IsRequirement v) c.requirements
  pub performance : (b : Basis) → c.performance_basis ≡ some b → IsBasis v.performance_basis_kinds b
  pub criteria : AreCriteria v c.qualitative_bases

pub parse_comparator_contract-Ensures :
    (raw : Value) (v : Vocabulary) → Ensures (IsContract v) (parse_comparator_contract raw (some v))
unfolding parse_comparator_contract
parse_comparator_contract-Ensures raw v =
    Ensures-bind (object raw contract_keys contract_keys) _ λ contract _.
      Ensures-bind (list (get_or_null "requirements" contract) 1) _ λ vs listed.
        Ensures-bind (traverse (parse_requirement v.requirement_kinds) vs) _ λ rs read.
          Ensures-bind (unique_ids (requirement_ids rs)) _ λ _ unique.
            Ensures-bind
              (parse_performance v.performance_basis_kinds
                (get_or_null "performance_basis" contract))
              _
              λ performance performed.
                Ensures-bind (parse_qualitative v (get_or_null "qualitative_bases" contract)) _
                  λ qualitative qualified. Ensures-pure _ (record {
                    nonempty =
                        read_list-long (get_or_null "requirements" contract) 1
                          (parse_requirement v.requirement_kinds) vs rs listed read;
                    ids_distinct = distinct_ids (requirement_ids rs) unique;
                    each =
                        (traverse-All (parse_requirement v.requirement_kinds)
                            (parse_requirement-IsRequirement v) vs).at
                          rs read;
                    performance = λ b given.
                        performance_of v.performance_basis_kinds
                          (get_or_null "performance_basis" contract) b (performed ∙ ap ok given);
                    criteria =
                        (parse_qualitative-AreCriteria v
                            (get_or_null "qualitative_bases" contract)).at
                          qualitative qualified;
                  })

-- A contract that `_parse_comparator_contract` returns for a vocabulary has at least one requirement,
-- distinct requirement ids, only kinds and criteria of the vocabulary, and texts of 20 characters or
-- more.
pub parse_comparator_contract-IsContract :
    (raw : Value) (v : Vocabulary) (c : ComparatorContract)
    → parse_comparator_contract raw (some v) ≡ ok c
    → IsContract v c
parse_comparator_contract-IsContract raw v c e = (parse_comparator_contract-Ensures raw v).at c e
