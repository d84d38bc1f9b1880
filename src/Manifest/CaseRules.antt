-- ===== src/Manifest/CaseRules.antt =====
-- What `_parse_cases` of skivolve/manifest.py guarantees of the cases.
use skivolve.Base.{
  ℕ, ◌≤◌, String, Bool, true, false, not, Option, some, List, ◌≡◌, arith, string_eq, is_none,
  length, contains, distinct, ok, traverse, All, Ensures, ensures_rules, Ensures-pure,
  Ensures-guard, Ensures-bind, traverse-All, not-false, >>=-eq-ok,
}
use skivolve.Json.{Value, Fields, get_or_null}
use skivolve.Manifest.Types.{FilePath, PathLibrary, CaseSpec, Vocabulary, ComparatorContract}
use skivolve.Manifest.Values.{
  object, text, any_text, is_identifier, is_skill, is_tool, integer, list, unique_ids,
  integer-bounds, read_list-long, distinct_ids,
}
use skivolve.Manifest.Paths.{
  suite_path, PathKind, file, directory, bundle_source_path, suite_path-Ensures,
}
use skivolve.Manifest.Provider.{max_timeout_seconds}
use skivolve.Manifest.Contract.{parse_comparator_contract}
use skivolve.Manifest.Cases.{
  case_ids, splits, artifact_kinds, case_keys, verifier_keys, read_texts, distinct_texts,
  parse_artifact_contract, case_contract, read_context_files, parse_case, parse_cases,
}

-- A timeout in seconds.
abbrev IsTimeout : ℕ → Type 0
IsTimeout n = (1 ≤ n) × (n ≤ max_timeout_seconds)

IsTimeout-of : (v : Value) (n : ℕ) → integer v 1 (some max_timeout_seconds) ≡ ok n → IsTimeout n
IsTimeout-of v n e = (integer-bounds v 1 max_timeout_seconds).at n e

-- A list with as many elements as asked, each once.
abbrev AreDistinct : ℕ → List String → Type 0
AreDistinct minimum ts = (minimum ≤ length ts) × (distinct ts ≡ true)

long_of :
    (p : String → Bool) (n : ℕ) (v : Value) (ts : List String)
    → read_texts p n v ≡ ok ts
    → n ≤ length ts
unfolding read_texts
long_of p n v ts e =
    let (vs, listed, read) = >>=-eq-ok (list v n) _ e in
    read_list-long v n (λ t. text t p) vs ts listed read

distinct_of :
    (p : String → Bool) (n : ℕ) (v : Value) (ts : List String)
    → distinct_texts p n v ≡ ok ts
    → AreDistinct n ts
unfolding distinct_texts
distinct_of p n v ts e =
    let (us, read, rest) = >>=-eq-ok (read_texts p n v) _ e in
    ground (arith, rest, long_of p n v us read)

parse_artifact_contract-kind :
    (v : Value) → Ensures (λ k. contains k artifact_kinds ≡ true) (parse_artifact_contract v)
unfolding parse_artifact_contract
parse_artifact_contract-kind v = search (ensures_rules, not-false) depth 9

artifact_of :
    (v : Value) (k : String) → parse_artifact_contract v ≡ ok k → contains k artifact_kinds ≡ true
artifact_of v k e = (parse_artifact_contract-kind v).at k e

contract_of :
    (judged : Bool) (v : Option Vocabulary) (d : Fields) (c : Option ComparatorContract)
    → case_contract judged v d ≡ ok c
    → is_none c ≡ not judged
unfolding case_contract
contract_of false v d c e = ground (arith, e)
contract_of true v d c e =
    let (b, _, same) =
      >>=-eq-ok (parse_comparator_contract (get_or_null "comparator_contract" d) v)
        (λ c. ok (some c)) e in
    ground (arith, same)

module _ (paths : PathLibrary) where
  -- A case under a suite's root, judged or not.
  pub record IsCase (suite_root : FilePath) (judged : Bool) (c : CaseSpec) : Type 0 where
    pub split : contains c.split splits ≡ true
    pub timeout : IsTimeout c.timeout_seconds
    pub verifier_timeout : IsTimeout c.verifier.timeout_seconds
    pub argv : 1 ≤ length c.verifier.argv
    pub tools : AreDistinct 0 c.verifier.required_tools
    pub critical : AreDistinct 1 c.critical_expectations
    pub prompt : paths.is_relative_to c.prompt_file suite_root ≡ true
    pub fixture : paths.is_relative_to c.fixture_dir suite_root ≡ true
    pub contract : is_none c.comparator_contract ≡ not judged
    pub artifact : contains c.artifact_kind artifact_kinds ≡ true

  contained_of :
      (root : FilePath) (v : Value) (k : PathKind) (p : FilePath)
      → suite_path paths root v k ≡ ok p
      → paths.is_relative_to p root ≡ true
  contained_of root v k p e = (suite_path-Ensures paths root v k).at p e

  parse_case-IsCase :
      (root : FilePath) (judged : Bool) (vocabulary : Option Vocabulary) (item : Value)
      → Ensures (IsCase root judged) (parse_case paths root judged vocabulary item)
  unfolding parse_case
  parse_case-IsCase root judged vocabulary item =
      Ensures-bind (object item (case_keys judged) (case_keys judged)) _ λ d _.
        Ensures-bind (text (get_or_null "split" d) any_text) _ λ split _.
          Ensures-guard (not (contains split splits))
            "split must be 'train', 'validation', or 'holdout'" _
            λ known.
              Ensures-bind (object (get_or_null "verifier" d) verifier_keys verifier_keys) _ λ w _.
                Ensures-bind (read_texts any_text 1 (get_or_null "argv" w)) _ λ argv args.
                  Ensures-bind (distinct_texts is_tool 0 (get_or_null "required_tools" w)) _
                    λ ts tools.
                      Ensures-bind (read_context_files paths (get_or_null "context_files" d)) _
                        λ fs _.
                          Ensures-bind
                            (distinct_texts is_identifier 1 (get_or_null "critical_expectations" d))
                            _
                            λ cs critical.
                              Ensures-bind (text (get_or_null "skill" d) is_skill) _ λ skill _.
                                Ensures-bind (text (get_or_null "id" d) is_identifier) _ λ id _.
                                  Ensures-bind
                                    (bundle_source_path paths (get_or_null "bundle_source" d)) _
                                    λ bundle _.
                                      Ensures-bind
                                        (suite_path paths root (get_or_null "prompt_file" d) file) _
                                        λ prompt in_root.
                                          Ensures-bind
                                            (suite_path paths root (get_or_null "fixture_dir" d)
                                              directory)
                                            _
                                            λ fixture in_root'.
                                              Ensures-bind
                                                (integer (get_or_null "timeout_seconds" w) 1
                                                  (some max_timeout_seconds))
                                                _
                                                λ m checked.
                                                  Ensures-bind
                                                    (integer (get_or_null "timeout_seconds" d) 1
                                                      (some max_timeout_seconds))
                                                    _
                                                    λ n timed.
                                                      Ensures-bind
                                                        (case_contract judged vocabulary d) _
                                                        λ c contracted.
                                                          Ensures-bind
                                                            (parse_artifact_contract
                                                            (get_or_null "artifact_contract" d))
                                                            _
                                                            λ k kind. Ensures-pure _ (record {
                                                            split = not-false _ known;
                                                            timeout = IsTimeout-of _ n timed;
                                                            verifier_timeout =
                                                            IsTimeout-of _ m checked;
                                                            argv = long_of any_text 1 _ argv args;
                                                            tools =
                                                            distinct_of is_tool 0 _ ts tools;
                                                            critical =
                                                            distinct_of is_identifier 1 _ cs
                                                            critical;
                                                            prompt =
                                                            contained_of root _ file prompt in_root;
                                                            fixture =
                                                            contained_of root _ directory fixture
                                                            in_root';
                                                            contract =
                                                            contract_of judged vocabulary d c
                                                            contracted;
                                                            artifact = artifact_of _ k kind;
                                                            })

  -- What `_parse_cases` returns.
  pub record AreCases (suite_root : FilePath) (judged : Bool) (cs : List CaseSpec) : Type 0 where
    pub nonempty : 1 ≤ length cs
    pub ids_distinct : distinct (case_ids cs) ≡ true
    pub each : All (IsCase suite_root judged) cs

  pub parse_cases-Ensures :
      (root : FilePath) (judged : Bool) (vocabulary : Option Vocabulary) (raw : Value)
      → Ensures (AreCases root judged) (parse_cases paths root judged vocabulary raw)
  unfolding parse_cases
  parse_cases-Ensures root judged vocabulary raw = Ensures-bind (list raw 1) _ λ vs listed.
      Ensures-bind (traverse (parse_case paths root judged vocabulary) vs) _ λ cs read.
        Ensures-bind (unique_ids (case_ids cs)) _ λ _ unique. Ensures-pure cs (record {
          nonempty =
              read_list-long raw 1 (parse_case paths root judged vocabulary) vs cs listed read;
          ids_distinct = distinct_ids (case_ids cs) unique;
          each =
              (traverse-All (parse_case paths root judged vocabulary)
                  (parse_case-IsCase root judged vocabulary) vs).at
                cs read;
        })

  -- The cases that `_parse_cases` returns are at least one and have distinct ids. Each has a known
  -- split and artifact kind, timeouts between 1 and 3600, a command, distinct tools, at least one
  -- critical expectation and no such twice, a prompt and a fixture under the suite's root, and a
  -- comparator contract just if the suite is judged.
  pub parse_cases-AreCases :
      (root : FilePath) (judged : Bool) (vocabulary : Option Vocabulary) (raw : Value)
      (cs : List CaseSpec)
      → parse_cases paths root judged vocabulary raw ≡ ok cs
      → AreCases root judged cs
  parse_cases-AreCases root judged vocabulary raw cs e =
      (parse_cases-Ensures root judged vocabulary raw).at cs e
