-- ===== src/Verifier/Payload.antt =====
-- What `_validate_verifier_payload` of skivolve/runner.py accepts, and how `_serialized_arm_order`
-- alternates.
use package.text.Mathlib.TextEquality.{eq_iff}
use skivolve.Base.{
  ℕ, suc, String, true, false, ◌&&◌, not, List, [], ◌∷◌, ◌≡◌, refl, arith, nat_eq, string_eq, all,
  any, All, contains, distinct, subset, ok, Ensures, ensures_rules, Ensures-pure, Ensures-err,
  Ensures-guard, Ensures-bind, not-false,
}
use skivolve.Base.Int.{ℤ}
use skivolve.Base.Text.{is_empty_text}
use skivolve.Json.{Value, null, bool, int, float, str, arr, obj, end, names, get_or, get_or_null}
use skivolve.Verifier.{
  Assertion, VerifierPayload, fresh_id, boolean, read_assertion, read_assertions, assertion_values,
  metrics_object, assertion_ids, validate_verifier_payload, Arm, serialized_arm_order,
}

-- An id that is read is not empty and has not been seen.
abbrev IsFresh : List String → String → Type 0
IsFresh seen id = (is_empty_text id ≡ false) × (contains id seen ≡ false)

fresh_id-IsFresh : (seen : List String) (v : Value) → Ensures (IsFresh seen) (fresh_id seen v)
unfolding fresh_id
fresh_id-IsFresh seen (str s) =
    Ensures-guard (is_empty_text s) "verifier assertion id must be a non-empty string" _ λ full.
      Ensures-guard (contains s seen) "verifier returned duplicate assertion id" _
        λ new. Ensures-pure s (full, new)
fresh_id-IsFresh seen null = Ensures-err _
fresh_id-IsFresh seen (bool b) = Ensures-err _
fresh_id-IsFresh seen (int n) = Ensures-err _
fresh_id-IsFresh seen (float x) = Ensures-err _
fresh_id-IsFresh seen (arr vs) = Ensures-err _
fresh_id-IsFresh seen (obj fs) = Ensures-err _

IsFresh-of : (seen : List String) (v : Value) (s : String) → fresh_id seen v ≡ ok s → IsFresh seen s
IsFresh-of seen v s e = (fresh_id-IsFresh seen v).at s e

read_assertion-IsFresh :
    (seen : List String) (v : Value) → Ensures (λ a. IsFresh seen a.id) (read_assertion seen v)
unfolding read_assertion
read_assertion-IsFresh seen (obj fs) = search (ensures_rules, IsFresh-of) depth 10
read_assertion-IsFresh seen null = Ensures-err _
read_assertion-IsFresh seen (bool b) = Ensures-err _
read_assertion-IsFresh seen (int n) = Ensures-err _
read_assertion-IsFresh seen (float x) = Ensures-err _
read_assertion-IsFresh seen (str s) = Ensures-err _
read_assertion-IsFresh seen (arr vs) = Ensures-err _

drop_seen :
    (i : String) (seen ids : List String)
    → all (λ j. not (contains j (i ∷ seen))) ids ≡ true
    → (contains i ids ≡ false) × (all (λ j. not (contains j seen)) ids ≡ true)
unfolding contains
drop_seen i seen [] h = (refl, refl)
drop_seen i seen (j ∷ ids) h = ground (arith, h, drop_seen i seen ids, eq_iff i j, eq_iff j i)

-- The ids that the loop reads are distinct, and none has been seen.
read_assertions-distinct :
    (seen : List String) (vs : List Value)
    → Ensures
        (λ rs.
          (distinct (assertion_ids rs) ≡ true)
          × (all (λ i. not (contains i seen)) (assertion_ids rs) ≡ true))
        (read_assertions seen vs)
unfolding read_assertions distinct
read_assertions-distinct seen [] = Ensures-pure [] (refl, refl)
read_assertions-distinct seen (v ∷ vs) = Ensures-bind (read_assertion seen v) _ λ a read.
    Ensures-bind (read_assertions (a.id ∷ seen) vs) _ λ rs rest.
      let fresh = (read_assertion-IsFresh seen v).at a read in
      let later = (read_assertions-distinct (a.id ∷ seen) vs).at rs rest in
      let split = drop_seen a.id seen (assertion_ids rs) later.1 in
      Ensures-pure (a ∷ rs) (ground (arith, split.0, later.0), ground (arith, fresh.1, split.1))

-- An output of a verifier that the runner believes.
pub record IsPayload (critical : List String) (p : VerifierPayload) : Type 0 where
  pub ids_distinct : distinct (assertion_ids p.assertions) ≡ true
  pub critical_covered : subset critical (assertion_ids p.assertions) ≡ true
  pub passed_means_all : p.passed ≡ true → All (λ a. a.passed ≡ true) p.assertions

none_failed :
    (assertions : List Assertion)
    → any (λ a. not a.passed) assertions ≡ false
    → All (λ a. a.passed ≡ true) assertions
none_failed [] h = tt
none_failed (a ∷ rest) h = (ground (arith, h), none_failed rest (ground (arith, h)))

pub validate_verifier_payload-Ensures :
    (output : Value) (critical : List String)
    → Ensures (IsPayload critical) (validate_verifier_payload output critical)
unfolding validate_verifier_payload
validate_verifier_payload-Ensures (obj payload) critical =
    Ensures-guard (not (subset (names payload) ("passed" ∷ "assertions" ∷ "metrics" ∷ [])))
      "verifier output has unknown keys" _
      λ _.
        Ensures-guard (not (subset ("passed" ∷ "assertions" ∷ []) (names payload)))
          "verifier output requires passed and assertions" _
          λ _.
            Ensures-bind (boolean (get_or_null "passed" payload) "verifier passed must be boolean")
              _
              λ passed _.
                Ensures-bind (assertion_values (get_or_null "assertions" payload)) _ λ vs _.
                  Ensures-bind (read_assertions [] vs) _ λ rs read.
                    Ensures-guard (not (subset critical (assertion_ids rs)))
                      "verifier omitted critical assertions" _
                      λ covered.
                        Ensures-guard (passed && any (λ a. not a.passed) rs)
                          "verifier reported passed=true with failed assertions" _
                          λ honest.
                            Ensures-bind (metrics_object (get_or "metrics" (obj end) payload)) _
                              λ metrics _. Ensures-pure _ (record {
                                ids_distinct = ((read_assertions-distinct [] vs).at rs read).0;
                                critical_covered = not-false _ covered;
                                passed_means_all =
                                    λ succeeded. none_failed rs (ground (arith, honest, succeeded));
                              })
validate_verifier_payload-Ensures null critical = Ensures-err _
validate_verifier_payload-Ensures (bool b) critical = Ensures-err _
validate_verifier_payload-Ensures (int n) critical = Ensures-err _
validate_verifier_payload-Ensures (float x) critical = Ensures-err _
validate_verifier_payload-Ensures (str s) critical = Ensures-err _
validate_verifier_payload-Ensures (arr vs) critical = Ensures-err _

abbrev pub swap_arms : Arm × Arm → Arm × Arm
swap_arms (a, b) = (b, a)

-- From one repetition to the next the arms change places, whatever the seed and the ids.
pub serialized_arm_order-alternates :
    (first_byte : ℤ → String → String → ℕ) (seed : ℤ) (comparison case : String) (n : ℕ)
    → serialized_arm_order first_byte seed comparison case (suc n)
      ≡ swap_arms (serialized_arm_order first_byte seed comparison case n)
unfolding serialized_arm_order
serialized_arm_order-alternates first_byte seed comparison case n = ground arith

-- An output that `_validate_verifier_payload` accepts names no assertion twice, covers every critical
-- expectation, and reports success only if every assertion passed.
pub validate_verifier_payload-IsPayload :
    (output : Value) (critical : List String) (p : VerifierPayload)
    → validate_verifier_payload output critical ≡ ok p
    → IsPayload critical p
validate_verifier_payload-IsPayload output critical p e =
    (validate_verifier_payload-Ensures output critical).at p e
