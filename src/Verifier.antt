-- ===== src/Verifier.antt =====
-- `_validate_verifier_payload` and `_serialized_arm_order` of skivolve/runner.py.
use mathlib.Core.List.{map}
use skivolve.Base.{
  ℕ, suc, ◌%◌, String, Bool, true, false, ◌&&◌, ◌||◌, not, Option, none, some, List, [], ◌∷◌, ◌≡◌,
  refl, arith, ◌==◌, nat_eq, string_eq, if◌then◌else◌, all, any, contains, distinct, subset, Result,
  ok, err, ◌>>=◌, ◌>>◌, raise_if,
}
use skivolve.Base.Int.{ℤ}
use skivolve.Base.Text.{is_empty_text}
use skivolve.Json.{
  Value, null, bool, int, float, str, arr, obj, Fields, end, items, names, get_or, get_or_null,
  has_exactly,
}
pub mod Payload

pub record Assertion : Type 0 where
  pub id : String
  pub passed : Bool
  pub evidence : String

pub record VerifierPayload : Type 0 where
  pub passed : Bool
  pub assertions : List Assertion
  pub metrics : Fields

abbrev assertion_keys : List String
assertion_keys = "id" ∷ "passed" ∷ "evidence" ∷ []

-- An id that is a text, is not empty and has not been seen.
unfoldable pub fresh_id : List String → Value → Result String
unfolding contains
fresh_id seen (str s) = do
  raise_if (is_empty_text s) "verifier assertion id must be a non-empty string"
  raise_if (contains s seen) "verifier returned duplicate assertion id"
  ok s
fresh_id seen _ = err "verifier assertion id must be a non-empty string"

unfoldable pub boolean : Value → String → Result Bool
boolean (bool b) message = ok b
boolean _ message = err message

unfoldable pub string : Value → String → Result String
string (str s) message = ok s
string _ message = err message

-- One turn of the loop.
unfoldable pub read_assertion : List String → Value → Result Assertion
read_assertion seen (obj fs) = do
  raise_if (not (has_exactly assertion_keys fs))
      "verifier assertion requires only id, passed, and evidence"
  id ← fresh_id seen (get_or_null "id" fs)
  passed ← boolean (get_or_null "passed" fs) "verifier assertion passed must be boolean"
  evidence ← string (get_or_null "evidence" fs) "verifier assertion evidence must be a string"
  ok (record { id = id; passed = passed; evidence = evidence })
read_assertion seen _ = err "verifier assertion requires only id, passed, and evidence"

-- The loop, which carries the ids that it has seen.
unfoldable pub read_assertions : List String → List Value → Result (List Assertion)
read_assertions seen [] = ok []
read_assertions seen (v ∷ vs) = do
  assertion ← read_assertion seen v
  rest ← read_assertions (assertion.id ∷ seen) vs
  ok (assertion ∷ rest)

unfoldable pub assertion_values : Value → Result (List Value)
unfolding items
assertion_values (arr vs) = ok (items vs)
assertion_values _ = err "verifier assertions must be an array"

unfoldable pub metrics_object : Value → Result Fields
metrics_object (obj fs) = ok fs
metrics_object _ = err "verifier metrics must be an object"

abbrev pub assertion_ids : List Assertion → List String
assertion_ids assertions = map (λ a. a.id) assertions

-- `_validate_verifier_payload`, on the value that the strict reader returns for the output
unfoldable pub validate_verifier_payload : Value → List String → Result VerifierPayload
unfolding subset names
validate_verifier_payload (obj payload) critical_expectations = do
  raise_if (not (subset (names payload) ("passed" ∷ "assertions" ∷ "metrics" ∷ [])))
      "verifier output has unknown keys"
  raise_if (not (subset ("passed" ∷ "assertions" ∷ []) (names payload)))
      "verifier output requires passed and assertions"
  passed ← boolean (get_or_null "passed" payload) "verifier passed must be boolean"
  values ← assertion_values (get_or_null "assertions" payload)
  assertions ← read_assertions [] values
  raise_if (not (subset critical_expectations (assertion_ids assertions)))
      "verifier omitted critical assertions"
  raise_if (passed && any (λ a. not a.passed) assertions)
      "verifier reported passed=true with failed assertions"
  metrics ← metrics_object (get_or "metrics" (obj end) payload)
  ok (record { passed = passed; assertions = assertions; metrics = metrics })
validate_verifier_payload _ critical_expectations = err "verifier output must be a JSON object"

-- The arms of a pair of runs in the order in which a serialized provider runs them.
pub data Arm : Type 0 where
  control treatment : Arm

-- `_serialized_arm_order`; the first byte of the digest of the seed and the ids is an argument
unfoldable pub serialized_arm_order :
    (ℤ → String → String → ℕ) → ℤ → String → String → ℕ → Arm × Arm
serialized_arm_order first_byte seed comparison_id case_id repetition =
    let even = first_byte seed comparison_id case_id % 2 == 0 in
    let control_first = if repetition % 2 == 1 then not even else even in
    if control_first then (control, treatment) else (treatment, control)
