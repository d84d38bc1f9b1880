-- ===== src/Artifacts/Parse.antt =====
-- `_parse_bounded_json` of skivolve/artifacts.py and the hooks that it hands to `json.loads`.
use skivolve.Base.{
  ℕ, String, Bool, true, false, not, none, some, List, [], ◌∷◌, ltb, length, Result, ok, err, ◌>>=◌,
  ◌>>◌, raise_if, or_raise,
}
use skivolve.Base.Int.{ℤ}
use skivolve.Json.{Float, finite, Value, int, float, arr, obj, Fields, end, field, has}
use skivolve.Artifacts.Text.{Bytes, Coding}
use skivolve.Artifacts.Shape.{validate_json_shape}

-- `MAX_JSON_NUMBER_TOKEN_BYTES`
abbrev pub max_json_number_token_bytes : ℕ
max_json_number_token_bytes = 128

-- The hooks of `json.loads`.
pub record Hooks : Type 0 where
  pub object_pairs_hook : List (String × Value) → Result Value
  pub parse_constant : String → Result Value
  pub parse_float : String → Result Value
  pub parse_int : String → Result Value

-- Python's `json.loads` on decoded bytes, `int` and `float` on a token.
pub record Loader : Type 0 where
  pub loads : Hooks → Bytes → Result Value
  pub to_int : String → ℤ
  pub to_float : String → Float

-- `math.isfinite`
unfoldable pub is_finite : Float → Bool
is_finite (finite n) = true
is_finite _ = false

-- `result[key] = value` where the key is new
unfoldable pub append_field : Fields → String → Value → Fields
append_field end key value = field key value end
append_field (field k v fs) key value = field k v (append_field fs key value)

-- The loop of `unique_object`, with the dict so far.
unfoldable pub unique_pairs : List (String × Value) → Fields → Result Fields
unfolding has append_field
unique_pairs [] result = ok result
unique_pairs ((key, value) ∷ pairs) result =
    raise_if (has key result) "final JSON contains duplicate key"
    >> unique_pairs pairs (append_field result key value)

-- `unique_object`
unfoldable pub unique_object : List (String × Value) → Result Value
unfolding unique_pairs
unique_object pairs = unique_pairs pairs end >>= λ result. ok (obj result)

-- `reject_constant`
unfoldable pub reject_constant : String → Result Value
reject_constant token = err "final JSON contains non-finite number"

-- `isinstance(value, (dict, list))`
unfoldable pub is_container : Value → Bool
is_container (arr vs) = true
is_container (obj fs) = true
is_container _ = false

module _ (coding : Coding) where
  -- The call of `_validate_json_shape`, whose loop always ends.
  unfoldable pub check_shape : Value → Result (Unit {0})
  unfolding validate_json_shape
  check_shape value = elim (validate_json_shape coding value) [
    | none ↦ err "the loop has not ended"
    | some r ↦ r
  ]

  -- `_check_number_token`
  unfoldable pub check_number_token : String → Result (Unit {0})
  check_number_token token =
      or_raise (coding.encode_ascii token) "ordinal not in range(128)" >>= λ encoded.
      raise_if (ltb max_json_number_token_bytes (length encoded))
        "final JSON number token exceeds 128 bytes"

  module _ (loader : Loader) where
    -- `bounded_int`
    unfoldable pub bounded_int : String → Result Value
    unfolding check_number_token
    bounded_int token = check_number_token token >> ok (int (loader.to_int token))

    -- `bounded_float`
    unfoldable pub bounded_float : String → Result Value
    unfolding check_number_token is_finite
    bounded_float token =
        check_number_token token
        >> (raise_if (not (is_finite (loader.to_float token)))
              "final JSON number is outside the finite range"
            >> ok (float (loader.to_float token)))

    -- The arguments of the call of `json.loads`.
    unfoldable pub hooks : Hooks
    unfolding unique_object reject_constant bounded_int bounded_float
    hooks = record {
      object_pairs_hook = unique_object;
      parse_constant = reject_constant;
      parse_float = bounded_float;
      parse_int = bounded_int;
    }

    -- `_parse_bounded_json`, on bytes that decode.
    unfoldable pub parse_bounded_json : Bytes → Result Value
    unfolding hooks is_container check_shape
    parse_bounded_json raw = loader.loads hooks raw >>= λ value.
        raise_if (not (is_container value)) "final JSON must be an object or array"
        >> (check_shape value >> ok value)
