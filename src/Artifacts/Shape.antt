-- ===== src/Artifacts/Shape.antt =====
-- `_validate_json_shape` and `_check_json_string` of skivolve/artifacts.py.
use skivolve.Base.{
  ℕ, zero, suc, ◌+◌, ◌*◌, String, Option, none, some, List, [], ◌∷◌, ltb, length, Result, ok, err,
  ◌>>=◌, ◌>>◌, raise_if, or_raise,
}
use skivolve.Json.{Value, str, arr, obj, Items, nil, cons, Fields, end, field}
use skivolve.Artifacts.Text.{Coding}

-- `MAX_JSON_DEPTH`, `MAX_JSON_MEMBERS` and `MAX_JSON_STRING_BYTES`
abbrev pub max_json_depth : ℕ
max_json_depth = 64

abbrev pub max_json_members : ℕ
max_json_members = 10000

abbrev pub max_json_string_bytes : ℕ
max_json_string_bytes = 256 * 1024

-- The stack of the loop, its top first.
abbrev pub Stack : Type 0
Stack = List (Value × ℕ)

-- `len(value)` of a list and of a dict
abbrev pub count_items : Items → ℕ
count_items nil = 0
count_items (cons v vs) = suc (count_items vs)

abbrev pub count_fields : Fields → ℕ
count_fields end = 0
count_fields (field k v fs) = suc (count_fields fs)

-- `stack.extend((child, depth) for child in value)`
unfoldable pub push_items : Items → ℕ → Stack → Stack
push_items nil depth stack = stack
push_items (cons v vs) depth stack = push_items vs depth ((v, depth) ∷ stack)

module _ (coding : Coding) where
  -- `_check_json_string`
  unfoldable pub check_json_string : String → Result (Unit {0})
  check_json_string s =
      or_raise (coding.encode s) "final JSON contains an invalid Unicode string" >>= λ encoded.
      raise_if (ltb max_json_string_bytes (length encoded)) "final JSON string exceeds 256 KiB"

  -- The loop over the entries of a dict: a key is checked before its value is pushed.
  unfoldable pub push_fields : Fields → ℕ → Stack → Result Stack
  push_fields end depth stack = ok stack
  push_fields (field k v fs) depth stack =
      check_json_string k >> push_fields fs depth ((v, depth) ∷ stack)

  -- What the turn of one value pushes, and how many members it counts.
  unfoldable pub expand : Value → ℕ → Stack → Result (Stack × ℕ)
  unfolding push_items push_fields check_json_string
  expand (obj fs) depth stack =
      push_fields fs (suc depth) stack >>= λ pushed. ok (pushed, count_fields fs)
  expand (arr vs) depth stack = ok (push_items vs (suc depth) stack, count_items vs)
  expand (str s) depth stack = check_json_string s >>= λ _. ok (stack, 0)
  expand _ depth stack = ok (stack, 0)

  -- One turn of the loop: the stack and the count of members after it.
  unfoldable pub visit : Value × ℕ → Stack → ℕ → Result (Stack × ℕ)
  visit (value, depth) stack members =
      raise_if (ltb max_json_depth depth) "final JSON exceeds maximum depth 64"
      >> (expand value depth stack >>= λ next.
          raise_if (ltb max_json_members (members + next.1))
            "final JSON exceeds 10000 aggregate members"
          >> ok (next.0, members + next.1))

  -- The loop, on fuel: `none` is a loop that has not ended.
  unfoldable pub shape_loop : ℕ → Stack → ℕ → Option (Result (Unit {0}))
  shape_loop fuel [] members = some (ok tt)
  shape_loop zero (top ∷ stack) members = none
  shape_loop (suc fuel) (top ∷ stack) members = elim (visit top stack members) [
    | err e ↦ some (err e)
    | ok (next, count) ↦ shape_loop fuel next count
  ]

-- The nodes of a value, which bound the turns of the loop.
abbrev mutual
  pub size_value : Value → ℕ
  size_value (arr vs) = suc (size_items vs)
  size_value (obj fs) = suc (size_fields fs)
  size_value _ = 1

  pub size_items : Items → ℕ
  size_items nil = 0
  size_items (cons v vs) = size_value v + size_items vs

  pub size_fields : Fields → ℕ
  size_fields end = 0
  size_fields (field k v fs) = size_value v + size_fields fs

-- `_validate_json_shape`
unfoldable pub validate_json_shape : Coding → Value → Option (Result (Unit {0}))
unfolding shape_loop
validate_json_shape coding root = shape_loop coding (size_value root) ((root, 1) ∷ []) 0
