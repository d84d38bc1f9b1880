-- ===== src/Artifacts/ShapeForm.antt =====
-- What the shape check of skivolve/artifacts.py accepts, by recursion on the value, and the measures
-- of its loop.
use skivolve.Base.{
  ℕ, suc, ◌+◌, String, Bool, true, false, ◌&&◌, none, some, [], ◌∷◌, leb, length, Result, ok, err,
}
use skivolve.Json.{Value, str, arr, obj, Items, nil, cons, Fields, end, field}
use skivolve.Artifacts.Text.{Coding}
use skivolve.Artifacts.Shape.{
  max_json_depth, max_json_members, max_json_string_bytes, Stack, size_value,
}

-- How many members a value has in all, at every depth.
abbrev mutual
  pub members_of : Value → ℕ
  members_of (arr vs) = members_of_items vs
  members_of (obj fs) = members_of_fields fs
  members_of _ = 0

  pub members_of_items : Items → ℕ
  members_of_items nil = 0
  members_of_items (cons v vs) = suc (members_of v + members_of_items vs)

  pub members_of_fields : Fields → ℕ
  members_of_fields end = 0
  members_of_fields (field k v fs) = suc (members_of v + members_of_fields fs)

-- Whether the check lets a value through.
abbrev pub is_ok {ℓ} : {A : Type ℓ} → Result A → Bool
is_ok (ok _) = true
is_ok (err _) = false

abbrev pub stack_size : Stack → ℕ
stack_size [] = 0
stack_size ((v, d) ∷ stack) = size_value v + stack_size stack

abbrev pub stack_members : Stack → ℕ
stack_members [] = 0
stack_members ((v, d) ∷ stack) = members_of v + stack_members stack

module _ (coding : Coding) where
  -- A text that can be encoded, in few enough bytes.
  abbrev pub string_fits : String → Bool
  string_fits s = elim (coding.encode s) [
    | none ↦ false
    | some encoded ↦ leb (length encoded) max_json_string_bytes
  ]

  abbrev pub keys_fit : Fields → Bool
  keys_fit end = true
  keys_fit (field k v fs) = string_fits k && keys_fit fs

  -- Nothing below a value is too deep, and every text and key in it fits.
  abbrev mutual
    pub value_fits : ℕ → Value → Bool
    value_fits depth (arr vs) = leb depth max_json_depth && items_fit (suc depth) vs
    value_fits depth (obj fs) =
        leb depth max_json_depth && (keys_fit fs && fields_fit (suc depth) fs)
    value_fits depth (str s) = leb depth max_json_depth && string_fits s
    value_fits depth _ = leb depth max_json_depth

    pub items_fit : ℕ → Items → Bool
    items_fit depth nil = true
    items_fit depth (cons v vs) = value_fits depth v && items_fit depth vs

    pub fields_fit : ℕ → Fields → Bool
    fields_fit depth end = true
    fields_fit depth (field k v fs) = value_fits depth v && fields_fit depth fs

  -- The description of what the check accepts.
  abbrev pub shape_fits : Value → Bool
  shape_fits root = value_fits 1 root && leb (members_of root) max_json_members

  abbrev pub stack_fits : Stack → Bool
  stack_fits [] = true
  stack_fits ((v, d) ∷ stack) = value_fits d v && stack_fits stack
