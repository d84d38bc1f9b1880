-- ===== src/Artifacts/ParseSpec.antt =====
-- What `_parse_bounded_json` of skivolve/artifacts.py lets through.
use skivolve.Base.{
  String, Bool, true, false, ◌||◌, not, Option, none, some, List, [], ◌∷◌, ◌≡◌, refl, sym, ap, ◌∙◌,
  arith, All, Result, ok, err, ◌>>◌, raise_if, Ensures, Ensures-bind, Ensures-guard, Ensures-pure,
  not-false, contains, distinct, string_eq, ◌==◌,
}
use text.Mathlib.TextEquality.{eq_iff}
use skivolve.Json.{
  Value, null, bool, int, float, str, arr, obj, Items, nil, cons, Fields, end, field, has, get,
  names, items,
}
use skivolve.Artifacts.Text.{Bytes, Coding}
use skivolve.Artifacts.ShapeForm.{is_ok, shape_fits}
use skivolve.Artifacts.ShapeSpec.{validate_json_shape-exact}
use skivolve.Artifacts.Parse.{
  Hooks, Loader, is_finite, append_field, unique_pairs, unique_object, reject_constant,
  check_number_token, bounded_int, bounded_float, hooks, is_container, check_shape,
  parse_bounded_json,
}

-- Every float is finite and no dict has a key twice.
abbrev mutual
  pub IsSound : Value → Type 0
  IsSound (float x) = is_finite x ≡ true
  IsSound (arr vs) = ItemsSound vs
  IsSound (obj fs) = (distinct (names fs) ≡ true) × FieldsSound fs
  IsSound _ = Unit

  pub ItemsSound : Items → Type 0
  ItemsSound nil = Unit
  ItemsSound (cons v vs) = IsSound v × ItemsSound vs

  pub FieldsSound : Fields → Type 0
  FieldsSound end = Unit
  FieldsSound (field k v fs) = IsSound v × FieldsSound fs

-- What the documentation of `json.loads` says of its hooks: a document's objects, constants, floats
-- and ints are what the hooks return for them. So a property that holds of None, the bools and the
-- texts, of a list of values that have it, and of whatever the hooks return (the object hook for
-- pairs whose values have it), holds of the result.
pub record BuildsByHooks (loader : Loader) : Type 1 where
  pub result :
      (by : Hooks) (P : Value → Type 0)
      → P null
      → ((b : Bool) → P (bool b))
      → ((s : String) → P (str s))
      → ((vs : Items) → All P (items vs) → P (arr vs))
      → ((token : String) (v : Value) → by.parse_int token ≡ ok v → P v)
      → ((token : String) (v : Value) → by.parse_float token ≡ ok v → P v)
      → ((token : String) (v : Value) → by.parse_constant token ≡ ok v → P v)
      → ((pairs : List (String × Value)) (v : Value)
          → All (λ pair. P pair.1) pairs
          → by.object_pairs_hook pairs ≡ ok v
          → P v)
      → (raw : Bytes) (v : Value) → loader.loads by raw ≡ ok v
      → P v

ItemsSound-All : (vs : Items) → All IsSound (items vs) → ItemsSound vs
unfolding items
ItemsSound-All nil h = tt
ItemsSound-All (cons v vs) h = (h.0, ItemsSound-All vs h.1)

has-names : (key : String) (fs : Fields) → has key fs ≡ contains key (names fs)
unfolding has get contains names
has-names key end = refl
has-names key (field k v fs) = ground (arith, has-names key fs)

contains-append_field :
    (j key : String) (value : Value) (fs : Fields)
    → contains j (names (append_field fs key value)) ≡ (j == key || contains j (names fs))
unfolding contains names append_field
contains-append_field j key value end = refl
contains-append_field j key value (field k v fs) =
    ground (arith, contains-append_field j key value fs)

-- A new key at the end keeps the keys distinct.
distinct-append_field :
    (key : String) (value : Value) (fs : Fields)
    → contains key (names fs) ≡ false
    → distinct (names fs) ≡ true
    → distinct (names (append_field fs key value)) ≡ true
unfolding contains distinct names append_field
distinct-append_field key value end h d = refl
distinct-append_field key value (field k v fs) h d = ground (
  arith,
  eq_iff k key,
  eq_iff key k,
  contains-append_field k key value fs,
  distinct-append_field key value fs,
)

FieldsSound-append_field :
    (key : String) (value : Value) (fs : Fields)
    → FieldsSound fs
    → IsSound value
    → FieldsSound (append_field fs key value)
unfolding append_field
FieldsSound-append_field key value end h v = (v, tt)
FieldsSound-append_field key value (field k w fs) h v =
    (h.0, FieldsSound-append_field key value fs h.1 v)

unique_pairs-IsSound :
    (pairs : List (String × Value)) (result : Fields)
    → All (λ pair. IsSound pair.1) pairs
    → (distinct (names result) ≡ true) × FieldsSound result
    → Ensures (λ fs. (distinct (names fs) ≡ true) × FieldsSound fs) (unique_pairs pairs result)
unfolding unique_pairs
unique_pairs-IsSound [] result h sound = Ensures-pure result sound
unique_pairs-IsSound ((key, value) ∷ pairs) result h sound =
    Ensures-guard (has key result) "final JSON contains duplicate key"
      (unique_pairs pairs (append_field result key value))
      λ fresh. unique_pairs-IsSound pairs (append_field result key value) h.1 (
        distinct-append_field key value result (sym (has-names key result) ∙ fresh) sound.0,
        FieldsSound-append_field key value result sound.1 h.0,
      )

unique_object-IsSound :
    (pairs : List (String × Value)) (v : Value)
    → All (λ pair. IsSound pair.1) pairs
    → unique_object pairs ≡ ok v
    → IsSound v
unfolding unique_object distinct names
unique_object-IsSound pairs v h same =
    (Ensures-bind {P = IsSound} (unique_pairs pairs end) (λ result. ok (obj result))
        λ fs built.
          Ensures-pure (obj fs)
            ((unique_pairs-IsSound pairs end h (empty_distinct, tt)).at fs built)).at
      v same
  where
    empty_distinct : distinct (names end) ≡ true
    empty_distinct = refl

is_ok-check_shape :
    (coding : Coding) (v : Value) → is_ok (check_shape coding v) ≡ shape_fits coding v
unfolding check_shape
is_ok-check_shape coding v =
    let (r, run, same) = validate_json_shape-exact coding v in ap (λ o. is_ok (ended o)) run ∙ same
  where
    ended : Option (Result (Unit {0})) → Result (Unit {0})
    ended none = err "the loop has not ended"
    ended (some r) = r

pub record IsAccepted (coding : Coding) (v : Value) : Type 0 where
  pub container : is_container v ≡ true
  pub sound : IsSound v
  pub fits : shape_fits coding v ≡ true

module _ (coding : Coding) (loader : Loader) where
  bounded_int-IsSound :
      (token : String) (v : Value) → bounded_int coding loader token ≡ ok v → IsSound v
  unfolding bounded_int
  bounded_int-IsSound token v same =
      (Ensures-bind {P = IsSound} (check_number_token coding token)
          (λ _. ok (int (loader.to_int token)))
          λ _ _. Ensures-pure (int (loader.to_int token)) tt).at
        v same

  bounded_float-IsSound :
      (token : String) (v : Value) → bounded_float coding loader token ≡ ok v → IsSound v
  unfolding bounded_float
  bounded_float-IsSound token v same =
      (Ensures-bind {P = IsSound} (check_number_token coding token)
          (λ _.
            raise_if (not (is_finite (loader.to_float token)))
              "final JSON number is outside the finite range"
            >> ok (float (loader.to_float token)))
          λ _ _.
            Ensures-guard (not (is_finite (loader.to_float token)))
              "final JSON number is outside the finite range" (ok (float (loader.to_float token)))
              λ finite. Ensures-pure (float (loader.to_float token)) (not-false _ finite)).at
        v same

  loaded-IsSound :
      BuildsByHooks loader
      → (raw : Bytes) (v : Value) → loader.loads (hooks coding loader) raw ≡ ok v
      → IsSound v
  unfolding hooks reject_constant
  loaded-IsSound law =
      law.result (hooks coding loader) IsSound tt (λ _. tt) (λ _. tt) ItemsSound-All
        (bounded_int-IsSound) (bounded_float-IsSound) (λ token v same. cc) unique_object-IsSound

  parsed-Ensures :
      BuildsByHooks loader
      → (raw : Bytes) → Ensures (IsAccepted coding) (parse_bounded_json coding loader raw)
  unfolding parse_bounded_json
  parsed-Ensures law raw = Ensures-bind (loader.loads (hooks coding loader) raw) _ λ v loaded.
      Ensures-guard (not (is_container v)) _ _ λ container.
        Ensures-bind (check_shape coding v) _ λ _ shape. Ensures-pure v (record {
          container = not-false (is_container v) container;
          sound = loaded-IsSound law raw v loaded;
          fits = sym (is_ok-check_shape coding v) ∙ ap is_ok shape;
        })

-- If `json.loads` builds its result from what its hooks return, and the parse of some bytes succeeds
-- with a value, then the value is a list or a dict, every float in it is finite, no dict in it has a
-- key twice, and it is within the limits on depth, members and texts.
pub parse_bounded_json-IsAccepted :
    (coding : Coding) (loader : Loader)
    → BuildsByHooks loader
    → (raw : Bytes) (value : Value) → parse_bounded_json coding loader raw ≡ ok value
    → IsAccepted coding value
parse_bounded_json-IsAccepted coding loader law raw value same =
    (parsed-Ensures coding loader law raw).at value same
