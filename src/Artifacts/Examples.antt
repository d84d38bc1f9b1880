-- ===== src/Artifacts/Examples.antt =====
-- Concrete outputs for skivolve/artifacts.py, with a small loader and canonical writer.
use skivolve.Base.{
  ◌≡◌, refl, Bool, true, false, Option, none, some, [], ◌∷◌, ◌==◌, nat_eq, string_eq, list_eq,
  if◌then◌else◌, ltb, all, Result, ok, err, ◌>>=◌, arith, Ensures-if, Ensures-bind, Ensures-pure,
  Ensures-err,
}
use skivolve.Base.Int.{pos, int_eq}
use skivolve.Base.Text.{codes}
use skivolve.Json.{finite, Value, int, arr, obj, nil, end, field, has, get, same, items}
use skivolve.Artifacts.Text.{Bytes, Coding, lf, replace_cr, replace_crlf, starts_with, bom}
use skivolve.Artifacts.Shape.{
  check_json_string, push_fields, expand, visit, shape_loop, validate_json_shape,
}
use skivolve.Artifacts.ShapeForm.{is_ok, shape_fits}
use skivolve.Artifacts.ShapeSpec.{validate_json_shape-exact}
use skivolve.Artifacts.Parse.{
  Loader, append_field, unique_pairs, unique_object, check_number_token, bounded_int, hooks,
  is_container, check_shape, parse_bounded_json,
}
use skivolve.Artifacts.ParseSpec.{BuildsByHooks, IsAccepted, parse_bounded_json-IsAccepted}
use skivolve.Artifacts.Normalize.{
  as_bytes, NormalizedArtifact, text_artifact, artifact, encoded_output, strict_utf8_bytes,
  normalize_artifact,
}
use skivolve.Artifacts.Stable.{IsNormal, normalize_artifact-IsNormal}
use skivolve.Artifacts.Settled.{TextLaws, normalize_artifact-settled}

-- Texts of ASCII characters only.
abbrev is_ascii : Bytes → Bool
is_ascii bs = all (λ b. ltb b 128) bs

abbrev ascii : Coding
ascii = record {
  encode = λ s. if is_ascii (codes s) then some (codes s) else none;
  encode_ascii = λ s. if is_ascii (codes s) then some (codes s) else none;
  is_text = is_ascii;
}

-- `{"a":1}` and the empty list
abbrev member_bytes : Bytes
member_bytes = 123 ∷ 34 ∷ 97 ∷ 34 ∷ 58 ∷ 49 ∷ 125 ∷ []

abbrev member : Value
member = obj (field "a" (int (pos 1)) end)

-- A loader of two documents.
abbrev two_documents : Loader
two_documents = record {
  loads = λ by raw.
      if raw == member_bytes
      then (by.parse_int "1" >>= λ v. by.object_pairs_hook (("a", v) ∷ []))
      else if raw == 91 ∷ 93 ∷ []
      then ok (arr nil)
      else err "Expecting value";
  to_int = λ _. pos 1;
  to_float = λ _. finite (pos 0);
}

abbrev two_dumps : Value → Option Bytes
two_dumps v = if same v member then some member_bytes else none

two_documents-BuildsByHooks : BuildsByHooks two_documents
unfolding items
two_documents-BuildsByHooks = record {
  result =
      λ by P none_has bool_has text_has list_has int_has float_has constant_has object_has raw v
          loaded.
        (Ensures-if {P = P} (raw == member_bytes) _ _
            (λ _. Ensures-bind (by.parse_int "1") _ λ one parsed. record {
              at = λ w built. object_has _ w (int_has "1" one parsed, tt) built;
            })
            λ _.
              Ensures-if (raw == 91 ∷ 93 ∷ []) _ _ (λ _. Ensures-pure (arr nil) (list_has nil tt))
                λ _. Ensures-err "Expecting value").at
          v loaded;
}

replace_cr-is_ascii : (bs : Bytes) → is_ascii bs ≡ true → is_ascii (replace_cr bs) ≡ true
unfolding replace_cr
replace_cr-is_ascii [] h = refl
replace_cr-is_ascii (b ∷ bs) h = ground (arith, h, replace_cr-is_ascii bs)

replace_crlf-is_ascii : (bs : Bytes) → is_ascii bs ≡ true → is_ascii (replace_crlf bs) ≡ true
unfolding replace_crlf
replace_crlf-is_ascii [] h = refl
replace_crlf-is_ascii (b ∷ bs) h = ground (arith, h, replace_crlf-is_ascii bs)

kept_if :
    (p : Bytes → Bool) (want t : Bool) (a b : Bytes)
    → (t ≡ true → p a ≡ want)
    → (if t then some a else none) ≡ some b
    → p b ≡ want
kept_if p want true a b h same = cc (h refl, same)
kept_if p want false a b h same = cc same

ascii-TextLaws : TextLaws ascii two_dumps
unfolding lf
ascii-TextLaws = record {
  encode_is_text = λ s bs. kept_if is_ascii true (is_ascii (codes s)) (codes s) bs (λ h. h);
  lf_is_text = λ bs h. replace_cr-is_ascii (replace_crlf bs) (replace_crlf-is_ascii bs h);
  dumps_is_text = λ v bs. kept_if is_ascii true (same v member) member_bytes bs (λ _. refl);
  dumps_no_bom =
      λ v bs. kept_if (starts_with bom) false (same v member) member_bytes bs (λ _. refl);
}

-- `a\r\nb`
abbrev two_lines : Bytes
two_lines = 97 ∷ 13 ∷ 10 ∷ 98 ∷ []

normal_lines :
    normalize_artifact ascii two_documents two_dumps "final_output_text" (as_bytes two_lines)
    ≡ ok (text_artifact "final_output_text" (97 ∷ 10 ∷ 98 ∷ []) 4)
unfolding normalize_artifact strict_utf8_bytes encoded_output artifact lf replace_cr replace_crlf
normal_lines = refl

parsed_member : parse_bounded_json ascii two_documents member_bytes ≡ ok member
unfolding parse_bounded_json hooks bounded_int check_number_token codes unique_object unique_pairs
    append_field has get is_container check_shape validate_json_shape shape_loop visit expand
    push_fields check_json_string
parsed_member = refl

validate_json_shape-exact_example :
    (r : Result (Unit {0})) × (validate_json_shape ascii member ≡ some r)
    × (is_ok r ≡ shape_fits ascii member)
validate_json_shape-exact_example = validate_json_shape-exact ascii member

parse_bounded_json-IsAccepted_example : IsAccepted ascii member
parse_bounded_json-IsAccepted_example =
    parse_bounded_json-IsAccepted ascii two_documents two_documents-BuildsByHooks member_bytes
      member parsed_member

normalize_artifact-IsNormal_example :
    IsNormal "final_output_text" (text_artifact "final_output_text" (97 ∷ 10 ∷ 98 ∷ []) 4)
normalize_artifact-IsNormal_example =
    normalize_artifact-IsNormal ascii two_documents two_dumps "final_output_text"
      (as_bytes two_lines) (text_artifact "final_output_text" (97 ∷ 10 ∷ 98 ∷ []) 4) normal_lines

normalize_artifact-settled_example :
    (b : NormalizedArtifact) × (normalize_artifact ascii two_documents two_dumps "final_output_text"
        (as_bytes (97 ∷ 10 ∷ 98 ∷ []))
      ≡ ok b)
    × (b.content ≡ 97 ∷ 10 ∷ 98 ∷ [])
    × (b.raw_byte_count ≡ 3)
normalize_artifact-settled_example =
    normalize_artifact-settled ascii two_dumps ascii-TextLaws two_documents "final_output_text"
      (as_bytes two_lines) (text_artifact "final_output_text" (97 ∷ 10 ∷ 98 ∷ []) 4) normal_lines
