-- ===== src/Artifacts/Settled.antt =====
-- `normalize_artifact` of skivolve/artifacts.py on its own result.
use skivolve.Base.{
  ℕ, ◌≤◌, String, true, false, not, Option, none, some, ◌≡◌, refl, ap, ◌∙◌, arith, ◌==◌, nat_eq,
  string_eq, list_eq, ltb, length, Result, ok, err, ◌>>=◌, or_raise, Ensures, Ensures-bind,
  Ensures-guard, Ensures-pure, Ensures-err, Ensures-if, beq_sound, beq_refl, not-false, >>=-eq-ok,
  Option-cases, inl, inr,
}
use skivolve.Json.{Value}
use skivolve.Artifacts.Text.{Bytes, Coding, lf, lf-lf, starts_with, starts_with-bom-lf, bom}
use skivolve.Artifacts.Parse.{Loader, parse_bounded_json}
use skivolve.Artifacts.Normalize.{
  max_artifact_bytes, Output, as_text, as_bytes, NormalizedArtifact, artifact, encoded_output,
  diff_artifact, text_artifact, json_artifact, strict_utf8_bytes, repeated_json, canonical_json,
  normalize_artifact,
}
use skivolve.Artifacts.Stable.{strict_utf8_bytes-IsTaken, artifact-Ensures}

-- What the documentation of Python's codecs and of `rfc8785.dumps` says: encoded text decodes, a line
-- end may replace another in valid text, and the canonical form is UTF-8 without a byte order mark.
pub record TextLaws (coding : Coding) (dumps : Value → Option Bytes) : Type 0 where
  pub encode_is_text :
      (s : String) (bs : Bytes) → coding.encode s ≡ some bs → coding.is_text bs ≡ true
  pub lf_is_text : (bs : Bytes) → coding.is_text bs ≡ true → coding.is_text (lf bs) ≡ true
  pub dumps_is_text : (v : Value) (bs : Bytes) → dumps v ≡ some bs → coding.is_text bs ≡ true
  pub dumps_no_bom : (v : Value) (bs : Bytes) → dumps v ≡ some bs → starts_with bom bs ≡ false

-- Bytes that `_strict_utf8_bytes` returns as they are.
abbrev IsReadable : Coding → Bytes → Type 0
IsReadable coding bs =
    (coding.is_text bs ≡ true) × (length bs ≤ max_artifact_bytes) × (starts_with bom bs ≡ false)

strict_utf8_bytes-readable :
    (coding : Coding) (bs : Bytes)
    → IsReadable coding bs
    → strict_utf8_bytes coding (as_bytes bs) ≡ ok (bs, length bs)
unfolding strict_utf8_bytes encoded_output
strict_utf8_bytes-readable coding bs h = ground (arith, h.0, h.1, h.2)

artifact-bounded :
    (a : NormalizedArtifact) → length a.content ≤ max_artifact_bytes → artifact a ≡ ok a
unfolding artifact
artifact-bounded a h = ground (arith, h)

module _ (coding : Coding) (dumps : Value → Option Bytes) (laws : TextLaws coding dumps) where
  encoded_output-is_text :
      (raw : Output) → Ensures (λ bs. coding.is_text bs ≡ true) (encoded_output coding raw)
  unfolding encoded_output
  encoded_output-is_text (as_text s) = elim (Option-cases (coding.encode s)) [
    | inl missing ↦ rw missing (Ensures-err "output is not valid UTF-8 text")
    | inr (bs, same) ↦ rw same (Ensures-pure bs (laws.encode_is_text s bs same))
  ]
  encoded_output-is_text (as_bytes bs) =
      Ensures-guard (not (coding.is_text bs)) _ _ λ valid. Ensures-pure bs (not-false _ valid)

  taken_is_text :
      (raw : Output)
      → Ensures (λ taken. coding.is_text (taken.0) ≡ true) (strict_utf8_bytes coding raw)
  unfolding strict_utf8_bytes
  taken_is_text raw = Ensures-bind (encoded_output coding raw) _ λ encoded same.
      Ensures-guard (ltb max_artifact_bytes (length encoded)) _ _ λ _.
        Ensures-guard (starts_with bom encoded) _ _
          λ _. Ensures-pure (encoded, length encoded) ((encoded_output-is_text raw).at encoded same)

  module _ (loader : Loader) where
    -- The canonical form is written by the canonical writer, and its own canonical form is itself.
    CanonicalSettled : Bytes → Type 0
    CanonicalSettled canonical =
        ((v : Value) × (dumps v ≡ some canonical))
        × (canonical_json coding loader dumps canonical ≡ ok canonical)

    or_raise-eq-ok :
        {A : Type 0} (o : Option A) (e : String) {a : A} → or_raise o e ≡ ok a → o ≡ some a
    or_raise-eq-ok none e h = cc h
    or_raise-eq-ok (some a) e h = cc h

    repeated_json-eq-ok :
        (canonical : Bytes) {repeated : Bytes}
        → repeated_json coding loader dumps canonical ≡ ok repeated
        → (parse_bounded_json coding loader canonical >>= λ value.
            or_raise (dumps value) "final JSON cannot be canonicalized")
          ≡ ok repeated
    unfolding repeated_json
    repeated_json-eq-ok canonical {repeated} h = unchanged _ h
      where
        unchanged :
            (r : Result Bytes)
            → elim r [ err e ↦ err "final JSON canonical form is not stable" | ok b ↦ ok b ]
              ≡ ok repeated
            → r ≡ ok repeated
        unchanged (err e) h = cc h
        unchanged (ok b) h = h

    canonical_json-again :
        (canonical : Bytes)
        → repeated_json coding loader dumps canonical ≡ ok canonical
        → canonical_json coding loader dumps canonical ≡ ok canonical
    unfolding canonical_json
    canonical_json-again canonical again =
        let (value, parsed, written) =
          >>=-eq-ok (parse_bounded_json coding loader canonical) _
            (repeated_json-eq-ok canonical again) in
        rw (parsed, written, again, beq_refl canonical) refl

    canonical_json-settles :
        (content : Bytes) → Ensures CanonicalSettled (canonical_json coding loader dumps content)
    unfolding CanonicalSettled canonical_json repeated_json
    canonical_json-settles content =
        Ensures-bind (parse_bounded_json coding loader content) _ λ value parsed.
          Ensures-bind (or_raise (dumps value) "final JSON cannot be canonicalized") _
            λ canonical written.
              Ensures-bind (repeated_json coding loader dumps canonical) _ λ repeated again.
                Ensures-guard (not (repeated == canonical)) _ _ λ equal. Ensures-pure canonical (
                  (value, or_raise-eq-ok (dumps value) _ written),
                  canonical_json-again canonical
                      (again ∙ ap ok (beq_sound repeated canonical (not-false _ equal))),
                )

    -- The artifact that another pass over the content returns.
    Settles : String → NormalizedArtifact → Type 0
    Settles kind a =
        (b : NormalizedArtifact) × (normalize_artifact coding loader dumps kind (as_bytes a.content)
          ≡ ok b)
        × (b.content ≡ a.content)
        × (b.raw_byte_count ≡ length a.content)

    diff-Settles :
        (kind : String) (content : Bytes) (raw_size : ℕ)
        → (kind == "workspace_diff") ≡ true
        → IsReadable coding content
        → Settles kind (diff_artifact kind content raw_size)
    unfolding Settles normalize_artifact
    diff-Settles kind content raw_size is_diff readable = (
      diff_artifact kind content (length content),
      rw (is_diff, strict_utf8_bytes-readable coding content readable)
          (artifact-bounded _ readable.1),
      refl,
      refl,
    )

    text-Settles :
        (kind : String) (content : Bytes) (raw_size : ℕ)
        → (kind == "workspace_diff") ≡ false
        → (kind == "final_output_text") ≡ true
        → IsReadable coding (lf content)
        → Settles kind (text_artifact kind (lf content) raw_size)
    unfolding Settles normalize_artifact
    text-Settles kind content raw_size not_diff is_text readable = (
      text_artifact kind (lf content) (length (lf content)),
      rw (not_diff, is_text, strict_utf8_bytes-readable coding (lf content) readable, lf-lf content)
          (artifact-bounded _ readable.1),
      refl,
      refl,
    )

    json-Settles :
        (kind : String) (canonical : Bytes) (raw_size : ℕ)
        → (kind == "workspace_diff") ≡ false
        → (kind == "final_output_text") ≡ false
        → (kind == "final_output_json") ≡ true
        → IsReadable coding canonical
        → canonical_json coding loader dumps canonical ≡ ok canonical
        → Settles kind (json_artifact kind canonical raw_size)
    unfolding Settles normalize_artifact
    json-Settles kind canonical raw_size not_diff not_text is_json readable again = (
      json_artifact kind canonical (length canonical),
      rw (not_diff, not_text, is_json, strict_utf8_bytes-readable coding canonical readable, again)
          (artifact-bounded _ readable.1),
      refl,
      refl,
    )

    normalize_artifact-Settles :
        (kind : String) (raw : Output)
        → Ensures (Settles kind) (normalize_artifact coding loader dumps kind raw)
    unfolding normalize_artifact CanonicalSettled
    normalize_artifact-Settles kind raw =
        Ensures-if (kind == "workspace_diff") _ _
          (λ is_diff. Ensures-bind (strict_utf8_bytes coding raw) _ λ taken took.
            artifact-Ensures _ λ within. diff-Settles kind (taken.0) taken.1 is_diff (
              (taken_is_text raw).at taken took,
              within,
              ((strict_utf8_bytes-IsTaken coding raw).at taken took).plain,
            ))
          λ not_diff.
            Ensures-if (kind == "final_output_text") _ _
              (λ is_text. Ensures-bind (strict_utf8_bytes coding raw) _ λ taken took.
                artifact-Ensures _ λ within. text-Settles kind (taken.0) taken.1 not_diff is_text (
                  laws.lf_is_text (taken.0) ((taken_is_text raw).at taken took),
                  within,
                  starts_with-bom-lf (taken.0)
                      ∙ ((strict_utf8_bytes-IsTaken coding raw).at taken took).plain,
                ))
              λ not_text.
                Ensures-if (kind == "final_output_json") _ _
                  (λ is_json. Ensures-bind (strict_utf8_bytes coding raw) _ λ taken took.
                    Ensures-bind (canonical_json coding loader dumps (taken.0)) _
                      λ canonical written. artifact-Ensures _ λ within.
                        let ((v, dumped), again) =
                          (canonical_json-settles (taken.0)).at canonical written in
                        json-Settles kind canonical taken.1 not_diff not_text is_json
                          (
                            laws.dumps_is_text v canonical dumped,
                            within,
                            laws.dumps_no_bom v canonical dumped,
                          )
                          again)
                  λ not_json. Ensures-err "unsupported artifact kind"

-- If encoded text decodes, replacing line ends keeps text valid, and the canonical writer writes valid
-- text without a byte order mark, then for every kind and output that normalizes to an artifact, the
-- bytes of its content normalize, under the same kind, to an artifact with the same content, whose raw
-- byte count is the length of that content.
pub normalize_artifact-settled :
    (coding : Coding) (dumps : Value → Option Bytes)
    → TextLaws coding dumps
    → (loader : Loader) (kind : String) (raw : Output) (a : NormalizedArtifact)
    → normalize_artifact coding loader dumps kind raw ≡ ok a
    → (b : NormalizedArtifact) × (normalize_artifact coding loader dumps kind (as_bytes a.content)
        ≡ ok b)
      × (b.content ≡ a.content)
      × (b.raw_byte_count ≡ length a.content)
unfolding Settles
normalize_artifact-settled coding dumps laws loader kind raw a same =
    (normalize_artifact-Settles coding dumps laws loader kind raw).at a same
