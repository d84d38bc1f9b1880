-- ===== src/Artifacts/Normalize.antt =====
-- `normalize_artifact`, `_artifact` and `_strict_utf8_bytes` of skivolve/artifacts.py.
use skivolve.Base.{
  ℕ, ◌*◌, String, not, Option, ◌==◌, nat_eq, string_eq, list_eq, if◌then◌else◌, ltb, length, Result,
  ok, err, ◌>>=◌, ◌>>◌, raise_if, or_raise,
}
use skivolve.Base.Int.{pos}
use skivolve.Json.{Value, int, str, Fields, end, field}
use skivolve.Artifacts.Text.{Bytes, Coding, lf, starts_with, bom}
use skivolve.Artifacts.Parse.{Loader, parse_bounded_json}

-- `MAX_ARTIFACT_BYTES`
abbrev pub max_artifact_bytes : ℕ
max_artifact_bytes = 1024 * 1024

-- `str | bytes`
pub data Output : Type 0 where
  as_text : String → Output
  as_bytes : Bytes → Output

pub record NormalizedArtifact : Type 0 where
  pub kind : String
  pub media_type : String
  pub filename : String
  pub canonicalization : String
  pub content : Bytes
  pub raw_byte_count : ℕ

-- The arguments that each kind of output gives to `_artifact`.
abbrev pub diff_artifact : String → Bytes → ℕ → NormalizedArtifact
diff_artifact kind content raw_size = record {
  kind = kind;
  media_type = "text/x-diff; charset=utf-8";
  filename = "artifact.txt";
  canonicalization = "skivolve-workspace-diff-v1";
  content = content;
  raw_byte_count = raw_size;
}

abbrev pub text_artifact : String → Bytes → ℕ → NormalizedArtifact
text_artifact kind content raw_size = record {
  kind = kind;
  media_type = "text/plain; charset=utf-8";
  filename = "artifact.txt";
  canonicalization = "skivolve-text-lf-v1";
  content = content;
  raw_byte_count = raw_size;
}

abbrev pub json_artifact : String → Bytes → ℕ → NormalizedArtifact
json_artifact kind content raw_size = record {
  kind = kind;
  media_type = "application/json";
  filename = "artifact.json";
  canonicalization = "rfc8785";
  content = content;
  raw_byte_count = raw_size;
}

-- `_artifact`
unfoldable pub artifact : NormalizedArtifact → Result NormalizedArtifact
artifact a =
    raise_if (ltb max_artifact_bytes (length a.content))
      "normalized artifact exceeds the 1 MiB size limit"
    >> ok a

-- `byte_count`
abbrev pub byte_count : NormalizedArtifact → ℕ
byte_count a = length a.content

-- `as_evidence`, with the hexadecimal SHA-256 of bytes as a parameter
unfoldable pub as_evidence : (Bytes → String) → NormalizedArtifact → Fields
as_evidence sha256 a = field "byte_count" (int (pos (byte_count a))) (
    field "canonicalization" (str a.canonicalization) (
      field "filename" (str a.filename) (
        field "kind" (str a.kind) (
          field "media_type" (str a.media_type) (
            field "raw_byte_count" (int (pos a.raw_byte_count))
              (field "sha256" (str (sha256 a.content)) end))))))

-- `assert_content`
unfoldable pub assert_content : NormalizedArtifact → Bytes → Result (Unit {0})
assert_content a observed =
    raise_if (not (observed == a.content)) "normalized artifact content drifted"

module _ (coding : Coding) where
  -- The bytes of an output, where it is valid text.
  unfoldable pub encoded_output : Output → Result Bytes
  encoded_output (as_text s) = or_raise (coding.encode s) "output is not valid UTF-8 text"
  encoded_output (as_bytes bs) =
      raise_if (not (coding.is_text bs)) "output is not valid UTF-8 text" >> ok bs

  -- `_strict_utf8_bytes`
  unfoldable pub strict_utf8_bytes : Output → Result (Bytes × ℕ)
  unfolding encoded_output
  strict_utf8_bytes raw = encoded_output raw >>= λ encoded.
      raise_if (ltb max_artifact_bytes (length encoded)) "output exceeds the 1 MiB raw size limit"
      >> (raise_if (starts_with bom encoded) "output must not start with a UTF-8 BOM"
          >> ok (encoded, length encoded))

  -- `rfc8785.dumps`, `none` where it raises, is a parameter.
  module _ (loader : Loader) (dumps : Value → Option Bytes) where
    -- The second pass, from the canonical form.
    unfoldable pub repeated_json : Bytes → Result Bytes
    unfolding parse_bounded_json
    repeated_json canonical =
        elim (parse_bounded_json coding loader canonical >>= λ value.
        or_raise (dumps value) "final JSON cannot be canonicalized") [
          | err e ↦ err "final JSON canonical form is not stable"
          | ok repeated ↦ ok repeated
        ]

    -- The branch of a JSON output: the canonical form must parse and be written the same way again.
    unfoldable pub canonical_json : Bytes → Result Bytes
    unfolding parse_bounded_json repeated_json
    canonical_json content = parse_bounded_json coding loader content >>= λ value.
        or_raise (dumps value) "final JSON cannot be canonicalized" >>= λ canonical.
        repeated_json canonical >>= λ repeated.
        raise_if (not (repeated == canonical)) "final JSON canonical form is not idempotent"
        >> ok canonical

    -- `normalize_artifact`
    unfoldable pub normalize_artifact : String → Output → Result NormalizedArtifact
    unfolding strict_utf8_bytes canonical_json artifact lf
    normalize_artifact kind raw =
        if kind == "workspace_diff"
        then (strict_utf8_bytes raw >>= λ taken. artifact (diff_artifact kind (taken.0) taken.1))
        else if kind == "final_output_text"
        then (strict_utf8_bytes raw >>= λ taken.
            artifact (text_artifact kind (lf (taken.0)) taken.1))
        else if kind == "final_output_json"
        then (strict_utf8_bytes raw >>= λ taken. canonical_json (taken.0) >>= λ canonical.
            artifact (json_artifact kind canonical taken.1))
        else err "unsupported artifact kind"
