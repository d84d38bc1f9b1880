-- ===== src/Artifacts/Stable.antt =====
-- What `normalize_artifact` of skivolve/artifacts.py returns.
use skivolve.Base.{
  ℕ, ◌≤◌, String, true, false, Option, ◌≡◌, refl, ◌∙◌, arith, ◌==◌, nat_eq, string_eq, list_eq, ltb,
  length, ok, contains, Ensures, Ensures-bind, Ensures-guard, Ensures-pure, Ensures-err, Ensures-if,
  beq_sound, beq_refl,
}
use skivolve.Json.{Value}
use skivolve.Artifacts.Text.{Bytes, Coding, starts_with, starts_with-bom-lf, bom, contains-lf}
use skivolve.Artifacts.Parse.{Loader}
use skivolve.Artifacts.Normalize.{
  max_artifact_bytes, Output, NormalizedArtifact, artifact, encoded_output, strict_utf8_bytes,
  canonical_json, normalize_artifact,
}

-- The limits on every artifact, and the line ends of a text.
pub record IsNormal (wanted : String) (a : NormalizedArtifact) : Type 0 where
  pub content_bounded : length a.content ≤ max_artifact_bytes
  pub raw_bounded : a.raw_byte_count ≤ max_artifact_bytes
  pub kind_same : a.kind ≡ wanted
  pub line_ends : wanted ≡ "final_output_text" → contains 13 a.content ≡ false
  pub no_bom : ¬ (wanted ≡ "final_output_json") → starts_with bom a.content ≡ false

-- The output is taken in: its bytes, their number and what was checked of them.
pub record IsTaken (taken : Bytes × ℕ) : Type 0 where
  pub bounded : length (taken.0) ≤ max_artifact_bytes
  pub counted : taken.1 ≡ length (taken.0)
  pub plain : starts_with bom (taken.0) ≡ false

pub strict_utf8_bytes-IsTaken :
    (coding : Coding) (raw : Output) → Ensures IsTaken (strict_utf8_bytes coding raw)
unfolding strict_utf8_bytes
strict_utf8_bytes-IsTaken coding raw = Ensures-bind (encoded_output coding raw) _ λ encoded _.
    Ensures-guard (ltb max_artifact_bytes (length encoded)) _ _ λ within.
      Ensures-guard (starts_with bom encoded) _ _ λ plain.
        Ensures-pure (encoded, length encoded)
          (record { bounded = ground (arith, within); counted = refl; plain = plain })

pub artifact-Ensures :
    {P : NormalizedArtifact → Type 0} (a : NormalizedArtifact)
    → (length a.content ≤ max_artifact_bytes → P a)
    → Ensures P (artifact a)
unfolding artifact
artifact-Ensures a h =
    Ensures-guard (ltb max_artifact_bytes (length a.content)) _ _
      λ within. Ensures-pure a (h (ground (arith, within)))

-- The kind of a branch, from its test.
branch_differs :
    (kind here there : String) → (kind == here) ≡ true → (there == here) ≡ false → ¬ (kind ≡ there)
branch_differs kind here there h k same = cc (beq_sound kind here h, beq_refl here, k, same)

module _ (coding : Coding) (loader : Loader) (dumps : Value → Option Bytes) where
  normalize_artifact-Ensures :
      (kind : String) (raw : Output)
      → Ensures (IsNormal kind) (normalize_artifact coding loader dumps kind raw)
  unfolding normalize_artifact
  normalize_artifact-Ensures kind raw =
      Ensures-if (kind == "workspace_diff") _ _
        (λ is_diff. Ensures-bind (strict_utf8_bytes coding raw) _ λ taken took.
          artifact-Ensures _ λ within.
            let given = (strict_utf8_bytes-IsTaken coding raw).at taken took in
            record {
              content_bounded = within;
              raw_bounded = omega (arith, given.bounded, given.counted);
              kind_same = refl;
              line_ends = λ same. absurd (branch_differs kind _ _ is_diff refl same);
              no_bom = λ _. given.plain;
            })
        λ not_diff.
          Ensures-if (kind == "final_output_text") _ _
            (λ is_text. Ensures-bind (strict_utf8_bytes coding raw) _ λ taken took.
              artifact-Ensures _ λ within.
                let given = (strict_utf8_bytes-IsTaken coding raw).at taken took in
                record {
                  content_bounded = within;
                  raw_bounded = omega (arith, given.bounded, given.counted);
                  kind_same = refl;
                  line_ends = λ _. contains-lf (taken.0);
                  no_bom = λ _. starts_with-bom-lf (taken.0) ∙ given.plain;
                })
            λ not_text.
              Ensures-if (kind == "final_output_json") _ _
                (λ is_json. Ensures-bind (strict_utf8_bytes coding raw) _ λ taken took.
                  Ensures-bind (canonical_json coding loader dumps (taken.0)) _ λ canonical written.
                    artifact-Ensures _ λ within.
                      let given = (strict_utf8_bytes-IsTaken coding raw).at taken took in
                      record {
                        content_bounded = within;
                        raw_bounded = omega (arith, given.bounded, given.counted);
                        kind_same = refl;
                        line_ends = λ same. absurd (branch_differs kind _ _ is_json refl same);
                        no_bom = λ other. absurd (other (beq_sound kind _ is_json));
                      })
                λ not_json. Ensures-err "unsupported artifact kind"

-- For every encoding, loader and canonical writer, every kind and output: if the output can be
-- normalized, then the artifact has that kind, its content and the raw output have at most 1 MiB, a
-- text has no CR left, and a diff or a text does not begin with a byte order mark.
pub normalize_artifact-IsNormal :
    (coding : Coding) (loader : Loader) (dumps : Value → Option Bytes) (kind : String)
    (raw : Output) (a : NormalizedArtifact)
    → normalize_artifact coding loader dumps kind raw ≡ ok a
    → IsNormal kind a
normalize_artifact-IsNormal coding loader dumps kind raw a same =
    (normalize_artifact-Ensures coding loader dumps kind raw).at a same
