-- ===== src/Capabilities.antt =====
-- skivolve/provider_capabilities.py: the reviewed registry of provider adapters.
use skivolve.Base.{
  ℕ, String, true, Option, none, some, List, [], ◌∷◌, ◌≡◌, refl, sym, ap, ◌∙◌, ◌==◌, string_eq,
  beq_sound, Bool-cases, inl, inr, Ensures, Ensures-if, Ensures-pure, Ensures-err, contains, Result,
  ok, err, if◌then◌else◌,
}
use skivolve.Base.Dict.{Dict, lookup}

pub record ProviderCapabilities : Type 0 where
  pub adapter_id : String
  pub provider_kind : String
  pub contract_revision : ℕ
  pub roles : List String
  pub concurrency : String
  pub sandbox_kind : String
  pub authority_scope : String
  pub billing_basis : String
  pub cost_evidence : String
  pub budget_mechanism : String
  pub quota_evidence : String
  pub provenance_fields : List String
  pub artifact_outputs : List String

abbrev all_outputs : List String
all_outputs = "final_output_json" ∷ "final_output_text" ∷ "workspace_diff" ∷ []

abbrev pub claude_cli : ProviderCapabilities
claude_cli = record {
  adapter_id = "claude-cli";
  provider_kind = "claude";
  contract_revision = 1;
  roles = "comparison" ∷ "generation" ∷ [];
  concurrency = "concurrent";
  sandbox_kind = "systemd-run-user+claude-native-tool-sandbox";
  authority_scope = "production";
  billing_basis = "metered_api";
  cost_evidence = "required";
  budget_mechanism = "per-invocation-usd-ceiling";
  quota_evidence = "forbidden";
  provenance_fields =
      "executable_sha256" ∷ "provider_version" ∷ "requested_model" ∷ "sandbox_runtime" ∷ [];
  artifact_outputs = all_outputs;
}

abbrev pub codex_app_server : ProviderCapabilities
codex_app_server = record {
  adapter_id = "codex-app-server";
  provider_kind = "codex";
  contract_revision = 1;
  roles = "generation" ∷ [];
  concurrency = "serialized";
  sandbox_kind = "systemd-run-user+codex-permission-profile";
  authority_scope = "diagnostic";
  billing_basis = "chatgpt_subscription";
  cost_evidence = "forbidden";
  budget_mechanism = "subscription-quota";
  quota_evidence = "required";
  provenance_fields =
      "account_id" ∷ "codex_cli_version" ∷ "credential_source_revision" ∷ "endpoint"
      ∷ "executable_sha256" ∷ "organization_id" ∷ "project_id" ∷ "protocol_lock_sha256"
      ∷ "quota_identity" ∷ "requested_model" ∷ "runtime_bundle_sha256" ∷ "schema_sha256" ∷ [];
  artifact_outputs = all_outputs;
}

abbrev pub deterministic_fake : ProviderCapabilities
deterministic_fake = record {
  adapter_id = "deterministic-fake";
  provider_kind = "fake";
  contract_revision = 1;
  roles = "comparison" ∷ "generation" ∷ [];
  concurrency = "concurrent";
  sandbox_kind = "fake";
  authority_scope = "test";
  billing_basis = "metered_api";
  cost_evidence = "required";
  budget_mechanism = "none";
  quota_evidence = "forbidden";
  provenance_fields = "provider_version" ∷ "requested_model" ∷ [];
  artifact_outputs = all_outputs;
}

-- `_CAPABILITIES`
abbrev pub registry : Dict String ProviderCapabilities
registry =
    ("claude-cli", claude_cli)
    ∷ ("codex-app-server", codex_app_server)
    ∷ ("deterministic-fake", deterministic_fake)
    ∷ []

unfoldable pub role_supported : Option String → ProviderCapabilities → Result ProviderCapabilities
role_supported none c = ok c
role_supported (some role) c =
    if contains role c.roles then ok c else err "provider adapter does not support the role"

unfoldable pub found_or_unknown :
    Option String → Option ProviderCapabilities → Result ProviderCapabilities
found_or_unknown role none = err "unknown reviewed provider adapter"
found_or_unknown role (some c) = role_supported role c

unfoldable pub capabilities_for : String → Option String → Result ProviderCapabilities
unfolding role_supported found_or_unknown lookup
capabilities_for adapter_id role = found_or_unknown role (lookup adapter_id registry)

-- The capabilities of an adapter that has a role.
abbrev pub Supports : String → String → ProviderCapabilities → Type 0
Supports adapter_id role c =
    (c.adapter_id ≡ adapter_id)
    × (contains role c.roles ≡ true)
    × (role ≡ "comparison" → c.cost_evidence ≡ "required")

role_supported-Supports :
    (i role : String) (c : ProviderCapabilities)
    → c.adapter_id ≡ i
    → (contains "comparison" c.roles ≡ true → c.cost_evidence ≡ "required")
    → Ensures (Supports i role) (role_supported (some role) c)
unfolding role_supported
role_supported-Supports i role c same costs =
    Ensures-if (contains role c.roles) _ _
      (λ has.
        Ensures-pure c
          (same, has, λ comparing. costs (ap (λ r. contains r c.roles) (sym comparing) ∙ has)))
      (λ _. Ensures-err "provider adapter does not support the role")

pub capabilities_for-Ensures :
    (adapter_id role : String)
    → Ensures (Supports adapter_id role) (capabilities_for adapter_id (some role))
unfolding capabilities_for found_or_unknown lookup contains
capabilities_for-Ensures i role = elim (Bool-cases (i == "claude-cli")) [
  | inl claude ↦ rw claude (
      role_supported-Supports i role claude_cli (sym (beq_sound i "claude-cli" claude)) (λ _. refl))
  | inr not_claude ↦ elim (Bool-cases (i == "codex-app-server")) [
    | inl codex ↦
        rw (not_claude, codex)
          (role_supported-Supports i role codex_app_server
            (sym (beq_sound i "codex-app-server" codex)) (λ comparing. cc))
    | inr not_codex ↦ elim (Bool-cases (i == "deterministic-fake")) [
      | inl fake ↦
          rw (not_claude, not_codex, fake)
            (role_supported-Supports i role deterministic_fake
              (sym (beq_sound i "deterministic-fake" fake)) (λ _. refl))
      | inr unknown ↦
          rw (not_claude, not_codex, unknown) (Ensures-err "unknown reviewed provider adapter")
    ]
  ]
]

-- The capabilities that `capabilities_for` returns are those of the adapter asked for, which has the
-- role; an adapter that may compare has to prove its costs.
pub capabilities_for-Supports :
    (adapter_id role : String) (c : ProviderCapabilities)
    → capabilities_for adapter_id (some role) ≡ ok c
    → Supports adapter_id role c
capabilities_for-Supports adapter_id role c e = (capabilities_for-Ensures adapter_id role).at c e
