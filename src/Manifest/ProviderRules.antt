-- ===== src/Manifest/ProviderRules.antt =====
-- The rules on billing and budgets that `_parse_provider` of skivolve/manifest.py enforces.
use skivolve.Base.{
  ◌≤◌, String, Bool, true, false, ◌&&◌, ◌||◌, not, Option, none, some, ◌≡◌, ◌≢◌, refl, arith, ◌==◌,
  string_eq, beq_sound, is_none, if◌then◌else◌, ok, Ensures, or_false_left, or_false_right,
  ensures_rules, Ensures-pure, Ensures-if, Ensures-guard, Ensures-bind,
}
use skivolve.Base.Dict.{lookup}
use package.text.Mathlib.TextEquality.{eq_iff}
use skivolve.Json.{Value, Fields, get_or_null}
use skivolve.Capabilities.{ProviderCapabilities, capabilities_for}
use skivolve.Manifest.Types.{FilePath, PathLibrary, ProviderConfig}
use skivolve.Manifest.Values.{integer, object, text, any_text, integer-bounds}
use skivolve.Manifest.Provider.{
  required_provider_keys, provider_keys, max_timeout_seconds, codex_reasoning_efforts,
  effort_supported, codex_model, other_model, Options, read_options, provider_model, parse_provider,
}

-- What a provider of each kind may and must set.
pub record IsAllowed (kind model : String) (o : Options) : Type 0 where
  pub codex_rules :
      kind ≡ "codex"
      → (o.max_budget_usd ≡ none)
        × (o.billing_basis ≡ "chatgpt_subscription")
        × (effort_supported o.reasoning_effort (lookup model codex_reasoning_efforts) ≡ true)
  pub other_rules :
      kind ≢ "codex"
      → (o.billing_basis ≡ "metered_api") × (o.reasoning_effort ≡ none) × (o.protocol_lock ≡ none)
  pub claude_rules : kind ≡ "claude" → (o.executable ≢ none) × (o.max_budget_usd ≢ none)
  pub fake_rules : kind ≡ "fake" → o.executable ≡ none

none_given {ℓ} : {A : Type ℓ} (o : Option A) → not (is_none o) ≡ false → o ≡ none
none_given none h = refl
none_given (some a) h = ground (arith, h)

some_given {ℓ} : {A : Type ℓ} (o : Option A) → is_none o ≡ false → o ≢ none
some_given none h = ground (arith, h)
some_given (some a) h = λ e. cc

abbrev CodexRules : Options → String → Type 0
CodexRules o model =
    (o.max_budget_usd ≡ none)
    × (o.billing_basis ≡ "chatgpt_subscription")
    × (effort_supported o.reasoning_effort (lookup model codex_reasoning_efforts) ≡ true)

abbrev OtherRules : Options → Type 0
OtherRules o =
    (o.billing_basis ≡ "metered_api") × (o.reasoning_effort ≡ none) × (o.protocol_lock ≡ none)

given-CodexRules :
    (o : Options) (m : String)
    → not (is_none o.max_budget_usd) ≡ false
    → not (effort_supported o.reasoning_effort (lookup m codex_reasoning_efforts)) ≡ false
    → not (o.billing_basis == "chatgpt_subscription") ≡ false
    → CodexRules o m
given-CodexRules o m no_budget effort billing = (
  none_given o.max_budget_usd no_budget,
  beq_sound o.billing_basis "chatgpt_subscription" (ground (arith, billing)),
  ground (arith, effort),
)

codex_model-rules :
    (data' : Fields) (o : Options)
    → Ensures (CodexRules o) (codex_model data' o.max_budget_usd o.reasoning_effort o.billing_basis)
unfolding codex_model
codex_model-rules data' o = search (ensures_rules, given-CodexRules) depth 12

given-OtherRules :
    (o : Options)
    → (not (is_none o.reasoning_effort) || not (is_none o.protocol_lock)) ≡ false
    → not (o.billing_basis == "metered_api") ≡ false
    → OtherRules o
given-OtherRules o absent billing = (
  beq_sound o.billing_basis "metered_api" (ground (arith, billing)),
  none_given o.reasoning_effort (or_false_left _ _ absent),
  none_given o.protocol_lock (or_false_right _ _ absent),
)

other_model-rules :
    (data' : Fields) (o : Options)
    → Ensures
        (λ m. OtherRules o)
        (other_model data' o.reasoning_effort o.protocol_lock o.billing_basis)
unfolding other_model
other_model-rules data' o = search (ensures_rules, given-OtherRules) depth 12

-- The rules by the kind, from the guards and from the branch that was taken.
abbrev Branch : String → String → Options → Type 0
Branch kind m o = (kind ≡ "codex" → CodexRules o m) × (kind ≢ "codex" → OtherRules o)

Branch-rules :
    (kind : String) (data' : Fields) (o : Options)
    → Ensures
        (λ m. Branch kind m o)
        (if kind == "codex"
          then codex_model data' o.max_budget_usd o.reasoning_effort o.billing_basis
          else other_model data' o.reasoning_effort o.protocol_lock o.billing_basis)
Branch-rules kind data' o =
    Ensures-if (kind == "codex") _ _
      (λ codex. record {
        at = λ m e. (
          λ _. (codex_model-rules data' o).at m e,
          λ other. absurd (other (beq_sound kind "codex" codex)),
        );
      })
      (λ other. record {
        at = λ m e. (
          λ same. absurd (ground (arith, other, same, eq_iff kind "codex")),
          λ _. (other_model-rules data' o).at m e,
        );
      })

given_rules :
    (kind m : String) (o : Options)
    → (kind == "fake" && not (is_none o.executable)) ≡ false
    → (kind == "claude" && (is_none o.executable || is_none o.max_budget_usd)) ≡ false
    → Branch kind m o
    → IsAllowed kind m o
given_rules kind m o fake claude branch = record {
  codex_rules = branch.0;
  other_rules = branch.1;
  claude_rules = λ is_claude. (
    some_given o.executable (ground (arith, claude, is_claude, eq_iff kind "claude")),
    some_given o.max_budget_usd (ground (arith, claude, is_claude, eq_iff kind "claude")),
  );
  fake_rules =
      λ is_fake. none_given o.executable (ground (arith, fake, is_fake, eq_iff kind "fake"));
}

provider_model-rules :
    (kind : String) (data' : Fields) (o : Options)
    → Ensures (λ m. IsAllowed kind m o) (provider_model kind data' o)
unfolding provider_model
provider_model-rules kind data' o =
    Ensures-guard (kind == "fake" && not (is_none o.executable)) "must not set executable" _ λ fake.
      Ensures-guard (kind == "claude" && (is_none o.executable || is_none o.max_budget_usd))
        "requires executable and max_budget_usd" _
        λ claude. record {
          at = λ m e. given_rules kind m o fake claude ((Branch-rules kind data' o).at m e);
        }

-- The options that a configuration carries.
abbrev options_of : ProviderConfig → Options
options_of p = record {
  executable = p.executable;
  max_budget_usd = p.max_budget_usd;
  reasoning_effort = p.reasoning_effort;
  billing_basis = p.billing_basis;
  protocol_lock = p.protocol_lock;
}

-- A provider that is accepted for a role.
pub record IsProvider (role : String) (allow_codex : Bool) (p : ProviderConfig) : Type 0 where
  pub allowed : IsAllowed p.kind p.model (options_of p)
  pub supported :
      (c : ProviderCapabilities) × (capabilities_for p.adapter_id (some role) ≡ ok c)
      × (p.kind ≡ c.provider_kind)
  pub not_codex : allow_codex ≡ false → p.kind ≢ "codex"
  pub timeout : (1 ≤ p.timeout_seconds) × (p.timeout_seconds ≤ max_timeout_seconds)

given_not_codex :
    (kind : String) (allow : Bool)
    → (kind == "codex" && not allow) ≡ false
    → allow ≡ false
    → kind ≢ "codex"
given_not_codex kind allow h refused same = ground (arith, h, refused, same, eq_iff kind "codex")

module _ (paths : PathLibrary) where
  pub parse_provider-Ensures :
      (root : FilePath) (role : String) (allow_codex : Bool) (raw : Value)
      → Ensures (IsProvider role allow_codex) (parse_provider paths root role allow_codex raw)
  unfolding parse_provider
  parse_provider-Ensures root role allow_codex raw =
      Ensures-bind (object raw required_provider_keys provider_keys) _ λ data' d.
        Ensures-bind (text (get_or_null "adapter" data') any_text) _ λ adapter a.
          Ensures-bind (capabilities_for adapter (some role)) _ λ c supported.
            Ensures-guard (c.provider_kind == "codex" && not allow_codex)
              "comparator.kind must not be 'codex'" _
              λ open_role. Ensures-bind (read_options paths root data') _ λ o _.
                Ensures-bind (provider_model c.provider_kind data' o) _ λ m named.
                  Ensures-bind
                    (integer (get_or_null "timeout_seconds" data') 1 (some max_timeout_seconds)) _
                    λ n timed. Ensures-pure _ (record {
                      allowed = (provider_model-rules c.provider_kind data' o).at m named;
                      supported = (c, supported, refl);
                      not_codex = given_not_codex c.provider_kind allow_codex open_role;
                      timeout = (integer-bounds _ 1 max_timeout_seconds).at n timed;
                    })

  -- A provider configuration that `_parse_provider` returns: the adapter supports the role; a Codex
  -- provider has no dollar budget, the subscription's billing and an effort of its model; any other
  -- one has metered billing, no effort and no protocol lock; Claude names an executable and a budget;
  -- a fake has no executable; a role closed to Codex gets none; the timeout is between 1 and 3600.
  pub parse_provider-IsProvider :
      (root : FilePath) (role : String) (allow_codex : Bool) (raw : Value) (p : ProviderConfig)
      → parse_provider paths root role allow_codex raw ≡ ok p
      → IsProvider role allow_codex p
  parse_provider-IsProvider root role allow_codex raw p e =
      (parse_provider-Ensures root role allow_codex raw).at p e
