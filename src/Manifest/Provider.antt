-- ===== src/Manifest/Provider.antt =====
-- `_parse_provider` of skivolve/manifest.py.
use skivolve.Base.{
  ℕ, ◌*◌, String, Bool, false, ◌&&◌, ◌||◌, not, Option, none, some, List, [], ◌∷◌, ◌==◌, string_eq,
  is_none, if◌then◌else◌, contains, subset, Result, ok, ◌>>=◌, ◌>>◌, raise_if,
}
use skivolve.Base.Dict.{Dict, lookup}
use skivolve.Json.{Float, Value, str, Fields, get, get_or, get_or_null, names}
use skivolve.Capabilities.{capabilities_for}
use skivolve.Manifest.Types.{FilePath, PathLibrary, ProviderConfig}
use skivolve.Manifest.Values.{object, text, any_text, integer, positive_number}
use skivolve.Manifest.Paths.{suite_protocol_lock}

-- `MAX_TIMEOUT_SECONDS`
abbrev pub max_timeout_seconds : ℕ
max_timeout_seconds = 60 * 60

-- `BILLING_BASES`
abbrev pub billing_bases : List String
billing_bases = "metered_api" ∷ "chatgpt_subscription" ∷ []

-- `CODEX_REASONING_EFFORTS`
abbrev pub codex_reasoning_efforts : Dict String (List String)
codex_reasoning_efforts =
    ("gpt-5.6-luna", "low" ∷ "medium" ∷ "high" ∷ "xhigh" ∷ "max" ∷ [])
    ∷ ("gpt-5.6-terra", "low" ∷ "medium" ∷ "high" ∷ "xhigh" ∷ "max" ∷ "ultra" ∷ [])
    ∷ []

abbrev pub required_provider_keys : List String
required_provider_keys = "adapter" ∷ "model" ∷ "timeout_seconds" ∷ []

abbrev pub provider_keys : List String
provider_keys =
    "adapter" ∷ "model" ∷ "timeout_seconds" ∷ "executable" ∷ "max_budget_usd" ∷ "reasoning_effort"
    ∷ "billing_basis" ∷ "protocol_lock" ∷ []

abbrev codex_keys : List String
codex_keys = "executable" ∷ "reasoning_effort" ∷ "billing_basis" ∷ "protocol_lock" ∷ []

-- `if key in data: ...`
abbrev pub optional {ℓ} : {A : Type ℓ} → (Value → Result A) → Option Value → Result (Option A)
optional f none = ok none
optional f (some v) = f v >>= λ a. ok (some a)

unfoldable pub effort_supported : Option String → Option (List String) → Bool
unfolding contains
effort_supported (some effort) (some efforts) = contains effort efforts
effort_supported _ _ = false

-- The rules of a provider of the kind "codex", and the model's name.
unfoldable pub codex_model : Fields → Option Float → Option String → String → Result String
unfolding subset names effort_supported
codex_model data' budget effort billing = do
  raise_if (not (subset codex_keys (names data'))) "requires keys of Codex"
  raise_if (not (is_none budget)) "must not set max_budget_usd"
  model ← text (get_or_null "model" data') any_text
  let efforts = lookup model codex_reasoning_efforts
  raise_if (is_none efforts) "model must be 'gpt-5.6-luna' or 'gpt-5.6-terra'"
  raise_if (not (effort_supported effort efforts)) "reasoning_effort is not supported"
  raise_if (not (billing == "chatgpt_subscription")) "billing_basis must be 'chatgpt_subscription'"
  ok model

-- The rules of a provider of any other kind, and the model's name.
unfoldable pub other_model : Fields → Option String → Option FilePath → String → Result String
other_model data' effort lock billing = do
  model ← text (get_or_null "model" data') any_text
  raise_if (not (is_none effort) || not (is_none lock))
      "reasoning_effort and protocol_lock are Codex-only"
  raise_if (not (billing == "metered_api")) "billing_basis must be 'metered_api'"
  ok model

-- The fields that are optional in the object.
pub record Options : Type 0 where
  pub executable : Option String
  pub max_budget_usd : Option Float
  pub reasoning_effort : Option String
  pub billing_basis : String
  pub protocol_lock : Option FilePath

-- The rules by the provider's kind, and the model's name.
unfoldable pub provider_model : String → Fields → Options → Result String
provider_model kind data' o = do
  raise_if (kind == "fake" && not (is_none o.executable)) "must not set executable"
  raise_if (kind == "claude" && (is_none o.executable || is_none o.max_budget_usd))
      "requires executable and max_budget_usd"
  if kind == "codex"
      then codex_model data' o.max_budget_usd o.reasoning_effort o.billing_basis
      else other_model data' o.reasoning_effort o.protocol_lock o.billing_basis

module _ (paths : PathLibrary) where
  unfoldable pub read_options : FilePath → Fields → Result Options
  unfolding contains
  read_options root data' = do
    executable ← optional (λ v. text v any_text) (get "executable" data')
    budget ← optional positive_number (get "max_budget_usd" data')
    effort ← optional (λ v. text v any_text) (get "reasoning_effort" data')
    billing ← text (get_or "billing_basis" (str "metered_api") data') any_text
    raise_if (not (contains billing billing_bases)) "billing_basis is not supported"
    lock ← optional (suite_protocol_lock paths root) (get "protocol_lock" data')
    ok (record {
      executable = executable;
      max_budget_usd = budget;
      reasoning_effort = effort;
      billing_basis = billing;
      protocol_lock = lock;
    })

  -- `_parse_provider`
  unfoldable pub parse_provider : FilePath → String → Bool → Value → Result ProviderConfig
  parse_provider root role allow_codex raw = do
    data' ← object raw required_provider_keys provider_keys
    adapter_id ← text (get_or_null "adapter" data') any_text
    capabilities ← capabilities_for adapter_id (some role)
    let kind = capabilities.provider_kind
    raise_if (kind == "codex" && not allow_codex) "comparator.kind must not be 'codex'"
    o ← read_options root data'
    model ← provider_model kind data' o
    timeout ← integer (get_or_null "timeout_seconds" data') 1 (some max_timeout_seconds)
    ok (record {
      adapter_id = adapter_id;
      kind = kind;
      model = model;
      timeout_seconds = timeout;
      executable = o.executable;
      max_budget_usd = o.max_budget_usd;
      reasoning_effort = o.reasoning_effort;
      billing_basis = o.billing_basis;
      protocol_lock = o.protocol_lock;
    })
