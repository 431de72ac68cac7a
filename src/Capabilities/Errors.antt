-- ===== src/Capabilities/Errors.antt =====
-- Go error values, as the program builds, wraps and inspects them: internal/pipeline/errors.go,
-- UpstreamError of internal/capabilities/types.go, and the texts of `errors.New` and `fmt.Errorf`.
use vulpes_core.Base.{String, ◌<>◌, List, [], ◌∷◌, Option, none, some}
use vulpes_core.Base.Int.{ℤ}
use vulpes_core.Base.Value.{Fields}
use vulpes_core.Capabilities.Chat.{UpstreamError}

-- A capability identifier is a text.
abbrev pub CapabilityType : Type 0
CapabilityType = String

abbrev pub authenticator_cap : CapabilityType
authenticator_cap = "authenticator"

abbrev pub authorizer_cap : CapabilityType
authorizer_cap = "authorizer"

abbrev pub rate_limiter_cap : CapabilityType
rate_limiter_cap = "rate_limiter"

abbrev pub router_cap : CapabilityType
router_cap = "router"

abbrev pub upstream_provider_cap : CapabilityType
upstream_provider_cap = "upstream_provider"

abbrev pub cache_provider_cap : CapabilityType
cache_provider_cap = "cache_provider"

abbrev pub observer_cap : CapabilityType
observer_cap = "observer"

abbrev pub prompt_provider_cap : CapabilityType
prompt_provider_cap = "prompt_provider"

abbrev pub cost_provider_cap : CapabilityType
cost_provider_cap = "cost_provider"

abbrev pub model_registry_provider_cap : CapabilityType
model_registry_provider_cap = "model_registry_provider"

-- The field Type is `error_type` here.
pub record GatewayError : Type 0 where
  pub error_type : String
  pub code : String
  pub message : String
  pub status : ℤ
  pub details : Fields

pub data Error : Type 0 where
  -- `errors.New` and `fmt.Errorf` without `%w`
  plain : String → Error
  -- `fmt.Errorf` with one `%w`, between two texts
  wrap : String → Error → String → Error
  upstream : UpstreamError → Error
  missing : List CapabilityType → Error
  gateway : GatewayError → Error

-- `strings.Join`
unfoldable pub join : String → List String → String
join sep [] = ""
join sep (s ∷ []) = s
join sep (s ∷ t ∷ rest) = s <> sep <> join sep (t ∷ rest)

-- `err.Error()`
unfoldable pub error_text : Error → String
unfolding join
error_text (plain text) = text
error_text (wrap before inner after) = before <> error_text inner <> after
error_text (upstream ue) = ue.message
error_text (missing caps) =
    "Gateway cannot serve chat completions. Missing required capabilities: "
    <> join ", " caps
    <> "."
error_text (gateway ge) = ge.message

-- `errors.As(err, &ue)` for a `*capabilities.UpstreamError`: the first one along the `Unwrap` chain.
unfoldable pub as_upstream : Error → Option UpstreamError
as_upstream (plain text) = none
as_upstream (wrap before inner after) = as_upstream inner
as_upstream (upstream ue) = some ue
as_upstream (missing caps) = none
as_upstream (gateway ge) = none
