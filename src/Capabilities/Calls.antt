-- ===== src/Capabilities/Calls.antt =====
-- internal/capabilities/types.go: what the gateway sends to its plugins, and what they answer.
use vulpes_core.Base.{String, Bool, List}
use vulpes_core.Base.Int.{ℤ}
use vulpes_core.Base.Dict.{Dict}
use vulpes_core.Base.Value.{Float64}
use vulpes_core.Capabilities.Chat.{
  CallContext, Diagnostic, Identity, RequestSummary, RequestConstraints, Usage, ChatMessage,
  ChatCompletionRequest, ChatCompletionResponse,
}

pub record AuthenticateRequest : Type 0 where
  pub context : CallContext
  pub headers : Dict String
  pub source_ip : String
  pub method : String
  pub path : String

pub record AuthenticateResponse : Type 0 where
  pub allow : Bool
  pub identity : Identity
  pub deny_reason : String
  pub diagnostics : List Diagnostic

pub record AuthorizeRequest : Type 0 where
  pub context : CallContext
  pub identity : Identity
  pub request : RequestSummary

pub record AuthorizeResponse : Type 0 where
  pub allow : Bool
  pub deny_reason : String
  pub constraints : RequestConstraints
  pub diagnostics : List Diagnostic

pub record RateLimitCheckRequest : Type 0 where
  pub context : CallContext
  pub identity : Identity
  pub model : String
  pub estimated_input_tokens : ℤ
  pub requested_output_tokens : ℤ
  pub properties : Dict String

pub record RateLimitState : Type 0 where
  pub request_limit : ℤ
  pub request_remaining : ℤ
  pub token_limit : ℤ
  pub token_remaining : ℤ
  pub budget_limit_usd : Float64
  pub budget_remaining_usd : Float64
  pub reset_unix_nano : ℤ

pub record RateLimitCheckResponse : Type 0 where
  pub decision : String
  pub deny_reason : String
  pub retry_after_ms : ℤ
  pub state : RateLimitState

pub record CommitUsageRequest : Type 0 where
  pub context : CallContext
  pub identity : Identity
  pub usage : Usage

pub record RouteCandidate : Type 0 where
  pub provider_instance : String
  pub provider_model : String
  pub logical_model : String
  pub weight : ℤ
  pub region : String
  pub healthy : Bool
  pub estimated_cost_per_1k_input : Float64
  pub estimated_cost_per_1k_output : Float64
  pub properties : Dict String

pub record RouteRequest : Type 0 where
  pub context : CallContext
  pub identity : Identity
  pub requested_model : String
  pub request : RequestSummary
  pub candidates : List RouteCandidate
  pub constraints : RequestConstraints

pub record SelectedRoute : Type 0 where
  pub provider_instance : String
  pub provider_model : String
  pub priority : ℤ
  pub properties : Dict String

pub record RouteResponse : Type 0 where
  pub routes : List SelectedRoute
  pub reason : String
  pub diagnostics : List Diagnostic

pub record InvokeRequest : Type 0 where
  pub context : CallContext
  pub identity : Identity
  pub provider_model : String
  pub request : ChatCompletionRequest
  pub properties : Dict String

pub record ModelInfo : Type 0 where
  pub id : String
  pub object : String
  pub owned_by : String
  pub provider_instance : String
  pub provider_model : String
  pub context_window : ℤ
  pub supports_streaming : Bool
  pub supports_tools : Bool
  pub supports_json_mode : Bool
  pub supports_vision : Bool
  pub region : String
  pub healthy : Bool
  pub properties : Dict String

pub record CachePolicy : Type 0 where
  pub ttl_millis : ℤ
  pub semantic : Bool
  pub vary : Dict String

pub record CachedResponse : Type 0 where
  pub response : ChatCompletionResponse
  pub usage : Usage

pub record CacheLookupRequest : Type 0 where
  pub context : CallContext
  pub identity : Identity
  pub cache_key : String
  pub policy : CachePolicy

pub record CacheLookupResponse : Type 0 where
  pub hit : Bool
  pub response : CachedResponse
  pub cache_id : String

pub record CacheStoreRequest : Type 0 where
  pub context : CallContext
  pub identity : Identity
  pub cache_key : String
  pub response : CachedResponse
  pub policy : CachePolicy

pub record GatewayEvent : Type 0 where
  pub event_id : String
  pub request_id : String
  pub tenant_id : String
  pub event_type : String
  pub timestamp_unix_nano : ℤ
  pub properties : Dict String
  pub usage : Usage
  pub error : Dict String

pub record PromptResolveRequest : Type 0 where
  pub context : CallContext
  pub identity : Identity
  pub prompt_ref : String
  pub version : String
  pub variables : Dict String

pub record PromptResolveResponse : Type 0 where
  pub messages : List ChatMessage
  pub resolved_version : String
  pub properties : Dict String

pub record CostEstimateRequest : Type 0 where
  pub context : CallContext
  pub provider : String
  pub model : String
  pub input_tokens : ℤ
  pub output_tokens : ℤ

pub record CostEstimateResponse : Type 0 where
  pub estimated_cost_usd : Float64
