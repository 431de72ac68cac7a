-- ===== src/Capabilities/Providers.antt =====
-- internal/capabilities/types.go: the interfaces that plugins implement. Their code runs outside
-- the gateway, so an operation may do anything to the world `W` around the gateway, and answers.
-- An error that Go returns beside a response is the `err` of a `Result`; the gateway reads a
-- response only where the error is nil.
use vulpes_core.Base.{List, Option, Result}
use vulpes_core.Capabilities.Errors.{Error}
use vulpes_core.Capabilities.Chat.{ResponseChunk}
use vulpes_core.Capabilities.Calls.{
  AuthenticateRequest, AuthenticateResponse, AuthorizeRequest, AuthorizeResponse,
  RateLimitCheckRequest, RateLimitCheckResponse, CommitUsageRequest, RouteRequest, RouteResponse,
  InvokeRequest, ModelInfo, CacheLookupRequest, CacheLookupResponse, CacheStoreRequest,
  GatewayEvent, PromptResolveRequest, PromptResolveResponse, CostEstimateRequest,
  CostEstimateResponse,
}

pub record Authenticator (W : Type 0) : Type 0 where
  pub authenticate : AuthenticateRequest → W → Result Error AuthenticateResponse × W

pub record Authorizer (W : Type 0) : Type 0 where
  pub authorize : AuthorizeRequest → W → Result Error AuthorizeResponse × W

pub record RateLimiter (W : Type 0) : Type 0 where
  pub check : RateLimitCheckRequest → W → Result Error RateLimitCheckResponse × W
  pub commit : CommitUsageRequest → W → Option Error × W

pub record Router (W : Type 0) : Type 0 where
  pub route : RouteRequest → W → Result Error RouteResponse × W

-- The channel that Invoke returns is the sequence of the chunks that it delivers until it is closed.
pub record UpstreamProvider (W : Type 0) : Type 0 where
  pub invoke : InvokeRequest → W → Result Error (List ResponseChunk) × W
  pub list_models : W → Result Error (List ModelInfo) × W

pub record CacheProvider (W : Type 0) : Type 0 where
  pub lookup : CacheLookupRequest → W → Result Error CacheLookupResponse × W
  pub store : CacheStoreRequest → W → Option Error × W

pub record Observer (W : Type 0) : Type 0 where
  pub emit : List GatewayEvent → W → Option Error × W

pub record PromptProvider (W : Type 0) : Type 0 where
  pub resolve_prompt : PromptResolveRequest → W → Result Error PromptResolveResponse × W

pub record CostProvider (W : Type 0) : Type 0 where
  pub estimate : CostEstimateRequest → W → Result Error CostEstimateResponse × W

pub record ModelRegistryProvider (W : Type 0) : Type 0 where
  pub list_models : W → Result Error (List ModelInfo) × W
