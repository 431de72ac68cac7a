-- ===== src/Rpc/Wire.antt =====
-- What a client and its plugin exchange: the messages of rpc.go, the methods with the types of
-- their arguments and answers, and what net/rpc gives of a connection.
use vulpes_core.Base.{ℕ, String, Bool, List, Result}
use vulpes_core.Base.Int.{ℤ}
use vulpes_core.Base.Dict.{Dict}
use vulpes_core.Capabilities.{
  Error, plain, CallContext, Diagnostic, ResponseChunk, AuthenticateRequest, AuthenticateResponse,
  AuthorizeRequest, AuthorizeResponse, RateLimitCheckRequest, RateLimitCheckResponse,
  CommitUsageRequest, RouteRequest, RouteResponse, InvokeRequest, ModelInfo, CacheLookupRequest,
  CacheLookupResponse, CacheStoreRequest, GatewayEvent, PromptResolveRequest, PromptResolveResponse,
  CostEstimateRequest, CostEstimateResponse,
}
use vulpes_core.Plugins.Registry.{Metadata}

pub record HandshakeRequest : Type 0 where
  pub gateway_version : String
  pub supported_protocol_versions : List ℤ

pub record HandshakeResponse : Type 0 where
  pub selected_protocol_version : ℤ
  pub plugin_name : String
  pub plugin_version : String
  pub diagnostics : List Diagnostic

pub record ConfigureRequest : Type 0 where
  pub context : CallContext
  pub config_json : String
  pub resolved_secrets : Dict String

pub record ConfigureResponse : Type 0 where
  pub diagnostics : List Diagnostic

pub record HealthResponse : Type 0 where
  pub state : String
  pub diagnostics : List Diagnostic

pub record GetConfigSchemaResponse : Type 0 where
  pub schema_json : String

pub record InvokeStartResponse : Type 0 where
  pub stream_id : ℕ

pub record InvokeNextRequest : Type 0 where
  pub stream_id : ℕ

pub record InvokeNextResponse : Type 0 where
  pub chunk : ResponseChunk
  pub eof : Bool

pub record InvokeCancelRequest : Type 0 where
  pub stream_id : ℕ

-- The messages without a field, of which each has its own type in Go: those with a name, and
-- `struct{}`.
pub data HealthRequest : Type 0 where
  health_request : HealthRequest

pub data GetMetadataRequest : Type 0 where
  get_metadata_request : GetMetadataRequest

pub data GetConfigSchemaRequest : Type 0 where
  get_config_schema_request : GetConfigSchemaRequest

pub data InvokeCancelResponse : Type 0 where
  invoke_cancel_response : InvokeCancelResponse

pub data Empty : Type 0 where
  empty : Empty

-- The methods that the client calls, by the message that goes out and the one that comes back, as
-- the client pairs them: `call` itself takes a name and any two values. On the wire the name is
-- `Plugin.` with that of the constructor in Go's spelling.
pub data Method : Type 0 → Type 0 → Type 1 where
  handshake : Method HandshakeRequest HandshakeResponse
  get_metadata : Method GetMetadataRequest Metadata
  get_config_schema : Method GetConfigSchemaRequest GetConfigSchemaResponse
  configure : Method ConfigureRequest ConfigureResponse
  health : Method HealthRequest HealthResponse
  authenticate : Method AuthenticateRequest AuthenticateResponse
  authorize : Method AuthorizeRequest AuthorizeResponse
  check_rate_limit : Method RateLimitCheckRequest RateLimitCheckResponse
  commit_usage : Method CommitUsageRequest Empty
  route : Method RouteRequest RouteResponse
  invoke_start : Method InvokeRequest InvokeStartResponse
  invoke_next : Method InvokeNextRequest InvokeNextResponse
  invoke_cancel : Method InvokeCancelRequest InvokeCancelResponse
  list_models : Method Empty (List ModelInfo)
  cache_lookup : Method CacheLookupRequest CacheLookupResponse
  cache_store : Method CacheStoreRequest Empty
  emit : Method (List GatewayEvent) Empty
  resolve_prompt : Method PromptResolveRequest PromptResolveResponse
  estimate_cost : Method CostEstimateRequest CostEstimateResponse

-- How a call over a connection fails: by `rpc.ErrShutdown`, or by any other error, of the plugin,
-- of the connection or of the context. All of them are texts.
pub data CallError : Type 0 where
  shutdown : CallError
  failed : String → CallError

abbrev pub call_error : CallError → Error
call_error shutdown = plain "connection is shut down"
call_error (failed text) = plain text

-- A `*rpc.Client` by its number.
abbrev pub Conn : Type 0
Conn = ℕ

-- The connections to a plugin's socket, and the field `client` of the client in the store.
pub record Transport (W : Type 0) : Type 1 where
  -- `callOn`: the call, or the end of the context if that is first
  pub call_on : {Req Resp : Type 0} → Method Req Resp → Conn → Req → W → Result CallError Resp × W
  -- `DialContext` and `rpc.NewClient`
  pub dial : W → Result Error Conn × W
  -- `Close` of a connection, whose error is dropped
  pub close : Conn → W → W
  pub client : W → Conn
  pub set_client : Conn → W → W
