-- ===== src/Capabilities/Chat.antt =====
-- internal/capabilities/types.go: the chat protocol, its requests, responses and stream chunks, and
-- what the gateway knows of a caller.
use vulpes_core.Base.{ℕ, String, Bool, List, Option}
use vulpes_core.Base.Int.{ℤ}
use vulpes_core.Base.Dict.{Dict}
use vulpes_core.Base.Value.{Value, Fields, Float64}

pub record CallContext : Type 0 where
  pub request_id : String
  pub tenant_id : String
  pub deadline : Option ℕ
  pub trace_context : Dict String
  pub gateway_version : String
  pub plugin_instance : String

pub record Diagnostic : Type 0 where
  pub severity : String
  pub code : String
  pub message : String
  pub details : Dict String

pub record Identity : Type 0 where
  pub subject : String
  pub tenant_id : String
  pub groups : List String
  pub claims : Dict String
  pub auth_method : String

pub record RequestSummary : Type 0 where
  pub operation : String
  pub requested_model : String
  pub estimated_input_tokens : ℤ
  pub properties : Dict String

pub record RequestConstraints : Type 0 where
  pub allowed_models : List String
  pub max_output_tokens : ℤ
  pub max_estimated_cost_usd : Float64
  pub allowed_regions : List String

pub record Usage : Type 0 where
  pub provider_instance : String
  pub provider_model : String
  pub input_tokens : ℤ
  pub output_tokens : ℤ
  pub total_tokens : ℤ
  pub cost_usd : Float64

pub record ToolCallFunction : Type 0 where
  pub name : String
  pub arguments : String

pub record ToolCall : Type 0 where
  pub index : ℤ
  pub id : String
  pub type : String
  pub function : ToolCallFunction

pub record ChatMessage : Type 0 where
  pub role : String
  pub content : Value
  pub name : String
  pub tool_call_id : String
  pub tool_calls : List ToolCall

pub record ChatCompletionRequest : Type 0 where
  pub model : String
  pub messages : List ChatMessage
  pub stream : Bool
  pub temperature : Option Float64
  pub max_tokens : Option ℤ
  pub tools : Value
  pub tool_choice : Value
  pub metadata : Value
  pub extra : Fields

pub record ChatChoice : Type 0 where
  pub index : ℤ
  pub message : ChatMessage
  pub delta : ChatMessage
  pub finish_reason : String

pub record ChatCompletionResponse : Type 0 where
  pub id : String
  pub object : String
  pub created : ℤ
  pub model : String
  pub choices : List ChatChoice
  pub usage : Dict ℤ

pub record ChatCompletionChunk : Type 0 where
  pub id : String
  pub object : String
  pub created : ℤ
  pub model : String
  pub choices : List ChatChoice

pub record UpstreamError : Type 0 where
  pub code : String
  pub message : String
  pub http_status : ℤ
  pub retryable : Bool
  pub rate_limited : Bool

pub record ResponseChunk : Type 0 where
  pub chunk : Option ChatCompletionChunk
  pub usage : Option Usage
  pub error : Option UpstreamError
