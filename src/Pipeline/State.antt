-- ===== src/Pipeline/State.antt =====
-- The records of internal/pipeline/pipeline.go. Compile fixes everything in a pipeline but its queue
-- of events, which is in the `Gateway` that the actions work on. A nil interface is `none`.
use vulpes_core.Base.{ℕ, String, Bool, List, [], Option}
use vulpes_core.Base.Int.{pos}
use vulpes_core.Base.Dict.{Dict}
use vulpes_core.Base.Value.{Float64, null, str}
use vulpes_core.Capabilities.{
  Authenticator, Authorizer, RateLimiter, Router, UpstreamProvider, CacheProvider, Observer,
  PromptProvider, CostProvider, CapabilityType, ChatCompletionRequest, ChatCompletionResponse,
  ResponseChunk, Usage, CallContext, Identity, Error, ChatMessage, ChatChoice, RequestConstraints,
}
use vulpes_core.Config.{Config}
use vulpes_core.Models.{ModelRegistry}
use vulpes_core.Plugins.Registry.{Registry}

pub record Pipeline (W : Type 0) : Type 0 where
  pub cfg : Config
  pub registry : Registry W
  pub models : ModelRegistry
  pub authn : Option (Authenticator W)
  pub authz : Option (Authorizer W)
  pub ratelimit : Option (RateLimiter W)
  pub router : Option (Router W)
  pub cache : Option (CacheProvider W)
  pub prompt : Option (PromptProvider W)
  pub cost : Option (CostProvider W)
  pub upstreams : Dict (UpstreamProvider W)
  pub blocking_observers : List (Observer W)
  pub ready : Bool
  pub missing : List CapabilityType

-- What the goroutine of executeStream holds: the channel of the provider and the variables that the
-- goroutine closes over. The stream of a result is this job until the goroutine has run.
pub record Relay : Type 0 where
  pub chunks : List ResponseChunk
  pub request_id : String
  pub call_ctx : CallContext
  pub identity : Identity
  pub request : ChatCompletionRequest
  pub route_props : Dict String
  pub started : ℕ

-- `Result` of the pipeline.
pub record ChatResult : Type 0 where
  pub request_id : String
  pub response : ChatCompletionResponse
  pub stream : Option Relay
  pub usage : Usage
  pub headers : Dict String
  pub fallback_index : ℕ

-- What ExecuteChat returns.
pub record Reply : Type 0 where
  pub result : ChatResult
  pub error : Option Error

abbrev zero_float : Float64
zero_float = record { bits = 0 }

abbrev pub zero_usage : Usage
zero_usage = record {
  provider_instance = "";
  provider_model = "";
  input_tokens = pos 0;
  output_tokens = pos 0;
  total_tokens = pos 0;
  cost_usd = zero_float;
}

abbrev pub zero_response : ChatCompletionResponse
zero_response = record {
  id = "";
  object = "";
  created = pos 0;
  model = "";
  choices = [];
  usage = [];
}

abbrev pub zero_message : ChatMessage
zero_message = record { role = ""; content = null; name = ""; tool_call_id = ""; tool_calls = [] }

-- The one choice of a response that the gateway makes up.
abbrev pub assistant_choice : String → String → ChatChoice
assistant_choice text finish_reason = record {
  index = pos 0;
  message = record zero_message { role = "assistant"; content = str text };
  delta = zero_message;
  finish_reason = finish_reason;
}

abbrev pub zero_constraints : RequestConstraints
zero_constraints = record {
  allowed_models = [];
  max_output_tokens = pos 0;
  max_estimated_cost_usd = zero_float;
  allowed_regions = [];
}
