-- ===== src/Pipeline/Stages.antt =====
-- The stages of `ExecuteChat` before the routes are chosen, each of which may end the request:
-- authentication, authorization, the prompt, the cache and the rate limit.
use vulpes_core.Base.{String, Option, none, some, List, [], ◌∷◌, ◌==◌, if◌then◌else◌, ok, err}
use vulpes_core.Base.Int.{ℤ, pos, is_positive}
use vulpes_core.Base.Dict.{Dict, insert, merge, get_or}
use vulpes_core.Base.Text.{sprint_int}
use vulpes_core.Base.Value.{int, entry, no_fields}
use vulpes_core.Capabilities.{
  Error, gateway, error_text, CallContext, Identity, ChatCompletionRequest, RequestSummary,
  SelectedRoute, RateLimitCheckResponse, ChatMessage,
}
use vulpes_core.Pipeline.Platform.{Platform}
use vulpes_core.Pipeline.State.{Pipeline, ChatResult, Reply, zero_response, zero_usage}
use vulpes_core.Pipeline.Exec.{Exec, pure, finish, fault, call, ◌>>=◌, ◌>>◌}
use vulpes_core.Pipeline.Props.{prompt_variables, cache_key}
use vulpes_core.Pipeline.Events.{emit, update_shared}
use vulpes_core.Pipeline.Attempts.{failure, success, gateway_error, cache_policy}

abbrev pub initial_result : String → ChatResult
initial_result request_id = record {
  request_id = request_id;
  response = zero_response;
  stream = none;
  usage = zero_usage;
  headers = insert "X-Gateway-Cache" "BYPASS" (insert "X-Gateway-Request-Id" request_id []);
  fallback_index = 0;
}

abbrev pub anonymous_identity : Identity
anonymous_identity = record {
  subject = "anonymous";
  tenant_id = "anonymous";
  groups = [];
  claims = [];
  auth_method = "anonymous";
}

abbrev pub new_context : String → CallContext
new_context request_id = record {
  request_id = request_id;
  tenant_id = "";
  deadline = none;
  trace_context = [];
  gateway_version = "dev";
  plugin_instance = "";
}

abbrev pub request_summary : String → ℤ → Dict String → RequestSummary
request_summary model tokens props = record {
  operation = "chat.completions";
  requested_model = model;
  estimated_input_tokens = tokens;
  properties = props;
}

-- The caller, and the context that names its tenant.
pub record Caller : Type 0 where
  pub identity : Identity
  pub call_ctx : CallContext

-- `ref == ""` takes the next one.
abbrev pub or_else : String → String → String
or_else s fallback = if s == "" then fallback else s

-- The request and the properties, as they are after the prompt is resolved.
pub record Resolved : Type 0 where
  pub request : ChatCompletionRequest
  pub props : Dict String

pub record Routes : Type 0 where
  pub first : SelectedRoute
  pub rest : List SelectedRoute

abbrev pub cache_header : String → ChatResult → ChatResult
cache_header value result = record result {
  headers = insert "X-Gateway-Cache" value result.headers;
}

abbrev pub requested_tokens : Option ℤ → ℤ
requested_tokens none = pos 0
requested_tokens (some n) = n

abbrev pub limit_headers : RateLimitCheckResponse → ChatResult → ChatResult
limit_headers rl result =
    if is_positive rl.state.request_limit
    then record result {
      headers = insert "X-Gateway-RateLimit-Reset" (sprint_int rl.state.reset_unix_nano) (
          insert "X-Gateway-RateLimit-Remaining" (sprint_int rl.state.request_remaining) (
            insert "X-Gateway-RateLimit-Limit" (sprint_int rl.state.request_limit) result.headers));
    }
    else result

abbrev pub rate_limit_error : RateLimitCheckResponse → Error
rate_limit_error rl = gateway (record {
  error_type = "gateway_error";
  code = "rate_limit_exceeded";
  message = rl.deny_reason;
  status = pos 429;
  details = entry "retry_after_ms" (int rl.retry_after_ms) no_fields;
})

-- An answer without messages changes nothing.
unfoldable pub use_prompt :
    {W : Type 0}
    → List ChatMessage
    → Dict String
    → String
    → ChatCompletionRequest
    → Dict String
    → Exec W Reply Resolved
use_prompt [] properties request_id req props = pure (record { request = req; props = props })
use_prompt (m ∷ ms) properties request_id req props = do
  let props' = merge props properties
  update_shared request_id props'
  pure (record { request = record req { messages = m ∷ ms }; props = props' })

module _ {W : Type 0} (P : Platform W) (p : Pipeline W) where
  unfoldable pub authenticate :
      CallContext → Dict String → String → ChatResult → Exec W Reply Caller
  authenticate call_ctx headers source_ip result =
      if p.cfg.auth.anonymous
      then pure (record { identity = anonymous_identity; call_ctx = call_ctx })
      else (elim p.authn [
        | none ↦ fault
        | some authn ↦ do
          answer ← call (
              authn.authenticate (record {
                context = call_ctx;
                headers = headers;
                source_ip = source_ip;
                method = "POST";
                path = "/v1/chat/completions";
              }))
          elim answer [
            | err e ↦
                finish (failure result (gateway_error "authentication_failed" (error_text e) 401))
            | ok auth ↦
                if auth.allow
                then pure (record {
                  identity = auth.identity;
                  call_ctx = record call_ctx { tenant_id = auth.identity.tenant_id };
                })
                else finish
                    (failure result (gateway_error "authentication_failed" auth.deny_reason 401))
          ]
      ])

  unfoldable pub authorize : Caller → RequestSummary → ChatResult → Exec W Reply (Unit {0})
  authorize caller summary result = elim p.authz [
    | none ↦ pure tt
    | some authz ↦ do
      answer ← call (
          authz.authorize
            (record { context = caller.call_ctx; identity = caller.identity; request = summary }))
      elim answer [
        | err e ↦ finish (failure result e)
        | ok az ↦
            if az.allow
            then pure tt
            else finish (failure result (gateway_error "authorization_denied" az.deny_reason 403))
      ]
  ]

  unfoldable pub resolve_prompt :
      Caller → ChatCompletionRequest → Dict String → ChatResult → Exec W Reply Resolved
  unfolding use_prompt
  resolve_prompt caller req props result = elim p.prompt [
    | none ↦ pure (record { request = req; props = props })
    | some prompt ↦ do
      let ref =
          or_else (get_or "context-key" "" props) (or_else (get_or "prompt-ref" "" props) req.model)
      answer ← call (
          prompt.resolve_prompt (record {
            context = caller.call_ctx;
            identity = caller.identity;
            prompt_ref = ref;
            version = "";
            variables = prompt_variables P props req caller.identity;
          }))
      elim answer [
        | err e ↦ finish (failure result e)
        | ok pr ↦ use_prompt pr.messages pr.properties result.request_id req props
      ]
  ]

  unfoldable pub lookup_cache :
      Caller → ChatCompletionRequest → Dict String → ChatResult → Exec W Reply ChatResult
  lookup_cache caller req props result = elim p.cache [
    | none ↦ pure result
    | some cache ↦ if req.stream then pure result else (do
      answer ← call (
          cache.lookup (record {
            context = caller.call_ctx;
            identity = caller.identity;
            cache_key = cache_key P req caller.identity props;
            policy = cache_policy;
          }))
      elim answer [
        | err e ↦ pure (cache_header "MISS" result)
        | ok lk ↦
            if lk.hit
            then (do
              let hit = record (cache_header "HIT" result) {
                response = lk.response.response;
                usage = lk.response.usage;
              }
              emit P "cache.hit" result.request_id caller.identity.tenant_id props (some hit.usage)
              finish (success hit))
            else pure (cache_header "MISS" result)
      ])
  ]

  -- Every decision but `deny` lets the request through.
  unfoldable pub check_rate_limit :
      Caller → ChatCompletionRequest → ℤ → Dict String → ChatResult → Exec W Reply ChatResult
  check_rate_limit caller req tokens props result = elim p.ratelimit [
    | none ↦ pure result
    | some ratelimit ↦ do
      answer ← call (
          ratelimit.check (record {
            context = caller.call_ctx;
            identity = caller.identity;
            model = req.model;
            estimated_input_tokens = tokens;
            requested_output_tokens = requested_tokens req.max_tokens;
            properties = props;
          }))
      elim answer [
        | err e ↦ finish (failure result e)
        | ok rl ↦
            let result' = limit_headers rl result in
            if rl.decision == "deny"
            then finish (failure result' (rate_limit_error rl))
            else pure result'
      ]
  ]
