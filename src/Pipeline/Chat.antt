-- ===== src/Pipeline/Chat.antt =====
-- `ExecuteChat`: the stages in their order, the routes, and the attempts.
use vulpes_core.Base.{String, Option, none, some, List, [], ◌∷◌, if◌then◌else◌, ok, err}
use vulpes_core.Base.Dict.{Dict, insert}
use vulpes_core.Capabilities.{
  Router, missing, error_text, ChatCompletionRequest, RequestSummary, SelectedRoute, RouteRequest,
}
use vulpes_core.Models
use vulpes_core.Pipeline.Platform.{Platform}
use vulpes_core.Pipeline.State.{Pipeline, ChatResult, Reply, zero_constraints}
use vulpes_core.Pipeline.Exec.{Exec, pure, finish, fault, call, ◌>>=◌, ◌>>◌}
use vulpes_core.Pipeline.Props.{extract_properties, estimate_tokens, route_event_props}
use vulpes_core.Pipeline.Events.{emit}
use vulpes_core.Pipeline.Attempts.{
  Attempt, failure, gateway_error, elapsed, execute_non_stream, execute_stream,
}
use vulpes_core.Pipeline.Stages.{
  initial_result, new_context, request_summary, Caller, Routes, authenticate, authorize,
  resolve_prompt, lookup_cache, check_rate_limit,
}

unfoldable pub first_route : {W : Type 0} → ChatResult → List SelectedRoute → Exec W Reply Routes
first_route result [] =
    finish (failure result (gateway_error "no_route_available" "router returned no routes" 503))
first_route result (r ∷ rs) = pure (record { first = r; rest = rs })

unfoldable pub ask_router :
    {W : Type 0} → Option (Router W) → RouteRequest → ChatResult → Exec W Reply Routes
unfolding first_route
ask_router none request result = fault
ask_router (some router) request result = do
  answer ← call (router.route request)
  elim answer [ err e ↦ finish (failure result e) | ok resp ↦ first_route result resp.routes ]

module _ {W : Type 0} (P : Platform W) (p : Pipeline W) where
  unfoldable pub select_routes :
      Caller → ChatCompletionRequest → RequestSummary → ChatResult → Exec W Reply Routes
  select_routes caller req summary result = elim (Models.candidates p.models req.model) [
    | err e ↦ finish (failure result (gateway_error "model_not_found" (error_text e) 404))
    | ok candidates ↦
        ask_router p.router
          (record {
            context = caller.call_ctx;
            identity = caller.identity;
            requested_model = req.model;
            request = summary;
            candidates = candidates;
            constraints = zero_constraints;
          })
          result
  ]

  -- The rest of ExecuteChat behind the test of readiness.
  unfoldable pub run_chat :
      ChatCompletionRequest → Dict String → String → ChatResult → Exec W Reply Reply
  run_chat req headers source_ip result = do
    started ← call P.now
    let props = insert "requested_model" req.model (extract_properties headers)
    let tokens = estimate_tokens P req
    caller ← authenticate P p (new_context result.request_id) headers source_ip result
    emit P "request.started" result.request_id caller.identity.tenant_id props none
    authorize P p caller (request_summary req.model tokens props) result
    resolved ← resolve_prompt P p caller req props result
    let req' = resolved.request
    let props' = resolved.props
    result' ← lookup_cache P p caller req' props' result
    result'' ← check_rate_limit P p caller req' tokens props' result'
    routes ← select_routes caller req' (request_summary req.model tokens props') result''
    t ← elapsed P p started
    emit P "route.selected" result.request_id caller.identity.tenant_id
        (route_event_props props' routes.first 0 t) none
    let a : Attempt = record {
      request = req';
      call_ctx = caller.call_ctx;
      identity = caller.identity;
      props = props';
      started = started;
    }
    if req'.stream
        then execute_stream P p a (routes.first ∷ routes.rest) result''
        else execute_non_stream P p a (routes.first ∷ routes.rest) result''

  unfoldable pub execute_chat : ChatCompletionRequest → Dict String → String → Exec W Reply Reply
  execute_chat req headers source_ip = do
    request_id ← call P.new_uuid
    let result = initial_result request_id
    if p.ready
        then run_chat req headers source_ip result
        else pure (failure result (missing p.missing))
