-- ===== src/Pipeline/Attempts.antt =====
-- `afterSuccess`, `executeNonStream` and `executeStream`: the routes are tried in their order.
use vulpes_core.Base.{
  ℕ, suc, ◌-◌, String, ◌<>◌, false, Option, none, some, List, [], ◌∷◌, length, take, min,
  if◌then◌else◌, ok, err,
}
use vulpes_core.Base.Int.{ℤ, pos, is_positive, to_ℕ}
use vulpes_core.Base.Dict.{Dict, lookup, insert}
use vulpes_core.Base.Text.{sprint}
use vulpes_core.Base.Value.{no_fields}
use vulpes_core.Capabilities.{
  Usage, Error, plain, upstream, gateway, error_text, SelectedRoute, ChatCompletionRequest,
  CallContext, Identity, Observer, InvokeRequest, CachePolicy,
}
use vulpes_core.Pipeline.Platform.{Platform}
use vulpes_core.Pipeline.State.{Pipeline, ChatResult, Reply, zero_response}
use vulpes_core.Pipeline.Exec.{Exec, pure, finish, call, ◌>>=◌, ◌>>◌}
use vulpes_core.Pipeline.Props.{add_timing, route_event_props, with_transcript_props, cache_key}
use vulpes_core.Pipeline.Events.{emit, emit_error}
use vulpes_core.Pipeline.Collect.{retryable, collect_response}

abbrev pub failure : ChatResult → Error → Reply
failure result e = record { result = result; error = some e }

abbrev pub success : ChatResult → Reply
success result = record { result = result; error = none }

abbrev pub gateway_error : String → String → ℕ → Error
gateway_error code message status = gateway (record {
  error_type = "gateway_error";
  code = code;
  message = message;
  status = pos status;
  details = no_fields;
})

abbrev pub cache_policy : CachePolicy
cache_policy = record { ttl_millis = pos 60000; semantic = false; vary = [] }

-- `len(routes)` or fewer: `min(MaxAttempts, len(routes))`, and all of them where that is not positive.
unfoldable pub max_attempts : ℤ → ℕ → ℕ
max_attempts configured routes =
    if is_positive configured then min (to_ℕ configured) routes else routes

-- `%v` of an error that may be nil
abbrev pub last_error_text : Option Error → String
last_error_text none = "<nil>"
last_error_text (some e) = error_text e

abbrev pub upstream_unavailable : Option Error → Error
upstream_unavailable last =
    gateway_error "upstream_unavailable"
      ("all configured upstream providers failed before response streaming started: "
        <> last_error_text last)
      503

abbrev pub provider_missing : String → Error
provider_missing name = plain ("provider " <> name <> " not configured")

-- The variables that both loops share.
pub record Attempt : Type 0 where
  pub request : ChatCompletionRequest
  pub call_ctx : CallContext
  pub identity : Identity
  pub props : Dict String
  pub started : ℕ

-- The headers that say which route is tried.
abbrev pub route_result : SelectedRoute → ℕ → ChatResult → ChatResult
route_result r i result = record result {
  headers = insert "X-Gateway-Fallback-Index" (sprint i) (
      insert "X-Gateway-Route-Model" r.provider_model
        (insert "X-Gateway-Route-Provider" r.provider_instance result.headers));
  fallback_index = i;
}

abbrev pub invoke_request : Attempt → SelectedRoute → Dict String → InvokeRequest
invoke_request a r route_props = record {
  context = record a.call_ctx { plugin_instance = r.provider_instance };
  identity = a.identity;
  provider_model = r.provider_model;
  request = a.request;
  properties = route_props;
}

module _ {W : Type 0} (P : Platform W) (p : Pipeline W) where
  -- The time since the request started, in nanoseconds.
  abbrev pub elapsed : {R : Type 0} → ℕ → Exec W R ℕ
  elapsed started = do now ← call P.now; pure (now - started)

  -- The error of a store is dropped.
  unfoldable pub store_response :
      ChatCompletionRequest
      → CallContext
      → Identity
      → Dict String
      → ChatResult
      → Exec W Reply (Unit {0})
  store_response req call_ctx identity props result = elim p.cache [
    | none ↦ pure tt
    | some cache ↦ do
      ignored ← call (
          cache.store (record {
            context = call_ctx;
            identity = identity;
            cache_key = cache_key P req identity props;
            response = record { response = result.response; usage = result.usage };
            policy = cache_policy;
          }))
      pure tt
  ]

  -- The error of a commit is dropped.
  unfoldable pub commit_usage : CallContext → Identity → Usage → Exec W Reply (Unit {0})
  commit_usage call_ctx identity usage = elim p.ratelimit [
    | none ↦ pure tt
    | some ratelimit ↦ do
      ignored ←
          call
            (ratelimit.commit (record { context = call_ctx; identity = identity; usage = usage }))
      pure tt
  ]

  -- The loop over the blocking observers ends at the first that fails.
  unfoldable pub notify_blocking :
      List (Observer W) → Identity → Dict String → ChatResult → Exec W Reply (Unit {0})
  notify_blocking [] identity props result = pure tt
  notify_blocking (obs ∷ rest) identity props result = do
    event_id ← call P.new_uuid
    now ← call P.now
    answer ← call (
        obs.emit (
          record {
            event_id = event_id;
            request_id = result.request_id;
            tenant_id = identity.tenant_id;
            event_type = "request.completed";
            timestamp_unix_nano = pos now;
            properties = props;
            usage = result.usage;
            error = [];
          }
          ∷ []))
    elim answer [
      | none ↦ notify_blocking rest identity props result
      | some e ↦ finish (failure result (gateway_error "observer_failed" (error_text e) 500))
    ]

  unfoldable pub after_success : Attempt → Dict String → ChatResult → Exec W Reply (Unit {0})
  unfolding store_response commit_usage notify_blocking
  after_success a route_props result = do
    let props = with_transcript_props P p route_props a.request result.response
    store_response a.request a.call_ctx a.identity props result
    commit_usage a.call_ctx a.identity result.usage
    emit P "request.completed" result.request_id a.identity.tenant_id props (some result.usage)
    notify_blocking p.blocking_observers a.identity props result

  -- What follows both loops: no route is left, or an error is not to be retried.
  unfoldable pub give_up : Attempt → Option Error → ChatResult → Exec W Reply Reply
  give_up a last result = do
    let e = upstream_unavailable last
    t ← elapsed a.started
    emit_error P "request.failed" result.request_id a.identity.tenant_id
        (with_transcript_props P p (add_timing a.props t) a.request zero_response) e
    pure (failure result e)

  -- An attempt failed with `e`: the event, and then the next route if `e` is retryable.
  unfoldable pub attempt_failed :
      Attempt → Dict String → ChatResult → Error → Exec W Reply Reply → Exec W Reply Reply
  unfolding give_up
  attempt_failed a route_props result e next_route = do
    emit_error P "upstream.error" result.request_id a.identity.tenant_id route_props e
    if retryable e then next_route else give_up a (some e) result

  -- The loop of executeNonStream, over the routes from index `i` on.
  unfoldable pub try_routes :
      Attempt → List SelectedRoute → ℕ → Option Error → ChatResult → Exec W Reply Reply
  unfolding attempt_failed after_success give_up
  try_routes a [] i last result = give_up a last result
  try_routes a (r ∷ routes) i last result = elim (lookup r.provider_instance p.upstreams) [
    | none ↦ try_routes a routes (suc i) (some (provider_missing r.provider_instance)) result
    | some up ↦ do
      let result' = route_result r i result
      t ← elapsed a.started
      let route_props = route_event_props a.props r i t
      answer ← call (up.invoke (invoke_request a r route_props))
      elim answer [
        | err e ↦
            attempt_failed a route_props result' e (try_routes a routes (suc i) (some e) result')
        | ok chunks ↦ do
          collected ← collect_response P chunks a.request.model
          elim collected [
            | err e ↦
                attempt_failed a route_props result' (upstream e)
                  (try_routes a routes (suc i) (some (upstream e)) result')
            | ok r ↦ do
              let result'' = record result' { response = r.resp; usage = r.usage }
              after_success a route_props result''
              pure (success result'')
          ]
      ]
  ]

  unfoldable pub execute_non_stream : Attempt → List SelectedRoute → ChatResult → Exec W Reply Reply
  execute_non_stream a routes result =
      try_routes a (take (max_attempts p.cfg.fallbacks.max_attempts (length routes)) routes) 0 none
        result

  -- The loop of executeStream, over the routes from index `i` on. A provider that is not configured
  -- leaves no error behind here.
  unfoldable pub try_streams :
      Attempt → List SelectedRoute → ℕ → Option Error → ChatResult → Exec W Reply Reply
  unfolding attempt_failed give_up
  try_streams a [] i last result = give_up a last result
  try_streams a (r ∷ routes) i last result = elim (lookup r.provider_instance p.upstreams) [
    | none ↦ try_streams a routes (suc i) last result
    | some up ↦ do
      let result' = route_result r i result
      t ← elapsed a.started
      let route_props = route_event_props a.props r i t
      answer ← call (up.invoke (invoke_request a r route_props))
      elim answer [
        | err e ↦
            attempt_failed a route_props result' e (try_streams a routes (suc i) (some e) result')
        | ok chunks ↦ pure (
            success (record result' {
              stream = some (record {
                chunks = chunks;
                request_id = result.request_id;
                call_ctx = a.call_ctx;
                identity = a.identity;
                request = a.request;
                route_props = route_props;
                started = a.started;
              });
            }))
      ]
  ]

  unfoldable pub execute_stream : Attempt → List SelectedRoute → ChatResult → Exec W Reply Reply
  execute_stream a routes result =
      try_streams a (take (max_attempts p.cfg.fallbacks.max_attempts (length routes)) routes) 0 none
        result
