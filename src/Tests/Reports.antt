-- ===== src/Tests/Reports.antt =====
-- The errors that the attempts at a request report, at concrete inputs.
use vulpes_core.Base.{ℕ, suc, ◌≡◌, refl, true, List, [], ◌∷◌, ◌++◌, take, Option, none, some, err}
use vulpes_core.Base.Dict.{lookup}
use vulpes_core.Capabilities.{plain, as_upstream, UpstreamProvider, SelectedRoute}
use vulpes_core.Pipeline.State.{Pipeline, Reply}
use vulpes_core.Pipeline.Stages.{initial_result}
use vulpes_core.Pipeline.Answers.{returned}
use vulpes_core.Pipeline.Trace.{Action, labels, replay}
use vulpes_core.Pipeline.Lifetime.{retries}
use vulpes_core.Pipeline.Exec.{◌>>=◌}
use vulpes_core.Pipeline.Events.{emit_error}
use vulpes_core.Pipeline.Attempts.{execute_stream, try_streams, attempt_failed, max_attempts}
use vulpes_core.Pipeline.Collect.{retryable}
use vulpes_core.Pipeline.Reported.{configured, try_all, ended, attempts_reported}
use vulpes_core.Queue.{new_queue, enqueue}
use vulpes_core.Tests.Fixtures.{platform, up, route_to}
use vulpes_core.Tests.Requests.{pipeline, queue, gateway, attempt}

abbrev down : UpstreamProvider ℕ
down = record up { invoke = λ req w. (err (plain "refused"), suc w) }

abbrev two_providers : Pipeline ℕ
two_providers = record pipeline { upstreams = ("down", down) ∷ ("up", up) ∷ [] }

-- The first route has no provider, that of the second one fails, and the third one serves.
abbrev three_routes : List SelectedRoute
three_routes = route_to "gone" ∷ route_to "down" ∷ route_to "up" ∷ []

abbrev third : Option Reply
third =
    returned
      (try_all platform two_providers true attempt three_routes (initial_result "id") gateway).0

abbrev third_reply : Reply
third_reply = elim third [
  | some r ↦ r
  | none ↦ record { result = initial_result "id"; error = none }
]

served_third : third ≡ some third_reply
unfolding execute_stream try_streams max_attempts lookup attempt_failed emit_error ◌>>=◌ retryable
    new_queue enqueue as_upstream
served_third = refl

no_error : third_reply.error ≡ none
unfolding execute_stream try_streams max_attempts lookup attempt_failed emit_error ◌>>=◌ retryable
    new_queue enqueue as_upstream
no_error = refl

attempts_reported_example :
    (acts : List Action) × ((try_all platform two_providers true attempt three_routes
        (initial_result "id")
        gateway).1.events
      ≡ replay acts queue)
    × (labels acts
        ≡ retries
            (configured two_providers (
              take third_reply.result.fallback_index
                (take (max_attempts two_providers.cfg.fallbacks.max_attempts 3) three_routes)))
            "id"
          ++ ended true "id")
attempts_reported_example =
    attempts_reported platform two_providers true attempt three_routes (initial_result "id") gateway
      third_reply served_third no_error

-- One error is reported.
one_error :
    retries (configured two_providers (take third_reply.result.fallback_index three_routes)) "id"
    ≡ ("id", "upstream.error") ∷ []
unfolding execute_stream try_streams max_attempts lookup attempt_failed emit_error ◌>>=◌ retryable
    new_queue enqueue as_upstream
one_error = refl
