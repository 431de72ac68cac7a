-- ===== src/Tests/Events.antt =====
-- The events of requests and of streams, at concrete inputs.
use vulpes_core.Base.{
  ℕ, false, true, Option, none, ◌+◌, ◌≤◌, ◌≡◌, refl, List, [], ◌∷◌, ◌++◌, map, length, some,
}
use vulpes_core.Models
use vulpes_core.Queue.{new_queue}
use vulpes_core.Pipeline.State.{Reply, Relay}
use vulpes_core.Pipeline.Exec.{Gateway, next, ◌>>=◌}
use vulpes_core.Pipeline.Chat.{select_routes, ask_router, run_chat, execute_chat}
use vulpes_core.Pipeline.Stream.{relay}
use vulpes_core.Pipeline.Answers.{returned}
use vulpes_core.Pipeline.Trace.{Action, labels, replay}
use vulpes_core.Pipeline.Protocol.{outcome, Protocol}
use vulpes_core.Pipeline.Sent.{execute_chat_ignores_queue}
use vulpes_core.Pipeline.Told.{label, execute_chat_events}
use vulpes_core.Pipeline.Streamed.{error_labels, end_label}
use vulpes_core.Pipeline.Lifetime.{retries, streamed_events}
use vulpes_core.Pipeline.Relays.{any_error}
use vulpes_core.Pipeline.Events.{emit}
use vulpes_core.Base.Dict.{lookup, insert, get_or}
use vulpes_core.Capabilities.{ChatCompletionRequest}
use vulpes_core.Pipeline.Stages.{
  initial_result, authenticate, authorize, resolve_prompt, lookup_cache, check_rate_limit,
}
use vulpes_core.Pipeline.Attempts.{execute_stream, try_streams, max_attempts}
use vulpes_core.Tests.Fixtures.{platform, config, registry, models_config, chat_request, event}
use vulpes_core.Tests.Requests.{pipeline, queue, compiles, gateway, job}

-- A queue that has room for nothing.
abbrev crowded : Gateway ℕ
crowded = record {
  events = record queue { events = event "a" ∷ []; cap = 1; overflow = "fail" };
  world = 0;
}

execute_chat_ignores_queue_example :
    ((execute_chat platform pipeline chat_request [] "10.0.0.1" gateway).0
      ≡ (execute_chat platform pipeline chat_request [] "10.0.0.1" crowded).0)
    × ((execute_chat platform pipeline chat_request [] "10.0.0.1" gateway).1.world
        ≡ (execute_chat platform pipeline chat_request [] "10.0.0.1" crowded).1.world)
execute_chat_ignores_queue_example =
    execute_chat_ignores_queue platform pipeline chat_request [] "10.0.0.1" gateway crowded refl

execute_chat_events_example :
    (r : Reply) × (acts : List Action) × (returned
        (execute_chat platform pipeline chat_request [] "10.0.0.1" gateway).0
      ≡ some r)
    × ((execute_chat platform pipeline chat_request [] "10.0.0.1" gateway).1.events
        ≡ replay acts queue)
    × Protocol "id" false (outcome r) (labels acts)
    × (0 + length (labels acts) ≤ 10
        → map label
            (execute_chat platform pipeline chat_request [] "10.0.0.1" gateway).1.events.events
          ≡ labels acts)
unfolding new_queue
execute_chat_events_example =
    execute_chat_events platform registry config (Models.new_registry models_config) {p = pipeline}
      {q = queue} chat_request [] "10.0.0.1" gateway compiles

abbrev streaming_request : ChatCompletionRequest
streaming_request = record chat_request { stream = true }

abbrev streamed : Option Reply
streamed = returned (execute_chat platform pipeline streaming_request [] "10.0.0.1" gateway).0

abbrev streamed_reply : Reply
streamed_reply = elim streamed [
  | some r ↦ r
  | none ↦ record { result = initial_result "id"; error = none }
]

abbrev stream_of : Option Relay → Relay
stream_of (some j) = j
stream_of none = job

abbrev streamed_job : Relay
streamed_job = stream_of streamed_reply.result.stream

is_streamed : streamed ≡ some streamed_reply
unfolding execute_chat ◌>>=◌ run_chat authenticate emit authorize resolve_prompt lookup_cache
    check_rate_limit new_queue lookup insert select_routes Models.candidates get_or
    Models.new_registry ask_router execute_stream try_streams max_attempts
is_streamed = refl

is_fine : streamed_reply.error ≡ none
unfolding execute_chat ◌>>=◌ run_chat authenticate emit authorize resolve_prompt lookup_cache
    check_rate_limit new_queue lookup insert select_routes Models.candidates get_or
    Models.new_registry ask_router execute_stream try_streams max_attempts
is_fine = refl

has_stream : streamed_reply.result.stream ≡ some streamed_job
unfolding execute_chat ◌>>=◌ run_chat authenticate emit authorize resolve_prompt lookup_cache
    check_rate_limit new_queue lookup insert select_routes Models.candidates get_or
    Models.new_registry ask_router execute_stream try_streams max_attempts
has_stream = refl

streamed_events_example :
    let relayed =
      relay platform pipeline streamed_job
        (execute_chat platform pipeline streaming_request [] "10.0.0.1" gateway).1 in
    (acts : List Action) × (k : ℕ) × (relayed.0 ≡ next streamed_job.chunks)
    × (relayed.1.events ≡ replay acts queue)
    × (labels acts
        ≡ (("id", "request.started") ∷ ("id", "route.selected") ∷ retries k "id")
          ++ (error_labels "id" streamed_job.chunks
              ++ end_label "id" (any_error streamed_job.chunks) ∷ []))
streamed_events_example =
    streamed_events registry config (Models.new_registry models_config) {p = pipeline} {q = queue}
      platform streaming_request [] "10.0.0.1" gateway streamed_reply streamed_job compiles
      is_streamed is_fine has_stream
