-- ===== src/Tests/Requests.antt =====
-- Compiling the configured pipeline, and requests to it, at concrete inputs.
use vulpes_core.Base.{
  ℕ, ◌<◌, String, ◌≡◌, ◌≢◌, refl, sym, ap, ◌∙◌, Bool, true, false, not, ◌||◌, ◌∷◌, Option, none,
  some, List, [], ◌++◌, Result, ok, map, arith, ◌==◌,
}
use vulpes_core.Base.Int.{pos}
use vulpes_core.Base.Dict.{Dict, lookup, insert}
use vulpes_core.Capabilities.{
  UpstreamError, authenticator_cap, router_cap, upstream_provider_cap, SelectedRoute,
}
use vulpes_core.Models
use vulpes_core.Queue.{Queue, new_queue}
use vulpes_core.Plugins.Registry.{upstream_provider}
use vulpes_core.Plugins.Registry as Plugins
use vulpes_core.Pipeline.State.{Pipeline, Reply, Relay, zero_response}
use vulpes_core.Pipeline.Exec.{Gateway, next}
use vulpes_core.Pipeline.Props.{cache_key}
use vulpes_core.Pipeline.Compile.{
  compile, is_empty, optional, required, find_upstreams, find_observers,
}
use vulpes_core.Pipeline.Readiness.{registered, unless, compile_missing}
use vulpes_core.Pipeline.CacheKey.{stored_props, cache_key-stored}
use vulpes_core.Pipeline.Attempts.{Attempt, max_attempts}
use vulpes_core.Pipeline.Stages.{initial_result, anonymous_identity, new_context}
use vulpes_core.Pipeline.Chat.{execute_chat}
use vulpes_core.Pipeline.Total.{Tagged}
use vulpes_core.Pipeline.Answers.{returned, execute_chat_answers}
use vulpes_core.Pipeline.Served.{nth, ServedBy}
use vulpes_core.Pipeline.Routed.{attempts, attempts_served}
use vulpes_core.Pipeline.Collect.{Response, collect_response}
use vulpes_core.Pipeline.Collects.{Collects, collect_response_lem}
use vulpes_core.HttpApi.Defs.{write_stream, data_line}
use vulpes_core.HttpApi.Written.{before_error, write_stream_lem}
use vulpes_core.Tests.Fixtures.{
  hello, shown, platform, config, registry, router, up, models_config, chat_request, route_to,
}

abbrev pub pipeline : Pipeline ℕ
pipeline = record {
  cfg = config;
  registry = registry;
  models = Models.new_registry models_config;
  authn = none;
  authz = none;
  ratelimit = none;
  router = some router;
  cache = none;
  prompt = none;
  cost = none;
  upstreams = ("up", up) ∷ [];
  blocking_observers = [];
  ready = true;
  missing = [];
}

abbrev pub queue : Queue ℕ
queue = new_queue (pos 10) (pos 2) (pos 1) "drop_oldest" []

pub compiles : compile registry config (Models.new_registry models_config) ≡ ok (pipeline, queue)
unfolding compile lookup insert optional find_upstreams upstream_provider find_observers required
    Plugins.router
compiles = refl

compile_missing_example :
    ([]
      ≡ unless (true || registered registry authenticator_cap "") authenticator_cap
        ++ unless (registered registry router_cap "rt") router_cap
        ++ unless (not (is_empty {A = String} ("up" ∷ []))) upstream_provider_cap)
    × (true ≡ true)
compile_missing_example =
    compile_missing registry config (Models.new_registry models_config) {p = pipeline} {q = queue}
      compiles

abbrev pub gateway : Gateway ℕ
gateway = record { events = queue; world = 0 }

execute_chat_answers_example :
    (r : Reply) × (returned (execute_chat platform pipeline chat_request [] "10.0.0.1" gateway).0
      ≡ some r)
    × Tagged "id" r.result
execute_chat_answers_example =
    execute_chat_answers registry config (Models.new_registry models_config) {p = pipeline}
      {q = queue} platform chat_request [] "10.0.0.1" gateway compiles

abbrev pub attempt : Attempt
attempt = record {
  request = chat_request;
  call_ctx = new_context "id";
  identity = anonymous_identity;
  props = [];
  started = 0;
}

abbrev routes : List SelectedRoute
routes = route_to "gone" ∷ route_to "up" ∷ []

attempts_served_example :
    (reply : Reply) × (attempts platform pipeline false attempt routes (initial_result "id") gateway
      ≡ some reply)
    × (reply.error ≡ none
        → (k : ℕ) × (r : SelectedRoute) × (k < max_attempts (pos 3) 2)
          × (nth k routes ≡ some r)
          × ServedBy pipeline reply.result k r)
attempts_served_example =
    attempts_served platform pipeline false attempt routes (initial_result "id") gateway

shown-none : (o : Option String) → "{}" ≡ shown o → o ≡ none
shown-none none h = refl
shown-none (some v) h =
    let differ : ◌≡◌ {A = Bool} true false = ap (λ s. s == "{}") h in ground (arith, differ)

-- The fixture's encoding shows whether the key is there.
shows :
    (m m' : Dict String)
    → platform.marshal_properties m ≡ platform.marshal_properties m'
    → lookup "duration_ms" m ≡ none
    → lookup "duration_ms" m' ≡ none
shows m m' same absent = shown-none (lookup "duration_ms" m') (ap shown (sym absent) ∙ same)

cache_key-stored_example :
    (looked_up stored : String) × (cache_key platform chat_request anonymous_identity []
      ≡ looked_up)
    × (cache_key platform chat_request anonymous_identity
          (stored_props platform pipeline [] (route_to "up") 0 5 chat_request zero_response)
        ≡ stored)
    × (looked_up ≢ stored)
unfolding lookup
cache_key-stored_example =
    cache_key-stored platform pipeline shows chat_request anonymous_identity [] (route_to "up") 0 5
      zero_response refl

abbrev pub job : Relay
job = record {
  chunks = hello ∷ hello ∷ [];
  request_id = "id";
  call_ctx = new_context "id";
  identity = anonymous_identity;
  request = chat_request;
  route_props = [];
  started = 0;
}

collect_response_lem_example :
    (out : Result UpstreamError Response) × ((collect_response {R = Reply} platform
        (hello ∷ hello ∷ [])
        "fast"
        gateway).0
      ≡ next out)
    × Collects (hello ∷ hello ∷ []) out
collect_response_lem_example = collect_response_lem platform (hello ∷ hello ∷ []) "fast" gateway

write_stream_lem_example :
    write_stream (λ c. c.id) (λ e. e.code) (hello ∷ hello ∷ [])
    ≡ map (data_line (λ c. c.id)) (before_error (hello ∷ hello ∷ [])) ++ "data: [DONE]\n\n" ∷ []
write_stream_lem_example = write_stream_lem (λ c. c.id) (λ e. e.code) (hello ∷ hello ∷ [])
