-- ===== src/Tests/Doubles.antt =====
-- Requests to a gateway whose plugins are the fakes of the repository's tests.
use vulpes_core.Base.{ℕ, ◌≡◌, refl, Bool, true, false, Option, none, some, [], ◌∷◌, arith, subst}
use vulpes_core.Base.Int.{pos}
use vulpes_core.Base.Dict.{lookup, insert, get_or}
use vulpes_core.Capabilities.{as_upstream}
use vulpes_core.Models
use vulpes_core.Plugins.Registry as Plugins
use vulpes_core.Queue.{new_queue}
use vulpes_core.Pipeline.Platform.{Platform}
use vulpes_core.Pipeline.State.{Pipeline, Reply, zero_response}
use vulpes_core.Pipeline.Exec.{Gateway, ◌>>=◌}
use vulpes_core.Pipeline.Events.{emit, emit_error}
use vulpes_core.Pipeline.Collect.{collect_response, retryable}
use vulpes_core.Pipeline.Attempts.{execute_non_stream, try_routes, max_attempts}
use vulpes_core.Pipeline.Stages.{
  initial_result, authenticate, authorize, resolve_prompt, lookup_cache, check_rate_limit,
}
use vulpes_core.Pipeline.Chat.{select_routes, ask_router, run_chat, execute_chat}
use vulpes_core.Pipeline.Answers.{returned}
use vulpes_core.Pipeline.Spared.{Untouched, provider_named}
use vulpes_core.Pipeline.Unserved.{unserved_spares}
use vulpes_core.Fakes.Requests.{fake_authenticate, fake_route, fake_invoke}
use vulpes_core.Fakes.World.{
  Fakes, fake_authenticator, fake_router, fake_upstream, fake_rate_limiter, fake_cache, fake_lookup,
  fake_check,
}
use vulpes_core.Tests.Fixtures.{config, chat_request, models_config}

abbrev platform : Platform Fakes
platform = record {
  new_uuid = λ w. ("id", w);
  now = λ w. (7, w);
  marshal_messages = λ ms. some "[]";
  marshal_request = λ req. some req.model;
  marshal_response = λ resp. some resp.id;
  marshal_properties = λ m. "{}";
  sha256_hex = λ s. s;
}

abbrev pipeline : Pipeline Fakes
pipeline = record {
  cfg = record config { auth = record { anonymous = false } };
  registry = Plugins.new_registry;
  models = Models.new_registry models_config;
  authn = some fake_authenticator;
  authz = none;
  ratelimit = some fake_rate_limiter;
  router = some fake_router;
  cache = some (fake_cache 7);
  prompt = none;
  cost = none;
  upstreams = ("up", fake_upstream "id" 7) ∷ [];
  blocking_observers = [];
  ready = true;
  missing = [];
}

abbrev fakes : Bool → Bool → Fakes
fakes deny fail_first = record {
  authenticator = record { allow = true; calls = 0 };
  router = record { calls = 0 };
  upstream = record {
    calls = 0;
    fail_first = fail_first;
    stream_error_after_first = false;
    text = "ok";
  };
  rate_limiter = record { deny = deny; calls = 0; commits = 0 };
  cache = record { hit = false; calls = 0; stores = 0; response = zero_response };
  observer = record { block = false; fail = false; calls = 0 };
}

abbrev gateway : Fakes → Gateway Fakes
gateway w = record { events = new_queue (pos 10) (pos 2) (pos 1) "drop_oldest" []; world = w }

-- The upstream provider is not called, nothing is stored, and no usage is committed.
abbrev Idle : Fakes → Type 0
Idle w = (w.upstream.calls ≡ 0) × (w.cache.stores ≡ 0) × (w.rate_limiter.commits ≡ 0)

some-injective : {A : Type 0} {a b : A} → some a ≡ some b → a ≡ b
some-injective h = cc

untouched : Untouched platform pipeline Idle
unfolding fake_authenticate fake_lookup fake_check fake_route
untouched = record {
  new_uuid = λ w q. q;
  now = λ w q. q;
  authenticate =
      λ authn req w same q. subst (λ a. Idle (a.authenticate req w).1) (some-injective same) q;
  authorize = λ authz req w same q. absurd (ground (arith, same));
  resolve_prompt = λ prompt req w same q. absurd (ground (arith, same));
  look_up = λ cache req w same q. subst (λ a. Idle (a.lookup req w).1) (some-injective same) q;
  check = λ ratelimit req w same q. subst (λ a. Idle (a.check req w).1) (some-injective same) q;
  route = λ router req w same q. subst (λ a. Idle (a.route req w).1) (some-injective same) q;
}

-- A request that the rate limiter denies.
abbrev denied : Option Reply
denied =
    returned
      (execute_chat platform pipeline chat_request [] "10.0.0.1" (gateway (fakes true false))).0

abbrev denied_reply : Reply
denied_reply = elim denied [
  | some r ↦ r
  | none ↦ record { result = initial_result "id"; error = none }
]

denies : denied ≡ some denied_reply
unfolding execute_chat new_queue fake_authenticate fake_lookup fake_check fake_route lookup insert
    ◌>>=◌ run_chat authenticate emit authorize resolve_prompt lookup_cache check_rate_limit
denies = refl

no_provider : provider_named denied_reply.result ≡ none
unfolding execute_chat new_queue fake_authenticate fake_lookup fake_check fake_route lookup insert
    ◌>>=◌ run_chat authenticate emit authorize resolve_prompt lookup_cache check_rate_limit
no_provider = refl

unserved_spares_example :
    Idle
      (execute_chat platform pipeline chat_request [] "10.0.0.1"
        (gateway (fakes true false))).1.world
unserved_spares_example =
    unserved_spares platform pipeline untouched chat_request [] "10.0.0.1"
      (gateway (fakes true false)) denied_reply (refl, refl, refl) denies no_provider

-- What a client gets from a provider that fails at first: the number of the attempt that served it.
abbrev served_at : Option Reply → Option ℕ
served_at none = none
served_at (some r) = elim r.error [ some e ↦ none | none ↦ some r.result.fallback_index ]

abbrev recovered : Option ℕ
recovered = served_at (
    returned
      (execute_chat platform pipeline chat_request [] "10.0.0.1" (gateway (fakes false true))).0)

recovers : recovered ≡ some 1
unfolding execute_chat new_queue fake_authenticate fake_lookup fake_check fake_route lookup insert
    ◌>>=◌ run_chat authenticate emit authorize resolve_prompt lookup_cache check_rate_limit
    select_routes Models.candidates get_or Models.new_registry ask_router execute_non_stream
    try_routes max_attempts fake_invoke collect_response emit_error retryable as_upstream
recovers = refl
