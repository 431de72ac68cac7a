-- ===== src/Fakes/World.antt =====
-- The rate limiter, the cache and the observer, and one fake of each kind as the world.
use vulpes_core.Base.{
  ℕ, suc, String, Bool, Option, none, some, List, [], ◌∷◌, ◌==◌, if◌then◌else◌, Result, ok,
}
use vulpes_core.Base.Int.{pos}
use vulpes_core.Capabilities.{
  Error, plain, Authenticator, Router, UpstreamProvider, RateLimiter, RateLimitCheckRequest,
  RateLimitCheckResponse, RateLimitState, CommitUsageRequest, CacheProvider, CacheLookupRequest,
  CacheLookupResponse, CacheStoreRequest, ChatCompletionResponse, Observer, GatewayEvent,
}
use vulpes_core.Pipeline.State.{zero_usage, zero_response, assistant_choice}
use vulpes_core.Fakes.Requests.{
  zero_float, FakeAuthenticator, fake_authenticate, FakeRouter, fake_route, FakeUpstream,
  fake_invoke, fake_model,
}

pub record FakeRateLimiter : Type 0 where
  pub deny : Bool
  pub calls : ℕ
  pub commits : ℕ

abbrev limit_state : ℕ → ℕ → RateLimitState
limit_state limit remaining = record {
  request_limit = pos limit;
  request_remaining = pos remaining;
  token_limit = pos 0;
  token_remaining = pos 0;
  budget_limit_usd = zero_float;
  budget_remaining_usd = zero_float;
  reset_unix_nano = pos 0;
}

unfoldable pub fake_check :
    RateLimitCheckRequest → FakeRateLimiter → Result Error RateLimitCheckResponse × FakeRateLimiter
fake_check req r = (
  ok (
      if r.deny
      then record {
        decision = "deny";
        deny_reason = "limit exceeded";
        retry_after_ms = pos 1000;
        state = limit_state 0 0;
      }
      else record {
        decision = "allow";
        deny_reason = "";
        retry_after_ms = pos 0;
        state = limit_state 10 9;
      }),
  record r { calls = suc r.calls },
)

unfoldable pub fake_commit : CommitUsageRequest → FakeRateLimiter → Option Error × FakeRateLimiter
fake_commit req r = (none, record r { commits = suc r.commits })

pub record FakeCache : Type 0 where
  pub hit : Bool
  pub calls : ℕ
  pub stores : ℕ
  pub response : ChatCompletionResponse

-- The response of a cache that was given none.
abbrev cached_response : ℕ → ChatCompletionResponse
cached_response now = record {
  id = "cached";
  object = "chat.completion";
  created = pos now;
  model = "cached";
  choices = assistant_choice "cached" "stop" ∷ [];
  usage = [];
}

unfoldable pub fake_lookup :
    ℕ → CacheLookupRequest → FakeCache → Result Error CacheLookupResponse × FakeCache
fake_lookup now req c = (
  ok (record {
    hit = c.hit;
    response = record {
      response =
          if c.hit
          then (if c.response.id == "" then cached_response now else c.response)
          else zero_response;
      usage = zero_usage;
    };
    cache_id = "";
  }),
  record c { calls = suc c.calls },
)

unfoldable pub fake_store : CacheStoreRequest → FakeCache → Option Error × FakeCache
fake_store req c = (none, record c { stores = suc c.stores })

pub record FakeObserver : Type 0 where
  pub block : Bool
  pub fail : Bool
  pub calls : ℕ

-- One that blocks waits for the end of its context, whose error is an argument.
unfoldable pub fake_emit : Error → List GatewayEvent → FakeObserver → Option Error × FakeObserver
fake_emit ended events o = (
  (if o.block then some ended else if o.fail then some (plain "observer failed") else none),
  record o { calls = suc o.calls },
)

-- One fake of each kind, as the world around the gateway.
pub record Fakes : Type 0 where
  pub authenticator : FakeAuthenticator
  pub router : FakeRouter
  pub upstream : FakeUpstream
  pub rate_limiter : FakeRateLimiter
  pub cache : FakeCache
  pub observer : FakeObserver

abbrev pub fake_authenticator : Authenticator Fakes
fake_authenticator = record {
  authenticate = λ req w.
      let (answer, a) = fake_authenticate req w.authenticator in
      (answer, record w { authenticator = a });
}

abbrev pub fake_router : Router Fakes
fake_router = record {
  route = λ req w. let (answer, r) = fake_route req w.router in (answer, record w { router = r });
}

abbrev pub fake_upstream : String → ℕ → UpstreamProvider Fakes
fake_upstream uuid now = record {
  invoke = λ req w.
      let (answer, u) = fake_invoke uuid now req w.upstream in (answer, record w { upstream = u });
  list_models = λ w. (ok (fake_model ∷ []), w);
}

abbrev pub fake_rate_limiter : RateLimiter Fakes
fake_rate_limiter = record {
  check = λ req w.
      let (answer, r) = fake_check req w.rate_limiter in (answer, record w { rate_limiter = r });
  commit = λ req w.
      let (answer, r) = fake_commit req w.rate_limiter in (answer, record w { rate_limiter = r });
}

abbrev pub fake_cache : ℕ → CacheProvider Fakes
fake_cache now = record {
  lookup =
      λ req w. let (answer, c) = fake_lookup now req w.cache in (answer, record w { cache = c });
  store = λ req w. let (answer, c) = fake_store req w.cache in (answer, record w { cache = c });
}

abbrev pub fake_observer : Error → Observer Fakes
fake_observer ended = record {
  emit = λ events w.
      let (answer, o) = fake_emit ended events w.observer in (answer, record w { observer = o });
}
