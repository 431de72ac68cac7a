-- ===== src/Pipeline/Compile.antt =====
-- `compile`: the plugins that the configuration names, and what is missing.
use vulpes_core.Base.{
  String, Bool, true, false, Option, none, some, List, [], ◌∷◌, ◌++◌, ◌==◌, if◌then◌else◌, Result,
  ok, err, and_then,
}
use vulpes_core.Base.Dict.{Dict, insert}
use vulpes_core.Capabilities.{
  Authenticator, Authorizer, RateLimiter, CacheProvider, PromptProvider, Router, UpstreamProvider,
  Observer, CapabilityType, authenticator_cap, router_cap, upstream_provider_cap, Error,
}
use vulpes_core.Config.{Config}
use vulpes_core.Models.{ModelRegistry}
use vulpes_core.Plugins.Registry.{
  Registry, authenticator, authorizer, rate_limiter, router, upstream_provider, cache_provider,
  observer, prompt_provider,
}
use vulpes_core.Queue.{Queue, new_queue}
use vulpes_core.Pipeline.State.{Pipeline}

infixl 5 ◌>>=◌
abbrev ◌>>=◌ : {A B : Type 0} → Result Error A → (A → Result Error B) → Result Error B
◌>>=◌ = and_then

-- A plugin that may be left out: no name is no plugin, and a name that is not found is an error.
unfoldable pub optional :
    {A : Type 0} → (String → Result Error A) → String → Result Error (Option A)
optional find name = if name == "" then ok none else and_then (find name) (λ v. ok (some v))

-- A plugin that a ready gateway has: without a name, and where it is not found, it is missing.
unfoldable pub required : {A : Type 0} → (String → Result Error A) → String → Option A
required find name =
    if name == "" then none else (elim (find name) [ ok v ↦ some v | err e ↦ none ])

abbrev pub missing_if : {A : Type 0} → Option A → CapabilityType → List CapabilityType
missing_if none ct = ct ∷ []
missing_if (some v) ct = []

abbrev pub is_empty : {A : Type 0} → List A → Bool
is_empty [] = true
is_empty (x ∷ xs) = false

module _ {W : Type 0} (reg : Registry W) where
  unfoldable pub find_upstreams :
      List String → Dict (UpstreamProvider W) → Result Error (Dict (UpstreamProvider W))
  find_upstreams [] found = ok found
  find_upstreams (name ∷ names) found = do
    v ← upstream_provider name reg
    find_upstreams names (insert name v found)

  unfoldable pub find_observers : List String → List (Observer W) → Result Error (List (Observer W))
  find_observers [] found = ok found
  find_observers (name ∷ names) found = do
    v ← observer name reg
    find_observers names (found ++ v ∷ [])

  -- The pipeline that `compile` returns, from what it has found.
  unfoldable pub assemble :
      Config
      → ModelRegistry
      → Option (Authenticator W)
      → Option (Authorizer W)
      → Option (RateLimiter W)
      → Option (CacheProvider W)
      → Option (PromptProvider W)
      → Option (Router W)
      → Dict (UpstreamProvider W)
      → List (Observer W)
      → List CapabilityType
      → Pipeline W
  assemble cfg models authn authz ratelimit cache prompt route upstreams blocking missing = record {
    cfg = cfg;
    registry = reg;
    models = models;
    authn = authn;
    authz = authz;
    ratelimit = ratelimit;
    router = route;
    cache = cache;
    prompt = prompt;
    cost = none;
    upstreams = upstreams;
    blocking_observers = blocking;
    ready = is_empty missing;
    missing = missing;
  }

  unfoldable pub compile : Config → ModelRegistry → Result Error (Pipeline W × Queue W)
  unfolding assemble
  compile cfg models = do
    let authn =
        if cfg.auth.anonymous
        then none
        else required (λ name. authenticator name reg) cfg.pipeline.authenticator
    let authn_missing = if cfg.auth.anonymous then [] else missing_if authn authenticator_cap
    authz ← optional (λ name. authorizer name reg) cfg.pipeline.authorizer
    ratelimit ← optional (λ name. rate_limiter name reg) cfg.pipeline.rate_limiter
    cache ← optional (λ name. cache_provider name reg) cfg.pipeline.cache_provider
    prompt ← optional (λ name. prompt_provider name reg) cfg.pipeline.prompt_provider
    let route = required (λ name. router name reg) cfg.pipeline.router
    upstreams ← find_upstreams cfg.pipeline.upstream_providers []
    let upstreams_missing = if is_empty upstreams then upstream_provider_cap ∷ [] else []
    async ← find_observers cfg.pipeline.observers []
    blocking ← find_observers cfg.pipeline.blocking_observers []
    ok (
      assemble cfg models authn authz ratelimit cache prompt route upstreams blocking
          (authn_missing ++ missing_if route router_cap ++ upstreams_missing),
      new_queue cfg.observability.queue_size cfg.observability.batch_size
          cfg.observability.flush_interval cfg.observability.on_overflow async,
    )
