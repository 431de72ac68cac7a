-- ===== src/Pipeline/Spared.antt =====
-- Which plugins a request does not reach: the attempts at its routes.
use vulpes_core.Base.{
  ℕ, suc, String, ◌≡◌, ◌≢◌, Option, none, some, List, [], ◌∷◌, inl, inr, Option-cases, arith,
}
use vulpes_core.Base.Text.{sprint}
use vulpes_core.Base.Dict.{Dict, lookup, insert, lookup-insert}
use vulpes_core.Capabilities.{
  Error, Usage, SelectedRoute, Authenticator, AuthenticateRequest, Authorizer, AuthorizeRequest,
  PromptProvider, PromptResolveRequest, CacheProvider, CacheLookupRequest, RateLimiter,
  RateLimitCheckRequest, Router, RouteRequest,
}
use vulpes_core.Pipeline.Platform.{Platform}
use vulpes_core.Pipeline.State.{Pipeline, ChatResult, Reply}
use vulpes_core.Pipeline.Exec.{Exec}
use vulpes_core.Pipeline.Events.{emit, emit_error}
use vulpes_core.Pipeline.Outcomes.{Replies}
use vulpes_core.Pipeline.Carried.{
  Carried, Of, Returns-try_routes, Returns-try_routes_up, Returns-try_streams,
  Returns-try_streams_up,
}
use vulpes_core.Pipeline.Attempts.{Attempt, elapsed, give_up, try_routes, try_streams, route_result}
use vulpes_core.Pipeline.Holds.{
  Holds, Holds-pure, Holds-call, Holds-bind, Holds-Returns, Holds-enqueue_event,
}

-- The calls that a request makes before its attempts keep `Q`, which may say that the upstream
-- providers, the store of the cache and the commits of usage are not called.
pub record Untouched {W : Type 0} (P : Platform W) (p : Pipeline W) (Q : W → Type 0) : Type 0 where
  pub new_uuid : (w : W) → Q w → Q (P.new_uuid w).1
  pub now : (w : W) → Q w → Q (P.now w).1
  pub authenticate :
      (authn : Authenticator W) (req : AuthenticateRequest) (w : W)
      → p.authn ≡ some authn
      → Q w
      → Q (authn.authenticate req w).1
  pub authorize :
      (authz : Authorizer W) (req : AuthorizeRequest) (w : W)
      → p.authz ≡ some authz
      → Q w
      → Q (authz.authorize req w).1
  pub resolve_prompt :
      (prompt : PromptProvider W) (req : PromptResolveRequest) (w : W)
      → p.prompt ≡ some prompt
      → Q w
      → Q (prompt.resolve_prompt req w).1
  pub look_up :
      (cache : CacheProvider W) (req : CacheLookupRequest) (w : W)
      → p.cache ≡ some cache
      → Q w
      → Q (cache.lookup req w).1
  pub check :
      (ratelimit : RateLimiter W) (req : RateLimitCheckRequest) (w : W)
      → p.ratelimit ≡ some ratelimit
      → Q w
      → Q (ratelimit.check req w).1
  pub route :
      (router : Router W) (req : RouteRequest) (w : W)
      → p.router ≡ some router
      → Q w
      → Q (router.route req w).1

-- The provider that the headers of a result name.
abbrev pub provider_named : ChatResult → Option String
provider_named result = lookup "X-Gateway-Route-Provider" result.headers

abbrev Names : ChatResult → Type 0
Names result = provider_named result ≢ none

-- A reply that names no provider leaves `Q`.
abbrev pub Spares : {W : Type 0} → (W → Type 0) → Reply → W → Type 0
Spares Q r w = provider_named r.result ≡ none → Q w

Names-route_result :
    (r : SelectedRoute) (i : ℕ) (result : ChatResult) → Names (route_result r i result)
Names-route_result r i result h =
    let headers = insert "X-Gateway-Route-Provider" r.provider_instance result.headers in
    let outer =
      lookup-insert "X-Gateway-Route-Provider" "X-Gateway-Fallback-Index" (sprint i)
        (insert "X-Gateway-Route-Model" r.provider_model headers) in
    let inner =
      lookup-insert "X-Gateway-Route-Provider" "X-Gateway-Route-Model" r.provider_model headers in
    let own =
      lookup-insert "X-Gateway-Route-Provider" "X-Gateway-Route-Provider" r.provider_instance
        result.headers in
    ground (arith, h, outer, inner, own)

Names-Carried : Carried Names
Names-Carried = record {
  routed = λ r i result n. Names-route_result r i result;
  answered = λ result resp usage n. n;
  handed = λ result job named n. n;
}

module _ {W : Type 0} (P : Platform W) (p : Pipeline W) {Q : W → Type 0} (u : Untouched P p Q) where
  -- An action that keeps `Q`, also where it ends the request.
  abbrev pub Spending : {A : Type 0} → Exec W Reply A → Type 0
  Spending m = Holds Q (λ a. Q) (Spares Q) m

  -- What is left of a request spares the plugins, or names a provider.
  abbrev pub Sparing : Exec W Reply Reply → Type 0
  Sparing m = Holds Q (Spares Q) (Spares Q) m

  pub Keeps-emit :
      (event id tenant : String) (props : Dict String) (usage : Option Usage)
      → Spending (emit P event id tenant props usage)
  unfolding emit
  Keeps-emit event id tenant props usage =
      Holds-bind (Holds-call P.new_uuid u.new_uuid)
        λ event_id. Holds-bind (Holds-call P.now u.now) λ now. Holds-enqueue_event _ (λ w q. q)

  Keeps-emit_error :
      (event id tenant : String) (props : Dict String) (e : Error)
      → Spending (emit_error P event id tenant props e)
  unfolding emit_error
  Keeps-emit_error event id tenant props e =
      Holds-bind (Holds-call P.new_uuid u.new_uuid)
        λ event_id. Holds-bind (Holds-call P.now u.now) λ now. Holds-enqueue_event _ (λ w q. q)

  pub Keeps-elapsed : (started : ℕ) → Spending (elapsed P p started)
  Keeps-elapsed started = Holds-bind (Holds-call P.now u.now) λ now. Holds-pure _ (λ w q. q)

  Sparing-give_up :
      (a : Attempt) (last : Option Error) (result : ChatResult)
      → Sparing (give_up P p a last result)
  unfolding give_up
  Sparing-give_up a last result =
      Holds-bind (Keeps-elapsed _)
        λ t. Holds-bind (Keeps-emit_error _ _ _ _ _) λ done. Holds-pure _ (λ w q absent. q)

  -- Once a provider is named, every reply names one.
  Sparing-named : {m : Exec W Reply Reply} → Replies P p (Of Names) m → Sparing m
  Sparing-named h =
      Holds-Returns h (λ r w n absent. absurd (n absent)) (λ r w n absent. absurd (n absent))

  pub Sparing-try_routes :
      (a : Attempt) (routes : List SelectedRoute) (i : ℕ) (last : Option Error)
      (result : ChatResult)
      → Sparing (try_routes P p a routes i last result)
  unfolding try_routes
  Sparing-try_routes a [] i last result = Sparing-give_up a last result
  Sparing-try_routes a (r ∷ routes) i last result =
      elim (Option-cases (lookup r.provider_instance p.upstreams)) [
        | inl e ↦ rw (e, try_routes) (Sparing-try_routes a routes (suc i) _ result)
        | inr (up, e) ↦ Sparing-named (
            Returns-try_routes_up P p Names-Carried a r routes i last result up e
              (Names-route_result r i result) (Returns-try_routes P p Names-Carried a routes))
      ]

  pub Sparing-try_streams :
      (a : Attempt) (routes : List SelectedRoute) (i : ℕ) (last : Option Error)
      (result : ChatResult)
      → Sparing (try_streams P p a routes i last result)
  unfolding try_streams
  Sparing-try_streams a [] i last result = Sparing-give_up a last result
  Sparing-try_streams a (r ∷ routes) i last result =
      elim (Option-cases (lookup r.provider_instance p.upstreams)) [
        | inl e ↦ rw (e, try_streams) (Sparing-try_streams a routes (suc i) last result)
        | inr (up, e) ↦ Sparing-named (
            Returns-try_streams_up P p Names-Carried a r routes i last result up e
              (Names-route_result r i result) (Returns-try_streams P p Names-Carried a routes))
      ]
