-- ===== src/Pipeline/Unserved.antt =====
-- A request that is denied reaches no upstream provider.
use vulpes_core.Base.{
  String, ◌≡◌, none, some, List, [], ◌∷◌, ◌==◌, ok, err, inl, inr, arith, Option-cases,
  Result-cases,
}
use vulpes_core.Base.Int.{ℤ}
use vulpes_core.Base.Dict.{Dict}
use vulpes_core.Capabilities.{
  ChatCompletionRequest, RequestSummary, SelectedRoute, RouteRequest, CallContext, ChatMessage,
}
use vulpes_core.Models
use vulpes_core.Pipeline.Platform.{Platform}
use vulpes_core.Pipeline.State.{Pipeline, ChatResult, Reply}
use vulpes_core.Pipeline.Exec.{Gateway, Exit, next, done, panic, Exec, call, pure, finish, ◌>>=◌}
use vulpes_core.Pipeline.Holds.{
  Leaves, Holds-pure, Holds-finish, Holds-fault, Holds-call, Holds-if, Holds-bind,
  Holds-update_shared,
}
use vulpes_core.Pipeline.Answers.{returned}
use vulpes_core.Pipeline.Attempts.{execute_non_stream, execute_stream}
use vulpes_core.Pipeline.Stages.{
  Caller, authenticate, authorize, resolve_prompt, use_prompt, lookup_cache, check_rate_limit,
}
use vulpes_core.Pipeline.Chat.{first_route, ask_router, select_routes, run_chat, execute_chat}
use vulpes_core.Pipeline.Spared.{
  Untouched, provider_named, Spares, Spending, Sparing, Keeps-emit, Keeps-elapsed,
  Sparing-try_routes, Sparing-try_streams,
}

module _ {W : Type 0} (P : Platform W) (p : Pipeline W) {Q : W → Type 0} (u : Untouched P p Q) where
  -- A reply or a value that ends a stage.
  Stays-finish : {A : Type 0} (r : Reply) → Spending P p u {A = A} (finish r)
  Stays-finish r = Holds-finish r (λ w q absent. q)

  Stays-pure : {A : Type 0} (a : A) → Spending P p u (pure a)
  Stays-pure a = Holds-pure a (λ w q. q)

  Spends-call :
      {A B : Type 0} (f : W → A × W) {k : A → Exec W Reply B}
      → ((w : W) → Q w → Q (f w).1)
      → ((a : A) → Spending P p u (k a))
      → Spending P p u (call f >>= k)
  Spends-call f keeps follows = Holds-bind {M = λ a. Q} (Holds-call f keeps) follows

  Keeps-authenticate :
      (call_ctx : CallContext) (headers : Dict String) (source_ip : String) (result : ChatResult)
      → Spending P p u (authenticate P p call_ctx headers source_ip result)
  unfolding authenticate
  Keeps-authenticate call_ctx headers source_ip result =
      Holds-if p.cfg.auth.anonymous (Stays-pure _) (elim (Option-cases p.authn) [
        | inl e ↦ rw e Holds-fault
        | inr (authn, e) ↦ rw e (
            Spends-call _ (λ w q. u.authenticate authn _ w e q)
              (elim [
                | err e ↦ Stays-finish _
                | ok auth ↦ Holds-if auth.allow (Stays-pure _) (Stays-finish _)
              ]))
      ])

  Keeps-authorize :
      (caller : Caller) (summary : RequestSummary) (result : ChatResult)
      → Spending P p u (authorize P p caller summary result)
  unfolding authorize
  Keeps-authorize caller summary result = elim (Option-cases p.authz) [
    | inl e ↦ rw (e, authorize) (Stays-pure _)
    | inr (authz, e) ↦
        rw (e, authorize)
          (Spends-call _ (λ w q. u.authorize authz _ w e q)
            (elim [
              | err e ↦ Stays-finish _
              | ok az ↦ Holds-if az.allow (Stays-pure _) (Stays-finish _)
            ]))
  ]

  Keeps-use_prompt :
      (messages : List ChatMessage) (properties : Dict String) (request_id : String)
      (req : ChatCompletionRequest) (props : Dict String)
      → Spending P p u (use_prompt messages properties request_id req props)
  unfolding use_prompt
  Keeps-use_prompt [] properties request_id req props = Stays-pure _
  Keeps-use_prompt (m ∷ ms) properties request_id req props =
      Holds-bind (Holds-update_shared _ _ (λ w q. q)) λ done. Stays-pure _

  Keeps-resolve_prompt :
      (caller : Caller) (req : ChatCompletionRequest) (props : Dict String) (result : ChatResult)
      → Spending P p u (resolve_prompt P p caller req props result)
  unfolding resolve_prompt
  Keeps-resolve_prompt caller req props result = elim (Option-cases p.prompt) [
    | inl e ↦ rw (e, resolve_prompt) (Stays-pure _)
    | inr (prompt, e) ↦
        rw (e, resolve_prompt)
          (Spends-call _ (λ w q. u.resolve_prompt prompt _ w e q)
            (elim [
              | err e ↦ Stays-finish _
              | ok pr ↦ Keeps-use_prompt pr.messages pr.properties _ req props
            ]))
  ]

  Keeps-lookup_cache :
      (caller : Caller) (req : ChatCompletionRequest) (props : Dict String) (result : ChatResult)
      → Spending P p u (lookup_cache P p caller req props result)
  unfolding lookup_cache
  Keeps-lookup_cache caller req props result = elim (Option-cases p.cache) [
    | inl e ↦ rw (e, lookup_cache) (Stays-pure _)
    | inr (cache, e) ↦
        rw (e, lookup_cache)
          (Holds-if req.stream (Stays-pure _) (
            Spends-call _ (λ w q. u.look_up cache _ w e q)
              (elim [
                | err e ↦ Stays-pure _
                | ok lk ↦
                    Holds-if lk.hit (Holds-bind (Keeps-emit P p u _ _ _ _ _) λ done. Stays-finish _)
                      (Stays-pure _)
              ])))
  ]

  Keeps-check_rate_limit :
      (caller : Caller) (req : ChatCompletionRequest) (tokens : ℤ) (props : Dict String)
      (result : ChatResult)
      → Spending P p u (check_rate_limit P p caller req tokens props result)
  unfolding check_rate_limit
  Keeps-check_rate_limit caller req tokens props result = elim (Option-cases p.ratelimit) [
    | inl e ↦ rw (e, check_rate_limit) (Stays-pure _)
    | inr (ratelimit, e) ↦
        rw (e, check_rate_limit)
          (Spends-call _ (λ w q. u.check ratelimit _ w e q)
            (elim [
              | err e ↦ Stays-finish _
              | ok rl ↦ Holds-if (rl.decision == "deny") (Stays-finish _) (Stays-pure _)
            ]))
  ]

  Keeps-first_route :
      (result : ChatResult) (routes : List SelectedRoute)
      → Spending P p u (first_route result routes)
  unfolding first_route
  Keeps-first_route result [] = Stays-finish _
  Keeps-first_route result (r ∷ rs) = Stays-pure _

  Keeps-ask_router :
      (request : RouteRequest) (result : ChatResult)
      → Spending P p u (ask_router p.router request result)
  unfolding ask_router
  Keeps-ask_router request result = elim (Option-cases p.router) [
    | inl e ↦ rw (e, ask_router) Holds-fault
    | inr (router, e) ↦
        rw (e, ask_router)
          (Spends-call _ (λ w q. u.route router _ w e q)
            (elim [ err e ↦ Stays-finish _ | ok resp ↦ Keeps-first_route result resp.routes ]))
  ]

  Keeps-select_routes :
      (caller : Caller) (req : ChatCompletionRequest) (summary : RequestSummary)
      (result : ChatResult)
      → Spending P p u (select_routes P p caller req summary result)
  unfolding select_routes
  Keeps-select_routes caller req summary result =
      elim (Result-cases (Models.candidates p.models req.model)) [
        | inl (e, h) ↦ rw (h, select_routes) (Stays-finish _)
        | inr (candidates, h) ↦ rw (h, select_routes) (Keeps-ask_router _ result)
      ]

  Sparing-run_chat :
      (req : ChatCompletionRequest) (headers : Dict String) (source_ip : String)
      (result : ChatResult)
      → Sparing P p u (run_chat P p req headers source_ip result)
  unfolding run_chat execute_stream execute_non_stream
  Sparing-run_chat req headers source_ip result = Holds-bind (Holds-call P.now u.now) λ started.
      Holds-bind (Keeps-authenticate _ _ _ result) λ caller.
        Holds-bind (Keeps-emit P p u _ _ _ _ _) λ d.
          Holds-bind (Keeps-authorize caller _ result) λ d.
            Holds-bind (Keeps-resolve_prompt caller req _ result) λ resolved.
              Holds-bind (Keeps-lookup_cache caller resolved.request resolved.props result) λ r.
                Holds-bind (Keeps-check_rate_limit caller resolved.request _ resolved.props r) λ r'.
                  Holds-bind (Keeps-select_routes caller resolved.request _ r') λ routes.
                    Holds-bind (Keeps-elapsed P p u _) λ t.
                      Holds-bind (Keeps-emit P p u _ _ _ _ _) λ d.
                        Holds-if resolved.request.stream (Sparing-try_streams P p u _ _ _ _ r')
                          (Sparing-try_routes P p u _ _ _ _ r')

  Sparing-execute_chat :
      (req : ChatCompletionRequest) (headers : Dict String) (source_ip : String)
      → Sparing P p u (execute_chat P p req headers source_ip)
  unfolding execute_chat
  Sparing-execute_chat req headers source_ip = Holds-bind (Holds-call P.new_uuid u.new_uuid) λ id.
      Holds-if p.ready (Sparing-run_chat req headers source_ip _) (Holds-pure _ (λ w q absent. q))

  Leaves-returned :
      (e : Exit Reply Reply) (w : W) {r : Reply}
      → Leaves (Spares Q) (Spares Q) e w
      → returned e ≡ some r
      → Spares Q r w
  Leaves-returned (next x) w {r} h same = let e : x ≡ r = ground (arith, same) in rw (← e) h
  Leaves-returned (done x) w {r} h same = let e : x ≡ r = ground (arith, same) in rw (← e) h
  Leaves-returned panic w h same = absurd (ground (arith, same))

  -- Let `Q` be any property of the world that is kept by the making of ids, the clock, the
  -- authenticator, the authorizer, the prompt provider, the lookup of the cache, the check of the rate
  -- limiter and the router, for instance that no upstream provider has been called, nothing stored in
  -- the cache and no usage committed. A request whose reply does not name a provider in its header
  -- X-Gateway-Route-Provider keeps `Q`: if it holds before the request, it holds after it.
  pub unserved_spares :
      (req : ChatCompletionRequest) (headers : Dict String) (source_ip : String) (g : Gateway W)
      (r : Reply)
      → Q g.world
      → returned (execute_chat P p req headers source_ip g).0 ≡ some r
      → provider_named r.result ≡ none
      → Q (execute_chat P p req headers source_ip g).1.world
  unserved_spares req headers source_ip g r q ret absent =
      let run = execute_chat P p req headers source_ip g in
      Leaves-returned run.0 run.1.world ((Sparing-execute_chat req headers source_ip).at g q) ret
        absent
