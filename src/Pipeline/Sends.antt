-- ===== src/Pipeline/Sends.antt =====
-- The stages of a request send the events of the protocol.
use vulpes_core.Base.{
  String, ◌≡◌, refl, Option, none, some, List, [], ◌∷◌, ◌==◌, ok, err, inl, inr, Bool-cases,
  Option-cases, Result-cases,
}
use vulpes_core.Base.Int.{ℤ, is_positive}
use vulpes_core.Base.Dict.{Dict}
use vulpes_core.Capabilities.{
  ChatCompletionRequest, RequestSummary, SelectedRoute, RouteRequest, Router, CallContext,
  RateLimitCheckResponse, ChatMessage,
}
use vulpes_core.Models
use vulpes_core.Pipeline.Exec.{Exec}
use vulpes_core.Pipeline.Platform.{Platform}
use vulpes_core.Pipeline.State.{Pipeline, ChatResult, Reply}
use vulpes_core.Pipeline.Trace.{Emits}
use vulpes_core.Pipeline.TraceRules.{
  Silent, Emits-pure, Emits-finish, Emits-fault, Emits-if, Emits-if_known, Emits-update_shared,
  Emits-call_bind,
}
use vulpes_core.Pipeline.Stages.{
  Caller, Resolved, authenticate, authorize, resolve_prompt, use_prompt, lookup_cache,
  check_rate_limit, limit_headers,
}
use vulpes_core.Pipeline.Chat.{first_route, ask_router, select_routes}
use vulpes_core.Pipeline.Protocol.{Fails, Quiet, outcome, Begun, hit, Emits-emit_bind, Emits-step}

-- A result of the request `id` that has no stream yet.
pub record Fresh (id : String) (result : ChatResult) : Type 0 where
  pub request_id : result.request_id ≡ id
  pub stream : result.stream ≡ none

Fresh-limit_headers :
    (id : String) (rl : RateLimitCheckResponse) (result : ChatResult)
    → Fresh id result
    → Fresh id (limit_headers rl result)
Fresh-limit_headers id rl result h = elim (Bool-cases (is_positive rl.state.request_limit)) [
  | inl e ↦ rw e (record { request_id = h.request_id; stream = h.stream })
  | inr e ↦ rw e h
]

module _ {W : Type 0} (P : Platform W) (p : Pipeline W) where
  pub Quiet-authenticate :
      (call_ctx : CallContext) (headers : Dict String) (source_ip : String) (result : ChatResult)
      → Quiet (authenticate P p call_ctx headers source_ip result)
  unfolding authenticate
  Quiet-authenticate call_ctx headers source_ip result =
      Emits-if p.cfg.auth.anonymous (Emits-pure _ (refl, tt)) (elim (Option-cases p.authn) [
        | inl e ↦ rw e Emits-fault
        | inr (authn, e) ↦ rw e (
            Emits-call_bind _ (elim [
              | err e ↦ Emits-finish _ (refl, refl)
              | ok auth ↦
                  Emits-if auth.allow (Emits-pure _ (refl, tt)) (Emits-finish _ (refl, refl))
            ]))
      ])

  pub Quiet-authorize :
      (caller : Caller) (summary : RequestSummary) (result : ChatResult)
      → Quiet (authorize P p caller summary result)
  unfolding authorize
  Quiet-authorize caller summary result = elim (Option-cases p.authz) [
    | inl e ↦ rw (e, authorize) (Emits-pure _ (refl, tt))
    | inr (authz, e) ↦
        rw (e, authorize)
          (Emits-call_bind _ (elim [
            | err e ↦ Emits-finish _ (refl, refl)
            | ok az ↦ Emits-if az.allow (Emits-pure _ (refl, tt)) (Emits-finish _ (refl, refl))
          ]))
  ]

  -- The request still asks for a stream, or not, as it did.
  abbrev KeepsStream : ChatCompletionRequest → Exec W Reply Resolved → Type 0
  KeepsStream req m = Emits (Silent (λ r. r.request.stream ≡ req.stream)) (Silent Fails) m

  KeepsStream-use_prompt :
      (messages : List ChatMessage) (properties : Dict String) (request_id : String)
      (req : ChatCompletionRequest) (props : Dict String)
      → KeepsStream req (use_prompt messages properties request_id req props)
  unfolding use_prompt
  KeepsStream-use_prompt [] properties request_id req props = Emits-pure _ (refl, refl)
  KeepsStream-use_prompt (m ∷ ms) properties request_id req props =
      Emits-step (Emits-update_shared _ _ (refl, tt)) λ u. Emits-pure _ (refl, refl)

  pub KeepsStream-resolve_prompt :
      (caller : Caller) (req : ChatCompletionRequest) (props : Dict String) (result : ChatResult)
      → KeepsStream req (resolve_prompt P p caller req props result)
  unfolding resolve_prompt
  KeepsStream-resolve_prompt caller req props result = elim (Option-cases p.prompt) [
    | inl e ↦ rw (e, resolve_prompt) (Emits-pure _ (refl, refl))
    | inr (prompt, e) ↦
        rw (e, resolve_prompt)
          (Emits-call_bind _ (elim [
            | err e ↦ Emits-finish _ (refl, refl)
            | ok pr ↦ KeepsStream-use_prompt pr.messages pr.properties _ req props
          ]))
  ]

  pub Emits-lookup_cache :
      (caller : Caller) (req : ChatCompletionRequest) (props : Dict String) (result : ChatResult)
      → result.stream ≡ none
      → Emits
          (Silent (Fresh result.request_id))
          (λ r ls. Begun result.request_id req.stream (outcome r) ls)
          (lookup_cache P p caller req props result)
  unfolding lookup_cache
  Emits-lookup_cache caller req props result h = elim (Option-cases p.cache) [
    | inl e ↦ rw (e, lookup_cache) (Emits-pure _ (refl, record { request_id = refl; stream = h }))
    | inr (cache, e) ↦
        rw (e, lookup_cache)
          (Emits-if_known req.stream
            (λ streams. Emits-pure _ (refl, record { request_id = refl; stream = h }))
            (λ whole. Emits-call_bind _ (elim [
              | err e ↦ Emits-pure _ (refl, record { request_id = refl; stream = h })
              | ok lk ↦
                  Emits-if lk.hit
                    (Emits-emit_bind P _ _ _ _ _ _ (Emits-finish _ (rw h (hit whole))))
                    (Emits-pure _ (refl, record { request_id = refl; stream = h }))
            ])))
  ]

  pub Emits-check_rate_limit :
      (id : String) (caller : Caller) (req : ChatCompletionRequest) (tokens : ℤ)
      (props : Dict String) (result : ChatResult)
      → Fresh id result
      → Emits
          (Silent (Fresh id))
          (Silent Fails)
          (check_rate_limit P p caller req tokens props result)
  unfolding check_rate_limit
  Emits-check_rate_limit id caller req tokens props result h = elim (Option-cases p.ratelimit) [
    | inl e ↦ rw (e, check_rate_limit) (Emits-pure _ (refl, h))
    | inr (ratelimit, e) ↦
        rw (e, check_rate_limit)
          (Emits-call_bind _ (elim [
            | err e ↦ Emits-finish _ (refl, refl)
            | ok rl ↦
                Emits-if (rl.decision == "deny") (Emits-finish _ (refl, refl))
                  (Emits-pure _ (refl, Fresh-limit_headers id rl result h))
          ]))
  ]

  Quiet-first_route :
      (result : ChatResult) (routes : List SelectedRoute)
      → Quiet {W = W} (first_route result routes)
  unfolding first_route
  Quiet-first_route result [] = Emits-finish _ (refl, refl)
  Quiet-first_route result (r ∷ rs) = Emits-pure _ (refl, tt)

  Quiet-ask_router :
      (o : Option (Router W)) (request : RouteRequest) (result : ChatResult)
      → Quiet (ask_router o request result)
  unfolding ask_router
  Quiet-ask_router none request result = Emits-fault
  Quiet-ask_router (some router) request result = Emits-call_bind _ (elim [
    | err e ↦ Emits-finish _ (refl, refl)
    | ok resp ↦ Quiet-first_route result resp.routes
  ])

  pub Quiet-select_routes :
      (caller : Caller) (req : ChatCompletionRequest) (summary : RequestSummary)
      (result : ChatResult)
      → Quiet (select_routes P p caller req summary result)
  unfolding select_routes
  Quiet-select_routes caller req summary result =
      elim (Result-cases (Models.candidates p.models req.model)) [
        | inl (e, h) ↦ rw (h, select_routes) (Emits-finish _ (refl, refl))
        | inr (candidates, h) ↦ rw (h, select_routes) (Quiet-ask_router p.router _ result)
      ]
