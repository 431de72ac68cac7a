-- ===== src/Pipeline/Tries.antt =====
-- The attempts at a request send the events of the protocol.
use vulpes_core.Base.{
  ℕ, suc, String, ◌≡◌, refl, Bool, true, false, Option, none, some, List, [], ◌∷◌, ◌==◌, Result, ok,
  err, inl, inr, Option-cases,
}
use vulpes_core.Base.Dict.{Dict, lookup}
use vulpes_core.Capabilities.{
  Error, Observer, Identity, Usage, CallContext, ChatCompletionRequest, ResponseChunk,
  UpstreamError, SelectedRoute, upstream,
}
use vulpes_core.Pipeline.Platform.{Platform}
use vulpes_core.Pipeline.State.{Pipeline, ChatResult, Reply}
use vulpes_core.Pipeline.Exec.{Exec, pure, ◌>>=◌}
use vulpes_core.Pipeline.Trace.{Label, Emits}
use vulpes_core.Pipeline.TraceRules.{
  Emits-pure, Emits-finish, Emits-if, Emits-bind, Emits-call_bind, Emits-weaken,
}
use vulpes_core.Pipeline.Collect.{
  Collected, Response, collect_response, collect_chunks, finish_response, nothing_collected,
}
use vulpes_core.Pipeline.Attempts.{
  Attempt, elapsed, store_response, commit_usage, notify_blocking, after_success, give_up,
  attempt_failed, try_routes, try_streams, route_result,
}
use vulpes_core.Pipeline.Protocol.{
  outcome, Attempted, completed, unobserved, gave_up, handed_over, retried, Steady, Quiet, Fails,
  Emits-step, Emits-emit_bind, Emits-emit_error_bind,
}

-- What the attempts at a request `id` leave.
abbrev pub Ends : String → Bool → Reply → List Label → Type 0
Ends id stream r ls = Attempted id stream (outcome r) ls

module _ {W : Type 0} (P : Platform W) (p : Pipeline W) where
  pub Steady-elapsed : (started : ℕ) → Steady (elapsed P p started)
  Steady-elapsed started = Emits-call_bind P.now λ now. Emits-pure _ (refl, tt)

  pub Steady-store_response :
      (req : ChatCompletionRequest) (call_ctx : CallContext) (identity : Identity)
      (props : Dict String) (result : ChatResult)
      → Steady (store_response P p req call_ctx identity props result)
  unfolding store_response
  Steady-store_response req call_ctx identity props result = elim (Option-cases p.cache) [
    | inl e ↦ rw (e, store_response) (Emits-pure _ (refl, tt))
    | inr (cache, e) ↦ rw (e, store_response) (Emits-call_bind _ λ ignored. Emits-pure _ (refl, tt))
  ]

  pub Steady-commit_usage :
      (call_ctx : CallContext) (identity : Identity) (usage : Usage)
      → Steady (commit_usage P p call_ctx identity usage)
  unfolding commit_usage
  Steady-commit_usage call_ctx identity usage = elim (Option-cases p.ratelimit) [
    | inl e ↦ rw (e, commit_usage) (Emits-pure _ (refl, tt))
    | inr (ratelimit, e) ↦
        rw (e, commit_usage) (Emits-call_bind _ λ ignored. Emits-pure _ (refl, tt))
  ]

  Quiet-notify_blocking :
      (observers : List (Observer W)) (identity : Identity) (props : Dict String)
      (result : ChatResult)
      → Quiet (notify_blocking P p observers identity props result)
  unfolding notify_blocking
  Quiet-notify_blocking [] identity props result = Emits-pure _ (refl, tt)
  Quiet-notify_blocking (obs ∷ rest) identity props result =
      let ih = Quiet-notify_blocking rest identity props result in
      Emits-call_bind _ λ event_id.
        Emits-call_bind _
          λ now. Emits-call_bind _ (elim [ none ↦ ih | some e ↦ Emits-finish _ (refl, refl) ])

  -- A blocking observer may fail behind the event of success.
  pub Emits-after_success :
      (a : Attempt) (route_props : Dict String) (result : ChatResult)
      → Emits
          (λ u ls. ls ≡ (result.request_id, "request.completed") ∷ [])
          (λ r ls. (ls ≡ (result.request_id, "request.completed") ∷ []) × Fails r)
          (after_success P p a route_props result)
  unfolding after_success
  Emits-after_success a route_props result =
      Emits-step (Steady-store_response a.request a.call_ctx a.identity _ result) λ u.
        Emits-step (Steady-commit_usage _ _ _) λ u. Emits-emit_bind P _ _ _ _ _ _ (
          Emits-weaken (Quiet-notify_blocking p.blocking_observers _ _ result)
            (λ r ls s. (rw s.0 refl, s.1)) (λ u ls s. rw s.0 refl))

  Emits-give_up :
      (stream : Bool) (a : Attempt) (last : Option Error) (result : ChatResult)
      → Emits
          (Ends result.request_id stream)
          (Ends result.request_id stream)
          (give_up P p a last result)
  unfolding give_up
  Emits-give_up stream a last result =
      Emits-step (Steady-elapsed _) λ t. Emits-emit_error_bind P _ _ _ _ _ _ (Emits-pure _ gave_up)

  -- The next route must send what the attempts may send.
  Emits-attempt_failed :
      (stream : Bool) (a : Attempt) (route_props : Dict String) (result : ChatResult) (e : Error)
      (next_route : Exec W Reply Reply)
      → Emits (Ends result.request_id stream) (Ends result.request_id stream) next_route
      → Emits
          (Ends result.request_id stream)
          (Ends result.request_id stream)
          (attempt_failed P p a route_props result e next_route)
  unfolding attempt_failed
  Emits-attempt_failed stream a route_props result e next_route h =
      Emits-emit_error_bind P _ _ _ _ _ _ (
        Emits-weaken (Emits-if _ h (Emits-give_up stream a (some e) result)) (λ r ls d. retried d)
          (λ r ls d. retried d))

  Steady-finish_response :
      (model : String) (c : Collected) → Steady (finish_response {R = Reply} P model c)
  unfolding finish_response
  Steady-finish_response model c =
      Emits-step
        (Emits-if (c.resp.id == "")
          (Emits-call_bind _ λ id. Emits-call_bind _ λ now. Emits-pure _ (refl, tt))
          (Emits-pure _ (refl, tt)))
        λ resp. Emits-pure _ (refl, tt)

  Steady-collected :
      (model : String) (r : Result UpstreamError Collected)
      → Steady {A = Result UpstreamError Response} (elim r [
        | err e ↦ pure (err e)
        | ok c ↦ finish_response P model c >>= λ resp.
            pure (ok (record { resp = resp; usage = c.usage }))
      ])
  Steady-collected model (err e) = Emits-pure _ (refl, tt)
  Steady-collected model (ok c) =
      Emits-step (Steady-finish_response model c) λ resp. Emits-pure _ (refl, tt)

  pub Steady-collect_response :
      (chunks : List ResponseChunk) (model : String)
      → Steady (collect_response {R = Reply} P chunks model)
  unfolding collect_response
  Steady-collect_response chunks model =
      Steady-collected model (collect_chunks model chunks nothing_collected)

  -- The attempts begin with a result that has no stream yet.
  pub Emits-try_routes :
      (a : Attempt) (routes : List SelectedRoute) (i : ℕ) (last : Option Error)
      (result : ChatResult)
      → result.stream ≡ none
      → Emits
          (Ends result.request_id false)
          (Ends result.request_id false)
          (try_routes P p a routes i last result)
  unfolding try_routes
  Emits-try_routes a [] i last result h = Emits-give_up false a last result
  Emits-try_routes a (r ∷ routes) i last result h =
      elim (Option-cases (lookup r.provider_instance p.upstreams)) [
        | inl e ↦ rw (e, try_routes) (Emits-try_routes a routes (suc i) _ result h)
        | inr (up, e) ↦
            rw (e, try_routes)
              (Emits-step (Steady-elapsed _) λ t. Emits-call_bind _ (elim [
                | err e ↦
                    Emits-attempt_failed false a _ (route_result r i result) e _
                      (Emits-try_routes a routes (suc i) (some e) (route_result r i result) h)
                | ok chunks ↦ Emits-step (Steady-collect_response _ _) (elim [
                  | err e ↦
                      Emits-attempt_failed false a _ (route_result r i result) (upstream e) _ (
                        Emits-try_routes a routes (suc i) (some (upstream e))
                          (route_result r i result) h)
                  | ok c ↦
                      Emits-bind
                        (Emits-after_success a _
                          (record (route_result r i result) { response = c.resp; usage = c.usage }))
                        (λ r ls d. rw (d.0, d.1) unobserved)
                        (λ u ls s. rw s (Emits-pure _ (rw h (completed refl))))
                ])
              ]))
      ]

  pub Emits-try_streams :
      (a : Attempt) (routes : List SelectedRoute) (i : ℕ) (last : Option Error)
      (result : ChatResult)
      → Emits
          (Ends result.request_id true)
          (Ends result.request_id true)
          (try_streams P p a routes i last result)
  unfolding try_streams
  Emits-try_streams a [] i last result = Emits-give_up true a last result
  Emits-try_streams a (r ∷ routes) i last result =
      elim (Option-cases (lookup r.provider_instance p.upstreams)) [
        | inl e ↦ rw (e, try_streams) (Emits-try_streams a routes (suc i) last result)
        | inr (up, e) ↦
            rw (e, try_streams)
              (Emits-step (Steady-elapsed _) λ t. Emits-call_bind _ (elim [
                | err e ↦
                    Emits-attempt_failed true a _ (route_result r i result) e _
                      (Emits-try_streams a routes (suc i) (some e) (route_result r i result))
                | ok chunks ↦ Emits-pure _ (handed_over refl)
              ]))
      ]
