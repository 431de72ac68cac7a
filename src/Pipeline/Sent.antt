-- ===== src/Pipeline/Sent.antt =====
-- A whole request sends the events of the protocol, and does not depend on the event queue.
use vulpes_core.Base.{String, ◌≡◌, refl, ◌∙◌, sym, ap, Bool, none, List, if◌then◌else◌}
use vulpes_core.Base.Dict.{Dict}
use vulpes_core.Capabilities.{missing, ChatCompletionRequest, SelectedRoute}
use vulpes_core.Pipeline.Platform.{Platform}
use vulpes_core.Pipeline.State.{Pipeline, ChatResult, Reply}
use vulpes_core.Pipeline.Exec.{Gateway, Exec, pure, ◌>>=◌}
use vulpes_core.Pipeline.Events.{emit}
use vulpes_core.Pipeline.Props.{estimate_tokens}
use vulpes_core.Pipeline.Trace.{Run, replay, Emits}
use vulpes_core.Pipeline.TraceRules.{
  Emits-pure, Emits-if, Emits-if_known, Emits-bind, Emits-skip, Emits-call_bind, Emits-weaken,
}
use vulpes_core.Pipeline.Attempts.{Attempt, failure, execute_non_stream, execute_stream}
use vulpes_core.Pipeline.Stages.{initial_result, request_summary}
use vulpes_core.Pipeline.Chat.{run_chat, execute_chat}
use vulpes_core.Pipeline.Protocol.{
  Quiet, outcome, Begun, denied, routed, Protocol, not_begun, begun, Emits-emit_bind, Emits-step,
}
use vulpes_core.Pipeline.Tries.{Steady-elapsed, Emits-try_routes, Emits-try_streams}
use vulpes_core.Pipeline.Sends.{
  Fresh, Quiet-authenticate, Quiet-authorize, KeepsStream-resolve_prompt, Emits-lookup_cache,
  Emits-check_rate_limit, Quiet-select_routes,
}

module _ {W : Type 0} (P : Platform W) (p : Pipeline W) where
  -- What is left of a request behind its event of the start.
  abbrev GoesOn : String → Bool → Exec W Reply Reply → Type 0
  GoesOn id stream m =
      Emits (λ r ls. Begun id stream (outcome r) ls) (λ r ls. Begun id stream (outcome r) ls) m

  abbrev FollowsProtocol : String → Bool → Exec W Reply Reply → Type 0
  FollowsProtocol id stream m =
      Emits (λ r ls. Protocol id stream (outcome r) ls) (λ r ls. Protocol id stream (outcome r) ls)
        m

  GoesOn-stage :
      (id : String) (stream : Bool) {A : Type 0} {m : Exec W Reply A} {f : A → Exec W Reply Reply}
      → Quiet m
      → ((a : A) → GoesOn id stream (f a))
      → GoesOn id stream (m >>= f)
  GoesOn-stage id stream h follows = Emits-skip h (λ r e. rw e denied) (λ a u. follows a)

  GoesOn-same :
      (id : String) {s t : Bool} {m : Exec W Reply Reply} → s ≡ t → GoesOn id s m → GoesOn id t m
  GoesOn-same id same h = rw (← same) h

  GoesOn-attempts :
      (a : Attempt) (routes : List SelectedRoute) (id tenant : String) (props : Dict String)
      (result : ChatResult)
      → Fresh id result
      → GoesOn id a.request.stream (
          emit P "route.selected" id tenant props none >>= λ u.
          if a.request.stream
          then execute_stream P p a routes result
          else execute_non_stream P p a routes result)
  unfolding execute_stream execute_non_stream
  GoesOn-attempts a routes id tenant props result h =
      let id_is = h.request_id in
      Emits-emit_bind P _ _ _ _ _ _ (
        Emits-if_known a.request.stream
          (λ streams.
            Emits-weaken (Emits-try_streams P p a _ _ _ result)
              (λ r ls d. routed (rw (streams, ← id_is) d))
              (λ r ls d. routed (rw (streams, ← id_is) d)))
          (λ whole.
            Emits-weaken (Emits-try_routes P p a _ _ _ result h.stream)
              (λ r ls d. routed (rw (whole, ← id_is) d))
              (λ r ls d. routed (rw (whole, ← id_is) d))))

  FollowsProtocol-run_chat :
      (req : ChatCompletionRequest) (headers : Dict String) (source_ip : String)
      (result : ChatResult)
      → result.stream ≡ none
      → FollowsProtocol result.request_id req.stream (run_chat P p req headers source_ip result)
  unfolding run_chat
  FollowsProtocol-run_chat req headers source_ip result h =
      let id = result.request_id in
      Emits-call_bind _ λ started.
        Emits-skip (Quiet-authenticate P p _ _ _ result) (λ r e. rw e not_begun)
          λ caller u. Emits-emit_bind P _ _ _ _ _ _ (
            Emits-weaken
              (GoesOn-stage id req.stream (Quiet-authorize P p caller _ result) λ u.
                Emits-skip (KeepsStream-resolve_prompt P p caller req _ result) (λ r e. rw e denied)
                  λ resolved same. GoesOn-same id same (
                    Emits-bind
                      (Emits-lookup_cache P p caller resolved.request resolved.props result h)
                      (λ r ls d. d)
                      λ r ls s. rw s.0 (
                        Emits-skip
                          (Emits-check_rate_limit P p id caller resolved.request
                            (estimate_tokens P req) resolved.props r s.1)
                          (λ r e. rw e denied)
                          λ r' fresh.
                            GoesOn-stage id resolved.request.stream
                              (Quiet-select_routes P p caller resolved.request
                                (request_summary req.model (estimate_tokens P req) resolved.props)
                                r')
                              λ routes.
                                Emits-step (Steady-elapsed P p _)
                                  λ t. GoesOn-attempts _ _ id _ _ r' fresh)))
              (λ r ls d. begun d) (λ r ls d. begun d))

  FollowsProtocol-execute_chat :
      (req : ChatCompletionRequest) (headers : Dict String) (source_ip id : String)
      → FollowsProtocol id req.stream (
          if p.ready
          then run_chat P p req headers source_ip (initial_result id)
          else pure (failure (initial_result id) (missing p.missing)))
  FollowsProtocol-execute_chat req headers source_ip id =
      Emits-if p.ready (FollowsProtocol-run_chat req headers source_ip (initial_result id) refl)
        (Emits-pure _ not_begun)

  -- A request as a run from the world behind the making of its id.
  pub execute_chat-Run :
      (req : ChatCompletionRequest) (headers : Dict String) (source_ip : String) (w : W)
      → let id = (P.new_uuid w).0 in
        Run
          (λ r ls. Protocol id req.stream (outcome r) ls)
          (λ r ls. Protocol id req.stream (outcome r) ls)
          (execute_chat P p req headers source_ip)
          w
  unfolding execute_chat ◌>>=◌
  execute_chat-Run req headers source_ip w =
      let (id, w') = P.new_uuid w in
      let r = (FollowsProtocol-execute_chat req headers source_ip id).at w' in
      record { exit = r.exit; acts = r.acts; after = r.after; runs = r.runs; says = r.says }

  -- How a request ends, and what it leaves of the world, do not depend on the event queue: not on
  -- the events that it holds, and not on its capacity, its overflow mode or its observers.
  pub execute_chat_ignores_queue :
      (req : ChatCompletionRequest) (headers : Dict String) (source_ip : String) (g h : Gateway W)
      → g.world ≡ h.world
      → let run = execute_chat P p req headers source_ip in
        ((run g).0 ≡ (run h).0) × ((run g).1.world ≡ (run h).1.world)
  execute_chat_ignores_queue req headers source_ip g h same =
      let r = execute_chat-Run req headers source_ip g.world in
      let r' : execute_chat P p req headers source_ip h
          ≡ (r.exit, record { events = replay r.acts h.events; world = r.after }) =
        rw (← same) (r.runs h.events) in
      (
        ap (λ x. x.0) (r.runs g.events) ∙ sym (ap (λ x. x.0) r'),
        ap (λ x. x.1.world) (r.runs g.events) ∙ sym (ap (λ x. x.1.world) r'),
      )
