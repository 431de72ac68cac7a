-- ===== src/Pipeline/Reported.antt =====
-- How many errors of providers the attempts at a request report.
use vulpes_core.Base.{
  ℕ, suc, ◌+◌, String, ◌≡◌, refl, ap, Bool, true, false, Option, none, some, List, [], ◌∷◌, ◌++◌,
  take, length, ok, err, inl, inr, Option-cases, arith, if◌then◌else◌, ◌∙◌, sym,
}
use vulpes_core.Base.Dict.{Dict, lookup}
use vulpes_core.Capabilities.{Error, SelectedRoute, UpstreamProvider, upstream}
use vulpes_core.Pipeline.Platform.{Platform}
use vulpes_core.Pipeline.State.{Pipeline, ChatResult, Reply}
use vulpes_core.Pipeline.Exec.{Exec, Gateway}
use vulpes_core.Pipeline.Answers.{returned}
use vulpes_core.Pipeline.Trace.{Label, Emits, Action, labels, replay}
use vulpes_core.Pipeline.TraceRules.{
  Emits-pure, Emits-if, Emits-bind, Emits-call_bind, Emits-weaken,
}
use vulpes_core.Pipeline.Attempts.{
  Attempt, give_up, attempt_failed, try_routes, try_streams, route_result, max_attempts,
  execute_stream, execute_non_stream,
}
use vulpes_core.Pipeline.Protocol.{Fails, Emits-step, Emits-emit_error_bind}
use vulpes_core.Pipeline.Tries.{Steady-elapsed, Steady-collect_response, Emits-after_success}
use vulpes_core.Pipeline.Told.{Says-returned}
use vulpes_core.Pipeline.Lifetime.{retries}

-- What follows the errors where the reply has none: the end of a request, but not of a stream.
abbrev pub ended : Bool → String → List Label
ended stream id = if stream then [] else (id, "request.completed") ∷ []

module _ {W : Type 0} (p : Pipeline W) where
  -- How many of the routes have a provider that is configured.
  abbrev pub configured : List SelectedRoute → ℕ
  configured [] = 0
  configured (r ∷ routes) = elim (lookup r.provider_instance p.upstreams) [
    | none ↦ configured routes
    | some up ↦ suc (configured routes)
  ]

  -- The reply is served by the route behind `k` of these routes, whose indices start at `i`, and each
  -- of the `k` whose provider is configured has reported one error.
  pub record Counted (stream : Bool) (id : String) (routes : List SelectedRoute) (i : ℕ) (r : Reply)
      (ls : List Label) : Type 0 where
    pub at :
        r.error ≡ none
        → (k : ℕ) × (r.result.fallback_index ≡ i + k)
          × (ls ≡ retries (configured (take k routes)) id ++ ended stream id)

  Fails-Counted :
      {stream : Bool} {id : String} {routes : List SelectedRoute} {i : ℕ} {r : Reply}
      {ls : List Label}
      → Fails r
      → Counted stream id routes i r ls
  Fails-Counted h = record { at = λ fine. ground (arith, fine, h) }

  configured-none :
      (route : SelectedRoute) (routes : List SelectedRoute)
      → lookup route.provider_instance p.upstreams ≡ none
      → configured (route ∷ routes) ≡ configured routes
  configured-none route routes e = rw (e, configured) refl

  configured-some :
      (route : SelectedRoute) (routes : List SelectedRoute) {up : UpstreamProvider W}
      → lookup route.provider_instance p.upstreams ≡ some up
      → configured (route ∷ routes) ≡ suc (configured routes)
  configured-some route routes e = rw (e, configured) refl

  Counted-skip :
      {stream : Bool} {id : String} {routes : List SelectedRoute} {i : ℕ} {r : Reply}
      {ls : List Label} (route : SelectedRoute)
      → lookup route.provider_instance p.upstreams ≡ none
      → Counted stream id routes (suc i) r ls
      → Counted stream id (route ∷ routes) i r ls
  Counted-skip {stream} {id} {routes} route e h = record {
    at = λ fine.
        let (k, index, told) = h.at fine in
        (
          suc k,
          omega (arith, index),
          told
              ∙ ap (λ n. retries n id ++ ended stream id)
                  (sym (configured-none route (take k routes) e)),
        );
  }

  Counted-error :
      {stream : Bool} {id : String} {routes : List SelectedRoute} {i : ℕ} {r : Reply}
      {ls : List Label} (route : SelectedRoute) {up : UpstreamProvider W}
      → lookup route.provider_instance p.upstreams ≡ some up
      → Counted stream id routes (suc i) r ls
      → Counted stream id (route ∷ routes) i r ((id, "upstream.error") ∷ ls)
  Counted-error {stream} {id} {routes} route e h = record {
    at = λ fine.
        let (k, index, told) = h.at fine in
        (
          suc k,
          omega (arith, index),
          ap (λ l. (id, "upstream.error") ∷ l) told
              ∙ ap (λ n. retries n id ++ ended stream id)
                  (sym (configured-some route (take k routes) e)),
        );
  }

module _ {W : Type 0} (P : Platform W) (p : Pipeline W) where
  -- What the attempts report, over the routes from index `i` on.
  abbrev Reports : Bool → String → List SelectedRoute → ℕ → Exec W Reply Reply → Type 0
  Reports stream id routes i m =
      Emits (Counted p stream id routes i) (Counted p stream id routes i) m

  Fails-give_up :
      (a : Attempt) (last : Option Error) (result : ChatResult)
      → Emits (λ r ls. Fails r) (λ r ls. Fails r) (give_up P p a last result)
  unfolding give_up
  Fails-give_up a last result =
      Emits-step (Steady-elapsed P p _) λ t. Emits-emit_error_bind P _ _ _ _ _ _ (Emits-pure _ refl)

  Reports-give_up :
      (stream : Bool) (id : String) (routes : List SelectedRoute) (i : ℕ) (a : Attempt)
      (last : Option Error) (result : ChatResult)
      → Reports stream id routes i (give_up P p a last result)
  Reports-give_up stream id routes i a last result =
      Emits-weaken (Fails-give_up a last result) (λ r ls f. Fails-Counted p f)
        (λ r ls f. Fails-Counted p f)

  Reports-attempt_failed :
      (stream : Bool) (route : SelectedRoute) (routes : List SelectedRoute) (i : ℕ) (a : Attempt)
      (route_props : Dict String) (result : ChatResult) (e : Error)
      (next_route : Exec W Reply Reply) {up : UpstreamProvider W}
      → lookup route.provider_instance p.upstreams ≡ some up
      → Reports stream result.request_id routes (suc i) next_route
      → Reports stream result.request_id
          (route ∷ routes)
          i
          (attempt_failed P p a route_props result e next_route)
  unfolding attempt_failed
  Reports-attempt_failed stream route routes i a route_props result e next_route there h =
      Emits-emit_error_bind P _ _ _ _ _ _ (
        Emits-weaken
          (Emits-if _ h (Reports-give_up stream result.request_id routes (suc i) a (some e) result))
          (λ r ls c. Counted-error p route there c) (λ r ls c. Counted-error p route there c))

  Reports-skip :
      (stream : Bool) (id : String) (route : SelectedRoute) (routes : List SelectedRoute) (i : ℕ)
      {m : Exec W Reply Reply}
      → lookup route.provider_instance p.upstreams ≡ none
      → Reports stream id routes (suc i) m
      → Reports stream id (route ∷ routes) i m
  Reports-skip stream id route routes i e h =
      Emits-weaken h (λ r ls c. Counted-skip p route e c) (λ r ls c. Counted-skip p route e c)

  Reports-try_streams :
      (a : Attempt) (routes : List SelectedRoute) (i : ℕ) (last : Option Error)
      (result : ChatResult)
      → Reports true result.request_id routes i (try_streams P p a routes i last result)
  unfolding try_streams
  Reports-try_streams a [] i last result = Reports-give_up true _ [] i a last result
  Reports-try_streams a (r ∷ routes) i last result =
      elim (Option-cases (lookup r.provider_instance p.upstreams)) [
        | inl e ↦
            rw (e, try_streams)
              (Reports-skip true _ r routes i e (Reports-try_streams a routes (suc i) last result))
        | inr (up, e) ↦
            rw (e, try_streams)
              (Emits-step (Steady-elapsed P p _) λ t. Emits-call_bind _ (elim [
                | err x ↦
                    Reports-attempt_failed true r routes i a _ (route_result r i result) x _ e
                      (Reports-try_streams a routes (suc i) (some x) (route_result r i result))
                | ok chunks ↦ Emits-pure _ (record { at = λ fine. (0, omega arith, refl) })
              ]))
      ]

  Reports-try_routes :
      (a : Attempt) (routes : List SelectedRoute) (i : ℕ) (last : Option Error)
      (result : ChatResult)
      → Reports false result.request_id routes i (try_routes P p a routes i last result)
  unfolding try_routes
  Reports-try_routes a [] i last result = Reports-give_up false _ [] i a last result
  Reports-try_routes a (r ∷ routes) i last result =
      elim (Option-cases (lookup r.provider_instance p.upstreams)) [
        | inl e ↦
            rw (e, try_routes)
              (Reports-skip false _ r routes i e (Reports-try_routes a routes (suc i) _ result))
        | inr (up, e) ↦
            rw (e, try_routes)
              (Emits-step (Steady-elapsed P p _) λ t. Emits-call_bind _ (elim [
                | err x ↦
                    Reports-attempt_failed false r routes i a _ (route_result r i result) x _ e
                      (Reports-try_routes a routes (suc i) (some x) (route_result r i result))
                | ok chunks ↦ Emits-step (Steady-collect_response P p _ _) (elim [
                  | err x ↦
                      Reports-attempt_failed false r routes i a _ (route_result r i result)
                        (upstream x) _ e
                        (Reports-try_routes a routes (suc i) (some (upstream x))
                          (route_result r i result))
                  | ok c ↦
                      Emits-bind
                        (Emits-after_success P p a _
                          (record (route_result r i result) { response = c.resp; usage = c.usage }))
                        (λ x ls d. Fails-Counted p d.1)
                        (λ u ls s.
                          rw s (Emits-pure _ (record { at = λ fine. (0, omega arith, refl) })))
                ])
              ]))
      ]

  -- Over all the routes.
  Reports-labels :
      {stream : Bool} {id : String} (routes : List SelectedRoute) (m : Exec W Reply Reply)
      (g : Gateway W) (r : Reply)
      → Reports stream id routes 0 m
      → returned (m g).0 ≡ some r
      → r.error ≡ none
      → (acts : List Action) × ((m g).1.events ≡ replay acts g.events)
        × (labels acts
            ≡ retries (configured p (take r.result.fallback_index routes)) id ++ ended stream id)
  Reports-labels {stream} {id} routes m g r h ret fine =
      let run = h.at g.world in
      let counted =
        Says-returned (Counted p stream id routes 0) run.exit (labels run.acts) run.says
          (ap (λ x. returned x.0) (sym (run.runs g.events)) ∙ ret) in
      let (k, index, told) = counted.at fine in
      let same : k ≡ r.result.fallback_index = omega (arith, index) in
      (run.acts, ap (λ x. x.1.events) (run.runs g.events), rw (← same) told)

  -- What runs the attempts: executeStream or executeNonStream.
  abbrev pub try_all : Bool → Attempt → List SelectedRoute → ChatResult → Exec W Reply Reply
  try_all stream a routes result =
      if stream then execute_stream P p a routes result else execute_non_stream P p a routes result

  -- Where the attempts end with a reply that has no error, the events that they send are exactly
  -- these, each with the id of the request: one error for each route in front of the one that
  -- served the request (at the reply's fallback index) whose provider is configured, and none for
  -- those whose provider is not; then, if it is not a stream, the completion.
  pub attempts_reported :
      (stream : Bool) (a : Attempt) (routes : List SelectedRoute) (result : ChatResult)
      (g : Gateway W) (r : Reply)
      → returned (try_all stream a routes result g).0 ≡ some r
      → r.error ≡ none
      → let tried = take (max_attempts p.cfg.fallbacks.max_attempts (length routes)) routes in
        (acts : List Action) × ((try_all stream a routes result g).1.events ≡ replay acts g.events)
        × (labels acts
            ≡ retries (configured p (take r.result.fallback_index tried)) result.request_id
              ++ ended stream result.request_id)
  unfolding execute_stream execute_non_stream
  attempts_reported true a routes result g r ret fine =
      Reports-labels (take (max_attempts p.cfg.fallbacks.max_attempts (length routes)) routes) _ g r
        (Reports-try_streams a _ 0 none result) ret fine
  attempts_reported false a routes result g r ret fine =
      Reports-labels (take (max_attempts p.cfg.fallbacks.max_attempts (length routes)) routes) _ g r
        (Reports-try_routes a _ 0 none result) ret fine
