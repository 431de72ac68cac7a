-- ===== src/Pipeline/Carried.antt =====
-- What holds of the result throughout the attempts holds of the reply.
use vulpes_core.Base.{
  ℕ, suc, ◌≡◌, refl, Option, some, List, [], ◌∷◌, ok, err, inl, inr, Option-cases,
}
use vulpes_core.Base.Dict.{lookup}
use vulpes_core.Capabilities.{
  UpstreamProvider, ChatCompletionResponse, Usage, Error, SelectedRoute, upstream,
}
use vulpes_core.Pipeline.Platform.{Platform}
use vulpes_core.Pipeline.State.{Pipeline, ChatResult, Reply, Relay}
use vulpes_core.Pipeline.Post.{Returns-pure, Returns-call, Returns-bind}
use vulpes_core.Pipeline.Attempts.{Attempt, try_routes, try_streams, route_result}
use vulpes_core.Pipeline.Outcomes.{
  Replies, Returns-elapsed, Returns-after_success, Returns-give_up, Returns-attempt_failed,
  Returns-collect_response,
}

-- A property of a result that the attempts keep.
pub record Carried (T : ChatResult → Type 0) : Type 0 where
  pub routed :
      (r : SelectedRoute) (i : ℕ) (result : ChatResult) → T result → T (route_result r i result)
  pub answered :
      (result : ChatResult) (resp : ChatCompletionResponse) (usage : Usage)
      → T result
      → T (record result { response = resp; usage = usage })
  pub handed :
      (result : ChatResult) (job : Relay)
      → job.request_id ≡ result.request_id
      → T result
      → T (record result { stream = some job })

abbrev pub Of : (ChatResult → Type 0) → Reply → Type 0
Of T r = T r.result

module _ {W : Type 0} (P : Platform W) (p : Pipeline W) {T : ChatResult → Type 0}
    (c : Carried T) where
  -- An attempt at a route whose provider is there.
  pub Returns-try_routes_up :
      (a : Attempt) (r : SelectedRoute) (routes : List SelectedRoute) (i : ℕ) (last : Option Error)
      (result : ChatResult) (up : UpstreamProvider W)
      → lookup r.provider_instance p.upstreams ≡ some up
      → T (route_result r i result)
      → ((i : ℕ) (last : Option Error) (result : ChatResult)
          → T result
          → Replies P p (Of T) (try_routes P p a routes i last result))
      → Replies P p (Of T) (try_routes P p a (r ∷ routes) i last result)
  unfolding try_routes
  Returns-try_routes_up a r routes i last result up e t' rest =
      rw (e, try_routes)
        (Returns-bind (Returns-elapsed P p (Of T) _) λ _ _.
          Returns-bind (Returns-call _ (λ a. tt)) (elim [
            | err e ↦ λ _.
                Returns-attempt_failed P p (Of T) a _ _ e _ (λ _. t')
                  (rest (suc i) (some e) (route_result r i result) t')
            | ok chunks ↦ λ _. Returns-bind (Returns-collect_response P p (Of T) _ _) (elim [
              | err e ↦ λ _.
                  Returns-attempt_failed P p (Of T) a _ _ (upstream e) _ (λ _. t')
                    (rest (suc i) (some (upstream e)) (route_result r i result) t')
              | ok got ↦ λ _.
                  let done_tag : T (record (route_result r i result) {
                    response = got.resp;
                    usage = got.usage;
                  }) =
                    c.answered (route_result r i result) got.resp got.usage t' in
                  Returns-bind (Returns-after_success P p (Of T) a _ _ (λ _. done_tag))
                    λ _ _. Returns-pure _ done_tag
            ])
          ]))

  -- An attempt at a route whose provider is there.
  pub Returns-try_streams_up :
      (a : Attempt) (r : SelectedRoute) (routes : List SelectedRoute) (i : ℕ) (last : Option Error)
      (result : ChatResult) (up : UpstreamProvider W)
      → lookup r.provider_instance p.upstreams ≡ some up
      → T (route_result r i result)
      → ((i : ℕ) (last : Option Error) (result : ChatResult)
          → T result
          → Replies P p (Of T) (try_streams P p a routes i last result))
      → Replies P p (Of T) (try_streams P p a (r ∷ routes) i last result)
  unfolding try_streams
  Returns-try_streams_up a r routes i last result up e t' rest =
      rw (e, try_streams)
        (Returns-bind (Returns-elapsed P p (Of T) _) λ _ _.
          Returns-bind (Returns-call _ (λ a. tt)) (elim [
            | err e ↦ λ _.
                Returns-attempt_failed P p (Of T) a _ _ e _ (λ _. t')
                  (rest (suc i) (some e) (route_result r i result) t')
            | ok chunks ↦ λ _. Returns-pure _ (c.handed (route_result r i result) _ refl t')
          ]))

  pub Returns-try_routes :
      (a : Attempt) (routes : List SelectedRoute) (i : ℕ) (last : Option Error)
      (result : ChatResult)
      → T result
      → Replies P p (Of T) (try_routes P p a routes i last result)
  unfolding try_routes
  Returns-try_routes a [] i last result t = Returns-give_up P p (Of T) a last result (λ _. t)
  Returns-try_routes a (r ∷ routes) i last result t =
      elim (Option-cases (lookup r.provider_instance p.upstreams)) [
        | inl e ↦ rw (e, try_routes) (Returns-try_routes a routes (suc i) _ result t)
        | inr (up, e) ↦
            Returns-try_routes_up a r routes i last result up e (c.routed r i result t)
              (Returns-try_routes a routes)
      ]

  pub Returns-try_streams :
      (a : Attempt) (routes : List SelectedRoute) (i : ℕ) (last : Option Error)
      (result : ChatResult)
      → T result
      → Replies P p (Of T) (try_streams P p a routes i last result)
  unfolding try_streams
  Returns-try_streams a [] i last result t = Returns-give_up P p (Of T) a last result (λ _. t)
  Returns-try_streams a (r ∷ routes) i last result t =
      elim (Option-cases (lookup r.provider_instance p.upstreams)) [
        | inl e ↦ rw (e, try_streams) (Returns-try_streams a routes (suc i) last result t)
        | inr (up, e) ↦
            Returns-try_streams_up a r routes i last result up e (c.routed r i result t)
              (Returns-try_streams a routes)
      ]
