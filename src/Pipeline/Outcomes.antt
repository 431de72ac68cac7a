-- ===== src/Pipeline/Outcomes.antt =====
-- The parts of an attempt at a route end with a value, or with a reply that meets a predicate.
use vulpes_core.Base.{
  ℕ, String, Option, none, some, List, [], ◌∷◌, ◌==◌, Result, ok, err, inl, inr, Option-cases,
}
use vulpes_core.Base.Dict.{Dict}
use vulpes_core.Capabilities.{
  Error, Observer, Identity, Usage, CallContext, ChatCompletionRequest, ResponseChunk,
  UpstreamError,
}
use vulpes_core.Pipeline.Platform.{Platform}
use vulpes_core.Pipeline.State.{Pipeline, ChatResult, Reply}
use vulpes_core.Pipeline.Exec.{Exec, pure, ◌>>=◌}
use vulpes_core.Pipeline.Post.{
  Returns, Returns-pure, Returns-finish, Returns-call, Returns-if, Returns-bind,
}
use vulpes_core.Pipeline.Collect.{
  Collected, Response, collect_response, collect_chunks, finish_response, nothing_collected,
}
use vulpes_core.Pipeline.Attempts.{
  Attempt, elapsed, store_response, commit_usage, notify_blocking, after_success, give_up,
  attempt_failed, failure,
}
use vulpes_core.Pipeline.Total.{Anything, Returns-emit, Returns-emit_error}

module _ {W : Type 0} (P : Platform W) (p : Pipeline W) (D : Reply → Type 0) where
  abbrev pub Plain : {A : Type 0} → Exec W Reply A → Type 0
  Plain m = Returns Anything D m

  abbrev pub Replies : Exec W Reply Reply → Type 0
  Replies m = Returns D D m

  pub Returns-elapsed : (started : ℕ) → Plain (elapsed P p started)
  Returns-elapsed started = Returns-bind (Returns-call _ (λ a. tt)) (λ _ _. Returns-pure _ tt)

  pub Returns-store_response :
      (req : ChatCompletionRequest) (call_ctx : CallContext) (identity : Identity)
      (props : Dict String) (result : ChatResult)
      → Plain (store_response P p req call_ctx identity props result)
  unfolding store_response
  Returns-store_response req call_ctx identity props result = elim (Option-cases p.cache) [
    | inl e ↦ rw (e, store_response) (Returns-pure _ tt)
    | inr (cache, e) ↦
        rw (e, store_response) (Returns-bind (Returns-call _ (λ a. tt)) (λ _ _. Returns-pure _ tt))
  ]

  pub Returns-commit_usage :
      (call_ctx : CallContext) (identity : Identity) (usage : Usage)
      → Plain (commit_usage P p call_ctx identity usage)
  unfolding commit_usage
  Returns-commit_usage call_ctx identity usage = elim (Option-cases p.ratelimit) [
    | inl e ↦ rw (e, commit_usage) (Returns-pure _ tt)
    | inr (ratelimit, e) ↦
        rw (e, commit_usage) (Returns-bind (Returns-call _ (λ a. tt)) (λ _ _. Returns-pure _ tt))
  ]

  pub Returns-notify_blocking :
      (observers : List (Observer W)) (identity : Identity) (props : Dict String)
      (result : ChatResult)
      → ((e : Error) → D (failure result e))
      → Plain (notify_blocking P p observers identity props result)
  unfolding notify_blocking
  Returns-notify_blocking [] identity props result t = Returns-pure _ tt
  Returns-notify_blocking (obs ∷ rest) identity props result t =
      let ih = Returns-notify_blocking rest identity props result t in
      Returns-bind (Returns-call _ (λ a. tt)) λ _ _. Returns-bind (Returns-call _ (λ a. tt)) λ _ _.
        Returns-bind (Returns-call _ (λ a. tt))
          (elim [ none ↦ λ _. ih | some e ↦ λ _. Returns-finish _ (t _) ])

  pub Returns-after_success :
      (a : Attempt) (route_props : Dict String) (result : ChatResult)
      → ((e : Error) → D (failure result e))
      → Plain (after_success P p a route_props result)
  unfolding after_success
  Returns-after_success a route_props result t =
      Returns-bind (Returns-store_response a.request a.call_ctx a.identity _ result) λ _ _.
        Returns-bind (Returns-commit_usage _ _ _) λ _ _.
          Returns-bind (Returns-emit P _ _ _ _ _)
            λ _ _. Returns-notify_blocking p.blocking_observers _ _ result t

  pub Returns-give_up :
      (a : Attempt) (last : Option Error) (result : ChatResult)
      → ((e : Error) → D (failure result e))
      → Replies (give_up P p a last result)
  unfolding give_up
  Returns-give_up a last result t =
      Returns-bind (Returns-elapsed _)
        λ _ _. Returns-bind (Returns-emit_error P _ _ _ _ _) λ _ _. Returns-pure _ (t _)

  pub Returns-attempt_failed :
      (a : Attempt) (route_props : Dict String) (result : ChatResult) (e : Error)
      (next_route : Exec W Reply Reply)
      → ((e : Error) → D (failure result e))
      → Replies next_route
      → Replies (attempt_failed P p a route_props result e next_route)
  unfolding attempt_failed
  Returns-attempt_failed a route_props result e next_route t h =
      Returns-bind (Returns-emit_error P _ _ _ _ _)
        λ _ _. Returns-if _ (λ _. h) (λ _. Returns-give_up a (some e) result t)

  pub Returns-finish_response :
      (model : String) (c : Collected) → Plain (finish_response {R = Reply} P model c)
  unfolding finish_response
  Returns-finish_response model c =
      Returns-bind {M = Anything}
        (Returns-if (c.resp.id == "")
          (λ _.
            Returns-bind (Returns-call _ (λ a. tt))
              λ _ _. Returns-bind (Returns-call _ (λ a. tt)) λ _ _. Returns-pure _ tt)
          (λ _. Returns-pure _ tt))
        λ _ _. Returns-pure _ tt

  pub Returns-collected :
      (model : String) (r : Result UpstreamError Collected)
      → Plain {A = Result UpstreamError Response} (elim r [
        | err e ↦ pure (err e)
        | ok c ↦ finish_response P model c >>= λ resp.
            pure (ok (record { resp = resp; usage = c.usage }))
      ])
  Returns-collected model (err e) = Returns-pure _ tt
  Returns-collected model (ok c) =
      Returns-bind (Returns-finish_response model c) (λ _ _. Returns-pure _ tt)

  pub Returns-collect_response :
      (chunks : List ResponseChunk) (model : String)
      → Plain (collect_response {R = Reply} P chunks model)
  unfolding collect_response
  Returns-collect_response chunks model =
      Returns-collected model (collect_chunks model chunks nothing_collected)
