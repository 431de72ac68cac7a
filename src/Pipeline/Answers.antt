-- ===== src/Pipeline/Answers.antt =====
-- The attempts, and the whole request, end with a reply that names the request.
use vulpes_core.Base.{
  arith, ℕ, String, ◌≡◌, ◌≢◌, refl, false, Option, none, some, List, [], ◌∷◌, if◌then◌else◌, ok,
  err, inl, inr, Result-cases,
}
use vulpes_core.Base.Dict.{Dict, lookup, insert}
use vulpes_core.Capabilities.{
  SelectedRoute, missing, ChatCompletionRequest, RequestSummary, Router, RouteRequest,
}
use vulpes_core.Config.{Config}
use vulpes_core.Models
use vulpes_core.Models.{ModelRegistry}
use vulpes_core.Queue.{Queue}
use vulpes_core.Plugins.Registry.{Registry}
use vulpes_core.Pipeline.Compile.{compile}
use vulpes_core.Pipeline.Readiness.{compile-Compiled, ready-holds}
use vulpes_core.Pipeline.Platform.{Platform}
use vulpes_core.Pipeline.State.{Pipeline, ChatResult, Reply}
use vulpes_core.Pipeline.Exec.{Exit, Gateway, next, done, panic, pure, ◌>>=◌}
use vulpes_core.Pipeline.Props.{estimate_tokens}
use vulpes_core.Pipeline.Post.{
  Meets, Returns-pure, Returns-finish, Returns-call, Returns-if, Returns-bind,
}
use vulpes_core.Pipeline.Attempts.{execute_non_stream, execute_stream, route_result, failure}
use vulpes_core.Pipeline.Stages.{initial_result, request_summary, Caller}
use vulpes_core.Pipeline.Chat.{first_route, ask_router, select_routes, run_chat, execute_chat}
use vulpes_core.Pipeline.Outcomes.{Plain, Replies, Returns-elapsed}
use vulpes_core.Pipeline.Carried.{Carried, Returns-try_routes, Returns-try_streams}
use vulpes_core.Pipeline.Total.{
  Tagged, Answers, tag-insert, Returns-emit, Returns-authenticate, Returns-authorize,
  Returns-resolve_prompt, Returns-lookup_cache, Returns-check_rate_limit,
}

module _ {W : Type 0} (P : Platform W) (p : Pipeline W) (id : String) where
  Tagged-route_result :
      (r : SelectedRoute) (i : ℕ) (result : ChatResult)
      → Tagged id result
      → Tagged id (route_result r i result)
  Tagged-route_result r i result t =
      let headers = tag-insert id "X-Gateway-Fallback-Index" _ _ refl (
        tag-insert id "X-Gateway-Route-Model" _ _ refl
          (tag-insert id "X-Gateway-Route-Provider" _ result refl t)) in
      record { request_id = t.request_id; header = headers.header; stream = t.stream }

  Tagged-Carried : Carried (Tagged id)
  Tagged-Carried = record {
    routed = Tagged-route_result;
    answered = λ result resp usage t. record {
      request_id = t.request_id;
      header = t.header;
      stream = t.stream;
    };
    handed = λ result job named t. record {
      request_id = t.request_id;
      header = t.header;
      stream = λ j same. ground (arith, same, named, t.request_id);
    };
  }

  Returns-first_route :
      (result : ChatResult) (routes : List SelectedRoute)
      → Tagged id result
      → Plain P p (Answers id) (first_route result routes)
  unfolding first_route
  Returns-first_route result [] t = Returns-finish _ t
  Returns-first_route result (r ∷ rs) t = Returns-pure _ tt

  Returns-ask_router :
      (o : Option (Router W)) (request : RouteRequest) (result : ChatResult)
      → o ≢ none
      → Tagged id result
      → Plain P p (Answers id) (ask_router o request result)
  unfolding ask_router
  Returns-ask_router none request result has_router t = absurd (has_router refl)
  Returns-ask_router (some router) request result has_router t =
      Returns-bind (Returns-call _ (λ a. tt)) (elim [
        | err e ↦ λ _. Returns-finish _ t
        | ok resp ↦ λ _. Returns-first_route result resp.routes t
      ])

  Returns-select_routes :
      p.router ≢ none
      → (caller : Caller) (req : ChatCompletionRequest) (summary : RequestSummary)
        (result : ChatResult)
      → Tagged id result
      → Plain P p (Answers id) (select_routes P p caller req summary result)
  unfolding select_routes
  Returns-select_routes has_router caller req summary result t =
      elim (Result-cases (Models.candidates p.models req.model)) [
        | inl (e, h) ↦ rw (h, select_routes) (Returns-finish _ t)
        | inr (candidates, h) ↦
            rw (h, select_routes) (Returns-ask_router p.router _ result has_router t)
      ]

  Returns-run_chat :
      (p.cfg.auth.anonymous ≡ false → p.authn ≢ none)
      → p.router ≢ none
      → (req : ChatCompletionRequest) (headers : Dict String) (source_ip : String)
        (result : ChatResult)
      → Tagged id result
      → Replies P p (Answers id) (run_chat P p req headers source_ip result)
  unfolding run_chat execute_stream execute_non_stream
  Returns-run_chat has_authn has_router req headers source_ip result t =
      Returns-bind (Returns-call _ (λ a. tt)) λ started _.
        Returns-bind (Returns-authenticate P p id has_authn _ _ _ result t) λ caller _.
          Returns-bind (Returns-emit P _ _ _ _ _) λ _ _.
            Returns-bind (Returns-authorize P p id caller _ result t) λ _ _.
              Returns-bind (Returns-resolve_prompt P p id caller req _ result t) λ resolved _.
                Returns-bind
                  (Returns-lookup_cache P p id caller resolved.request resolved.props result t)
                  λ r t'.
                    Returns-bind
                      (Returns-check_rate_limit P p id caller resolved.request
                        (estimate_tokens P req) resolved.props r t')
                      λ r' t''.
                        Returns-bind
                          (Returns-select_routes has_router caller resolved.request
                            (request_summary req.model (estimate_tokens P req) resolved.props) r'
                            t'')
                          λ routes _. Returns-bind (Returns-elapsed P p (Answers id) _) λ _ _.
                            Returns-bind (Returns-emit P _ _ _ _ _) λ _ _.
                              Returns-if resolved.request.stream
                                (λ _. Returns-try_streams P p Tagged-Carried _ _ _ _ r' t'')
                                (λ _. Returns-try_routes P p Tagged-Carried _ _ _ _ r' t'')

-- What ExecuteChat returns, if it returns.
abbrev pub returned : Exit Reply Reply → Option Reply
returned (next r) = some r
returned (done r) = some r
returned panic = none

pub returned-Meets :
    (N : Reply → Type 0) (e : Exit Reply Reply)
    → Meets N N e
    → (r : Reply) × (returned e ≡ some r) × N r
returned-Meets N (next r) h = (r, refl, h)
returned-Meets N (done r) h = (r, refl, h)
returned-Meets N panic h = absurd h

Tagged-initial : (id : String) → Tagged id (initial_result id)
unfolding insert lookup
Tagged-initial id = record {
  request_id = refl;
  header = refl;
  stream = λ job same. absurd (ground (arith, same));
}

-- Every request to a compiled pipeline ends with a reply, whatever the plugins answer: no nil
-- authenticator or router is ever called. The reply's request id is the UUID made for the request,
-- and its header X-Gateway-Request-Id has that id, on the error paths too; where it has a stream, the
-- stream has that id, too.
pub execute_chat_answers :
    {W : Type 0} (reg : Registry W) (cfg : Config) (models : ModelRegistry) {p : Pipeline W}
    {q : Queue W} (P : Platform W) (req : ChatCompletionRequest) (headers : Dict String)
    (source_ip : String) (g : Gateway W)
    → compile reg cfg models ≡ ok (p, q)
    → (r : Reply) × (returned (execute_chat P p req headers source_ip g).0 ≡ some r)
      × Tagged (P.new_uuid g.world).0 r.result
unfolding execute_chat ◌>>=◌
execute_chat_answers reg cfg models {p} P req headers source_ip g compiled =
    let id = (P.new_uuid g.world).0 in
    let c = compile-Compiled reg cfg models compiled in
    let start = initial_result id in
    let ends : Replies P p (Answers id) (
        if p.ready
        then run_chat P p req headers source_ip start
        else pure (failure start (missing p.missing))) =
      Returns-if p.ready
        (λ ready.
          let (has_authn, has_router) = ready-holds reg cfg c ready in
          Returns-run_chat P p id has_authn has_router req headers source_ip start
            (Tagged-initial id))
        (λ _. Returns-pure _ (Tagged-initial id)) in
    returned-Meets (Answers id) _ (ends.at (record g { world = (P.new_uuid g.world).1 }))
