-- ===== src/Pipeline/Total.antt =====
-- A request to a compiled pipeline always ends with a reply, never with a nil pointer, and the reply
-- names the request.
use vulpes_core.Base.{
  String, ◌≡◌, refl, ◌≢◌, ◌∙◌, false, Option, none, some, List, [], ◌∷◌, ◌==◌, ok, err, inl, inr,
  Option-cases, Bool-cases,
}
use vulpes_core.Base.Int.{ℤ, is_positive}
use vulpes_core.Base.Dict.{Dict, lookup, insert, lookup-insert}
use vulpes_core.Capabilities.{
  Error, CallContext, ChatCompletionRequest, RequestSummary, GatewayEvent, Usage,
  RateLimitCheckResponse, ChatMessage,
}
use vulpes_core.Pipeline.Platform.{Platform}
use vulpes_core.Pipeline.State.{Pipeline, ChatResult, Reply, Relay}
use vulpes_core.Pipeline.Post.{
  Returns, Returns-pure, Returns-finish, Returns-call, Returns-if, Returns-bind,
}
use vulpes_core.Pipeline.Events.{emit, emit_error, update_shared, enqueue_event}
use vulpes_core.Pipeline.Stages.{
  Caller, Resolved, authenticate, authorize, resolve_prompt, use_prompt, lookup_cache,
  check_rate_limit, cache_header, limit_headers,
}

-- The result belongs to the request `id`; its header says so, and so does its stream.
pub record Tagged (id : String) (result : ChatResult) : Type 0 where
  pub request_id : result.request_id ≡ id
  pub header : lookup "X-Gateway-Request-Id" result.headers ≡ some id
  pub stream : (job : Relay) → result.stream ≡ some job → job.request_id ≡ id

-- What every reply to the request `id` meets.
abbrev pub Answers : String → Reply → Type 0
Answers id r = Tagged id r.result

abbrev pub Anything : {A : Type 0} → A → Type 0
Anything a = Unit

-- Another header leaves the tag.
pub tag-insert :
    (id k v : String) (result : ChatResult)
    → (k == "X-Gateway-Request-Id") ≡ false
    → Tagged id result
    → Tagged id (record result { headers = insert k v result.headers })
tag-insert id k v result other t = record {
  request_id = t.request_id;
  header = lookup-insert "X-Gateway-Request-Id" k v result.headers ∙ rw other t.header;
  stream = t.stream;
}

module _ {W : Type 0} {D : Reply → Type 0} where
  Returns-enqueue_event :
      (ev : GatewayEvent) → Returns {W = W} (Anything {A = Unit {0}}) D (enqueue_event ev)
  unfolding enqueue_event
  Returns-enqueue_event ev = record { at = λ g. tt }

  pub Returns-emit :
      (P : Platform W) (event request_id tenant : String) (props : Dict String)
      (usage : Option Usage)
      → Returns {W = W} (Anything {A = Unit {0}}) D (emit P event request_id tenant props usage)
  unfolding emit
  Returns-emit P event request_id tenant props usage =
      Returns-bind (Returns-call P.new_uuid (λ a. tt))
        λ event_id _. Returns-bind (Returns-call P.now (λ a. tt)) λ now _. Returns-enqueue_event _

  pub Returns-emit_error :
      (P : Platform W) (event request_id tenant : String) (props : Dict String) (e : Error)
      → Returns {W = W} (Anything {A = Unit {0}}) D (emit_error P event request_id tenant props e)
  unfolding emit_error
  Returns-emit_error P event request_id tenant props e =
      Returns-bind (Returns-call P.new_uuid (λ a. tt))
        λ event_id _. Returns-bind (Returns-call P.now (λ a. tt)) λ now _. Returns-enqueue_event _

  Returns-update_shared :
      (request_id : String) (props : Dict String)
      → Returns {W = W} (Anything {A = Unit {0}}) D (update_shared request_id props)
  unfolding update_shared
  Returns-update_shared request_id props = record { at = λ g. tt }

module _ {W : Type 0} (P : Platform W) (p : Pipeline W) (id : String) where
  pub Returns-authenticate :
      (p.cfg.auth.anonymous ≡ false → p.authn ≢ none)
      → (call_ctx : CallContext) (headers : Dict String) (source_ip : String) (result : ChatResult)
      → Tagged id result
      → Returns
          (Anything {A = Caller})
          (Answers id)
          (authenticate P p call_ctx headers source_ip result)
  unfolding authenticate
  Returns-authenticate has_authn call_ctx headers source_ip result t =
      Returns-if p.cfg.auth.anonymous (λ _. Returns-pure _ tt)
        λ known. elim (Option-cases p.authn) [
          | inl e ↦ absurd (has_authn known e)
          | inr (authn, e) ↦ rw e (
              Returns-bind (Returns-call _ (λ a. tt)) (elim [
                | err e ↦ λ _. Returns-finish _ t
                | ok auth ↦
                    λ _. Returns-if auth.allow (λ _. Returns-pure _ tt) (λ _. Returns-finish _ t)
              ]))
        ]

  pub Returns-authorize :
      (caller : Caller) (summary : RequestSummary) (result : ChatResult)
      → Tagged id result
      → Returns (Anything {A = Unit {0}}) (Answers id) (authorize P p caller summary result)
  unfolding authorize
  Returns-authorize caller summary result t = elim (Option-cases p.authz) [
    | inl e ↦ rw (e, authorize) (Returns-pure _ tt)
    | inr (authz, e) ↦
        rw (e, authorize)
          (Returns-bind (Returns-call _ (λ a. tt)) (elim [
            | err e ↦ λ _. Returns-finish _ t
            | ok az ↦ λ _. Returns-if az.allow (λ _. Returns-pure _ tt) (λ _. Returns-finish _ t)
          ]))
  ]

  Returns-use_prompt :
      (messages : List ChatMessage) (properties : Dict String) (request_id : String)
      (req : ChatCompletionRequest) (props : Dict String)
      → Returns {W = W}
          (Anything {A = Resolved})
          (Answers id)
          (use_prompt messages properties request_id req props)
  unfolding use_prompt
  Returns-use_prompt [] properties request_id req props = Returns-pure _ tt
  Returns-use_prompt (m ∷ ms) properties request_id req props =
      Returns-bind (Returns-update_shared _ _) (λ _ _. Returns-pure _ tt)

  pub Returns-resolve_prompt :
      (caller : Caller) (req : ChatCompletionRequest) (props : Dict String) (result : ChatResult)
      → Tagged id result
      → Returns (Anything {A = Resolved}) (Answers id) (resolve_prompt P p caller req props result)
  unfolding resolve_prompt
  Returns-resolve_prompt caller req props result t = elim (Option-cases p.prompt) [
    | inl e ↦ rw (e, resolve_prompt) (Returns-pure _ tt)
    | inr (prompt, e) ↦
        rw (e, resolve_prompt)
          (Returns-bind (Returns-call _ (λ a. tt)) (elim [
            | err e ↦ λ _. Returns-finish _ t
            | ok pr ↦ λ _. Returns-use_prompt pr.messages pr.properties _ req props
          ]))
  ]

  Tagged-cache_header :
      (value : String) (result : ChatResult)
      → Tagged id result
      → Tagged id (cache_header value result)
  Tagged-cache_header value result t = tag-insert id "X-Gateway-Cache" value result refl t

  pub Returns-lookup_cache :
      (caller : Caller) (req : ChatCompletionRequest) (props : Dict String) (result : ChatResult)
      → Tagged id result
      → Returns (Tagged id) (Answers id) (lookup_cache P p caller req props result)
  unfolding lookup_cache
  Returns-lookup_cache caller req props result t = elim (Option-cases p.cache) [
    | inl e ↦ rw (e, lookup_cache) (Returns-pure _ t)
    | inr (cache, e) ↦
        rw (e, lookup_cache)
          (Returns-if req.stream (λ _. Returns-pure _ t)
            λ _. Returns-bind (Returns-call _ (λ a. tt)) (elim [
              | err e ↦ λ _. Returns-pure _ (Tagged-cache_header "MISS" result t)
              | ok lk ↦ λ _.
                  Returns-if lk.hit
                    (λ _. Returns-bind (Returns-emit P _ _ _ _ _) λ _ _. Returns-finish _ (record {
                      request_id = t.request_id;
                      header = (Tagged-cache_header "HIT" result t).header;
                      stream = t.stream;
                    }))
                    (λ _. Returns-pure _ (Tagged-cache_header "MISS" result t))
            ]))
  ]

  Tagged-limit_headers :
      (rl : RateLimitCheckResponse) (result : ChatResult)
      → Tagged id result
      → Tagged id (limit_headers rl result)
  Tagged-limit_headers rl result t = elim (Bool-cases (is_positive rl.state.request_limit)) [
    | inl e ↦ rw e (
        tag-insert id "X-Gateway-RateLimit-Reset" _ _ refl (
          tag-insert id "X-Gateway-RateLimit-Remaining" _ _ refl
            (tag-insert id "X-Gateway-RateLimit-Limit" _ result refl t)))
    | inr e ↦ rw e t
  ]

  pub Returns-check_rate_limit :
      (caller : Caller) (req : ChatCompletionRequest) (tokens : ℤ) (props : Dict String)
      (result : ChatResult)
      → Tagged id result
      → Returns (Tagged id) (Answers id) (check_rate_limit P p caller req tokens props result)
  unfolding check_rate_limit
  Returns-check_rate_limit caller req tokens props result t = elim (Option-cases p.ratelimit) [
    | inl e ↦ rw (e, check_rate_limit) (Returns-pure _ t)
    | inr (ratelimit, e) ↦
        rw (e, check_rate_limit)
          (Returns-bind (Returns-call _ (λ a. tt)) (elim [
            | err e ↦ λ _. Returns-finish _ t
            | ok rl ↦ λ _.
                Returns-if (rl.decision == "deny")
                  (λ _. Returns-finish _ (Tagged-limit_headers rl result t))
                  (λ _. Returns-pure _ (Tagged-limit_headers rl result t))
          ]))
  ]
