-- ===== src/HttpApi/Total.antt =====
-- The server as a whole answers every request, from the handler of its route.
use vulpes_core.Base.{
  String, ◌≡◌, ◌≢◌, ◌⊎◌, inl, inr, refl, ◌∙◌, Bool, false, not, ◌&&◌, List, [], ◌∷◌, none, some, ok,
  ◌==◌, eq_iff, if◌then◌else◌, arith, Bool-cases, Option-cases, Result-cases, All,
}
use vulpes_core.Base.Int.{pos}
use vulpes_core.Base.Dict.{Dict, lookup, insert, lookup-insert}
use vulpes_core.Config.{Config}
use vulpes_core.Models.{ModelRegistry}
use vulpes_core.Queue.{Queue}
use vulpes_core.Plugins.Registry.{Registry}
use vulpes_core.Pipeline.Platform.{Platform}
use vulpes_core.Pipeline.State.{Pipeline, Reply}
use vulpes_core.Pipeline.Compile.{compile}
use vulpes_core.Pipeline.Exec.{Gateway}
use vulpes_core.Pipeline.Protocol.{
  Outcome, failed, answered, streaming, outcome, Attempted, completed, handed_over, gave_up, Begun,
  hit, routed, denied, Protocol, not_begun, begun,
}
use vulpes_core.Pipeline.Protocol as Protocol
use vulpes_core.Pipeline.Told.{execute_chat_events}
use vulpes_core.HttpApi.Defs.{
  Written, ErrorObject, error_body, streamed, json_body, write_reply, readyz,
}
use vulpes_core.HttpApi.Handler.{
  Request, Decoder, Response, decode_chat_request, request_headers, source_ip, respond, chat,
}
use vulpes_core.HttpApi.Served.{chat_answers}
use vulpes_core.HttpApi.Routes.{
  Answer, Body, chunks_body, write_json, chat_answer, healthz_answer, readyz_answer, Endpoint,
  healthz_handler, readyz_handler, models_handler, chat_handler, Served, redirected,
  method_not_allowed, not_found, aborted, refuse, routes, find_handler, allowed_methods, clean_path,
  handle, serve,
}
use vulpes_core.HttpApi.Routes as Routes
use vulpes_core.HttpApi.Dispatch.{
  Fits, Misfits, find_handler-Fits, allowed_methods-cases, methods_of_some,
}

module _ {id : String} {stream : Bool} where
  whole-Attempted :
      {o : Outcome} {ls : List (String × String)}
      → Attempted id stream o ls
      → o ≡ answered
      → stream ≡ false
  whole-Attempted (completed whole) h = whole
  whole-Attempted Protocol.unobserved h = absurd (ground (arith, h))
  whole-Attempted gave_up h = absurd (ground (arith, h))
  whole-Attempted (handed_over s) h = absurd (ground (arith, h))
  whole-Attempted (Protocol.retried a) h = whole-Attempted a h

  -- Only a request that does not ask for a stream gets a whole answer.
  whole-Protocol :
      {o : Outcome} {ls : List (String × String)}
      → Protocol id stream o ls
      → o ≡ answered
      → stream ≡ false
  whole-Protocol not_begun h = absurd (ground (arith, h))
  whole-Protocol (begun denied) h = absurd (ground (arith, h))
  whole-Protocol (begun (hit whole)) h = whole
  whole-Protocol (begun (routed a)) h = whole-Attempted a h

-- The stream of an answer is there.
write_reply-streamed :
    (stream : Bool) (reply : Reply)
    → (outcome reply ≡ answered → stream ≡ false)
    → write_reply stream reply ≢ streamed none
unfolding write_reply
write_reply-streamed stream reply whole h = elim (Option-cases reply.error) [
  | inr (e, bad) ↦ ground (arith, h, bad)
  | inl fine ↦ elim (Option-cases reply.result.stream) [
    | inr (job, there) ↦ ground (arith, h, fine, there)
    | inl absent ↦ ground (arith, h, fine, absent, whole (ground (arith, fine, absent)))
  ]
]

chat_answer-streamed :
    (headers : Dict String) (w : Written)
    → w ≢ streamed none
    → (chat_answer headers w).body ≢ chunks_body none
unfolding chat_answer
chat_answer-streamed headers (error_body status object) h e = ground (arith, e)
chat_answer-streamed headers (json_body response) h e = ground (arith, e)
chat_answer-streamed headers (streamed none) h e = h refl
chat_answer-streamed headers (streamed (some job)) h e = ground (arith, e)

lookup-chat_answer :
    (headers : Dict String) (w : Written)
    → lookup "X-Gateway-Request-Id" (chat_answer headers w).headers
      ≡ lookup "X-Gateway-Request-Id" headers
unfolding chat_answer
lookup-chat_answer headers (error_body status object) =
    lookup-insert "X-Gateway-Request-Id" _ _ headers
lookup-chat_answer headers (json_body response) = lookup-insert "X-Gateway-Request-Id" _ _ headers
lookup-chat_answer headers (streamed job) =
    lookup-insert "X-Gateway-Request-Id" "Cache-Control" _
      (insert "Content-Type" "text/event-stream" headers)
    ∙ lookup-insert "X-Gateway-Request-Id" _ _ headers

module _ {W : Type 0} (P : Platform W) (decoder : Decoder) (r : Request) (g : Gateway W) where
  -- What the handler of a route gives, and what it leaves of the gateway.
  abbrev pub Right : Pipeline W → Endpoint → Answer → Gateway W → Type 0
  Right p healthz_handler a g' = (a.status ≡ pos 200) × (g' ≡ g)
  Right p readyz_handler a g' = (a.status ≡ (if p.ready then pos 200 else pos 503)) × (g' ≡ g)
  Right p models_handler a g' = (a.status ≡ pos 200) × (g'.events ≡ g.events)
  Right p chat_handler a g' =
      (a.body ≢ chunks_body none)
      × (((a.status ≡ pos 400) × (g' ≡ g))
          ⊎ (lookup "X-Gateway-Request-Id" a.headers ≡ some (P.new_uuid g.world).0))

  -- What may become of a request for a method and a path.
  pub data Conforms (p : Pipeline W) (method path : String) : Served × Gateway W → Type 0 where
    answers :
        (e : Endpoint) (a : Answer) (g' : Gateway W)
        → Fits method path routes e
        → Right p e a g'
        → Conforms p method path (Routes.answered a, g')
    redirects : clean_path path ≢ path → Conforms p method path (redirected (clean_path path), g)
    refuses :
        (ms : List String)
        → Misfits method path routes ms
        → Conforms p method path (method_not_allowed ms, g)
    unknown : All (λ t. path ≢ t.path) routes → Conforms p method path (not_found, g)

  refuse-Conforms :
      (p : Pipeline W) (method path : String) (ms : List String)
      → Misfits method path routes ms
      → Conforms p method path (refuse ms, g)
  refuse-Conforms p method path [] m = absurd (methods_of_some m.route.method m.methods_are)
  refuse-Conforms p method path (x ∷ ms) m = refuses (x ∷ ms) m

  module _ (reg : Registry W) (cfg : Config) (models : ModelRegistry) {p : Pipeline W} {q : Queue W}
      (compiled : compile reg cfg models ≡ ok (p, q)) where
    -- A request that asks for a stream gets one, or an error.
    chat-streamed :
        (resp : Response) → (chat P p decoder r g).0 ≡ some resp → resp.written ≢ streamed none
    unfolding chat
    chat-streamed resp h = elim (Result-cases (decode_chat_request decoder r.body)) [
      | inl (e, bad) ↦ λ never. ground (arith, h, bad, never)
      | inr (req, good) ↦
          let (reply, acts, ret, _, protocol, _) =
            execute_chat_events P reg cfg models req (request_headers r.headers)
              (source_ip decoder r.remote_addr) g compiled in
          let same : respond req.stream reply ≡ resp = ground (arith, h, good, ret) in
          rw (← same) (write_reply-streamed req.stream reply (whole-Protocol protocol))
    ]

    chat-Right :
        (resp : Response)
        → (chat P p decoder r g).0 ≡ some resp
        → (((chat P p decoder r g).1 ≡ g)
            × ((object : ErrorObject) × (resp.written ≡ error_body (pos 400) object)))
          ⊎ (lookup "X-Gateway-Request-Id" resp.headers ≡ some (P.new_uuid g.world).0)
        → Right p chat_handler (chat_answer resp.headers resp.written) (chat P p decoder r g).1
    unfolding chat_answer
    chat-Right resp given (inl (same, (object, bad))) = (
      chat_answer-streamed resp.headers resp.written (chat-streamed resp given),
      inl (rw (bad, chat_answer) refl, same),
    )
    chat-Right resp given (inr named) = (
      chat_answer-streamed resp.headers resp.written (chat-streamed resp given),
      inr (lookup-chat_answer resp.headers resp.written ∙ named),
    )

    handle-Conforms :
        (method path : String) (e : Endpoint)
        → Fits method path routes e
        → Conforms p method path (handle P p decoder e r g)
    unfolding handle readyz_answer readyz
    handle-Conforms method path healthz_handler fits =
        answers healthz_handler healthz_answer g fits (refl, refl)
    handle-Conforms method path readyz_handler fits =
        answers readyz_handler (readyz_answer p) g fits (ground arith, refl)
    handle-Conforms method path models_handler fits = answers models_handler _ _ fits (refl, refl)
    handle-Conforms method path chat_handler fits =
        let (resp, given, how) = chat_answers reg cfg models P decoder r g compiled in
        let right : Right p chat_handler (chat_answer resp.headers resp.written)
            (chat P p decoder r g).1 =
          elim how [
            | inl (e, bad, same, refused) ↦ chat-Right resp given (inl (same, refused))
            | inr (req, good, named) ↦ chat-Right resp given (inr named)
          ] in
        rw (given, handle) (answers chat_handler _ _ fits right)

    -- A server with a compiled pipeline answers every request, and no handler panics. An answer is
    -- given by the handler of a route that fits the method, which is GET or HEAD for a route of GET,
    -- and the path: the health is always good and the readiness is that of the pipeline, both
    -- without a change of anything; the list of the models leaves the event queue; and the answer to
    -- a chat is an error 400 that changes nothing, or names the request by the UUID made for it, and
    -- where it is a stream, there are chunks to read. A request is redirected only if its path is
    -- not in its shortest form, is refused for its method only if a route has its path for other
    -- methods, which the answer names, and is not found only if no route has its path; these three
    -- change nothing.
    pub serve_conforms :
        (method path : String) → Conforms p method path (serve P p decoder method path r g)
    unfolding serve
    serve_conforms method path =
        elim (Bool-cases (not (method == "CONNECT") && not (clean_path path == path))) [
          | inl unclean ↦
              rw (unclean, serve)
                (redirects (λ same. ground (arith, unclean, same, eq_iff (clean_path path) path)))
          | inr clean ↦ elim (Option-cases (find_handler method path routes)) [
            | inr (e, found) ↦
                rw (clean, serve, found)
                  (handle-Conforms method path e (find_handler-Fits method path routes found))
            | inl missed ↦ elim (allowed_methods-cases method path routes missed) [
              | inl (nothing, no_path) ↦ rw (clean, serve, missed, nothing) (unknown no_path)
              | inr m ↦
                  rw (clean, serve, missed)
                    (refuse-Conforms p method path (allowed_methods path routes) m)
            ]
          ]
        ]
