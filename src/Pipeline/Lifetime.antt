-- ===== src/Pipeline/Lifetime.antt =====
-- The events of a streamed request from its start to the end of its goroutine.
use vulpes_core.Base.{
  ℕ, zero, suc, String, ◌≡◌, refl, sym, ◌∙◌, ap, Bool, none, some, List, [], ◌∷◌, ◌++◌, ok, arith,
}
use vulpes_core.Base.Dict.{Dict}
use vulpes_core.Capabilities.{ChatCompletionRequest}
use vulpes_core.Config.{Config}
use vulpes_core.Models.{ModelRegistry}
use vulpes_core.Queue.{Queue}
use vulpes_core.Plugins.Registry.{Registry}
use vulpes_core.Pipeline.Compile.{compile}
use vulpes_core.Pipeline.Platform.{Platform}
use vulpes_core.Pipeline.State.{Pipeline, Reply, Relay}
use vulpes_core.Pipeline.Exec.{Gateway, next}
use vulpes_core.Pipeline.Answers.{returned, execute_chat_answers}
use vulpes_core.Pipeline.Chat.{execute_chat}
use vulpes_core.Pipeline.Stream.{relay}
use vulpes_core.Pipeline.Relays.{any_error}
use vulpes_core.Pipeline.Trace.{Label, Action, labels, labels-append, replay, replay-append}
use vulpes_core.Pipeline.Protocol.{
  Outcome, streaming, outcome, Attempted, completed, unobserved, gave_up, handed_over, retried,
  denied, hit, routed, Protocol, not_begun, begun,
}
use vulpes_core.Pipeline.Told.{execute_chat_events}
use vulpes_core.Pipeline.Streamed.{error_labels, end_label, relay_events}

-- So many errors of providers.
abbrev pub retries : ℕ → String → List Label
retries zero id = []
retries (suc k) id = (id, "upstream.error") ∷ retries k id

module _ {id : String} {stream : Bool} where
  streaming-Attempted :
      {o : Outcome} {ls : List Label}
      → Attempted id stream o ls
      → o ≡ streaming
      → (k : ℕ) × (ls ≡ retries k id)
  streaming-Attempted (completed whole) h = absurd (ground (arith, h))
  streaming-Attempted unobserved h = absurd (ground (arith, h))
  streaming-Attempted gave_up h = absurd (ground (arith, h))
  streaming-Attempted (handed_over s) h = (0, refl)
  streaming-Attempted (retried a) h =
      let (k, e) = streaming-Attempted a h in (suc k, ap (λ ls. (id, "upstream.error") ∷ ls) e)

  -- The events of a request whose reply is a stream.
  streaming-Protocol :
      {o : Outcome} {ls : List Label}
      → Protocol id stream o ls
      → o ≡ streaming
      → (k : ℕ) × (ls ≡ (id, "request.started") ∷ (id, "route.selected") ∷ retries k id)
  streaming-Protocol not_begun h = absurd (ground (arith, h))
  streaming-Protocol (begun denied) h = absurd (ground (arith, h))
  streaming-Protocol (begun (hit whole)) h = absurd (ground (arith, h))
  streaming-Protocol (begun (routed a)) h =
      let (k, e) = streaming-Attempted a h in
      (k, ap (λ ls. (id, "request.started") ∷ (id, "route.selected") ∷ ls) e)

-- A request to a compiled pipeline that gets a stream is told from its start to its end. The
-- request, and then the goroutine of the stream with a reader that takes every chunk, give the
-- reader the provider's chunks, unchanged and in order, and send these events, each with the id of
-- the request: the start, the choice of a route, any number of errors of providers, an error for
-- each chunk that has one, and then one end, which is a failure exactly if some chunk has an error.
pub streamed_events :
    {W : Type 0} (reg : Registry W) (cfg : Config) (models : ModelRegistry) {p : Pipeline W}
    {q : Queue W} (P : Platform W) (req : ChatCompletionRequest) (headers : Dict String)
    (source_ip : String) (g : Gateway W) (r : Reply) (job : Relay)
    → compile reg cfg models ≡ ok (p, q)
    → returned (execute_chat P p req headers source_ip g).0 ≡ some r
    → r.error ≡ none
    → r.result.stream ≡ some job
    → let id = (P.new_uuid g.world).0 in
      let relayed = relay P p job (execute_chat P p req headers source_ip g).1 in
      (acts : List Action) × (k : ℕ) × (relayed.0 ≡ next job.chunks)
      × (relayed.1.events ≡ replay acts g.events)
      × (labels acts
          ≡ ((id, "request.started") ∷ (id, "route.selected") ∷ retries k id)
            ++ (error_labels id job.chunks ++ end_label id (any_error job.chunks) ∷ []))
streamed_events reg cfg models {p} P req headers source_ip g r job compiled ret fine there =
    let id = (P.new_uuid g.world).0 in
    let run = execute_chat P p req headers source_ip g in
    let (s, ret', tag) = execute_chat_answers reg cfg models P req headers source_ip g compiled in
    let (t, acts, ret'', queue, protocol, _) =
      execute_chat_events P reg cfg models req headers source_ip g compiled in
    let same : s ≡ r = ground (arith, ret, ret') in
    let same' : t ≡ r = ground (arith, ret, ret'') in
    let streams : outcome t ≡ streaming = rw same' (ground (arith, fine, there)) in
    let (k, told) = streaming-Protocol protocol streams in
    let named : job.request_id ≡ id = tag.stream job (rw same there) in
    let (more, all, queue', told') = relay_events P p job run.1 in
    (
      acts ++ more,
      k,
      all,
      queue' ∙ ap (replay more) queue ∙ sym (replay-append acts more g.events),
      labels-append acts more ∙ rw (told, told', named) refl,
    )
