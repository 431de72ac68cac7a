-- ===== src/Pipeline/Streamed.antt =====
-- The events of the goroutine of a streamed answer.
use mathlib.Core.List.{append-nil}
use vulpes_core.Base.{
  String, ◌≡◌, refl, sym, ◌∙◌, ap, Bool, true, false, ◌||◌, Option, none, some, List, [], ◌∷◌, ◌++◌,
  arith, inl, inr, Bool-cases,
}
use vulpes_core.Base.Int.{is_positive}
use vulpes_core.Capabilities.{ResponseChunk, UpstreamError}
use vulpes_core.Pipeline.Relays.{relay_all, any_error, is_error, after_error, failed-relay_usage}
use vulpes_core.Pipeline.Platform.{Platform}
use vulpes_core.Pipeline.State.{Pipeline, Reply, Relay}
use vulpes_core.Pipeline.Exec.{Gateway, Exit, next, done, panic}
use vulpes_core.Pipeline.Trace.{Label, Action, labels, replay, Says, Emits}
use vulpes_core.Pipeline.TraceRules.{Emits-pure, Emits-if, Emits-bind}
use vulpes_core.Pipeline.Protocol.{Emits-emit, Emits-emit_error, Emits-emit_error_bind, Emits-step}
use vulpes_core.Pipeline.Tries.{Steady-elapsed, Steady-commit_usage}
use vulpes_core.Pipeline.Stream.{relay, relay_chunks, relay_end, Relayed, nothing_relayed}

-- One error for each chunk that has one.
abbrev pub error_labels : String → List ResponseChunk → List Label
error_labels id [] = []
error_labels id (chunk ∷ chunks) = elim chunk.error [
  | some e ↦ (id, "upstream.error") ∷ error_labels id chunks
  | none ↦ error_labels id chunks
]

abbrev pub end_label : String → Bool → Label
end_label id true = (id, "request.failed")
end_label id false = (id, "request.completed")

says_next :
    {A : Type 0} (N : List Label → Type 0) (e : Exit Reply A) (ls : List Label) {a : A}
    → Says (λ a. N) (λ r ls. ⊥) e ls
    → e ≡ next a
    → N ls
says_next N (next x) ls h same = h
says_next N (done r) ls h same = absurd h
says_next N panic ls h same = absurd (ground (arith, same))

module _ {W : Type 0} (P : Platform W) (p : Pipeline W) (job : Relay) where
  -- The errors are told, and the loop knows whether there is one.
  abbrev Told : List ResponseChunk → Relayed → List ResponseChunk × Relayed → List Label → Type 0
  Told chunks v out ls =
      (out.1.failed ≡ (v.failed || any_error chunks)) × (ls ≡ error_labels job.request_id chunks)

  abbrev Never : Reply → List Label → Type 0
  Never r ls = ⊥

  abbrev told : Option UpstreamError → List Label
  told none = []
  told (some e) = (job.request_id, "upstream.error") ∷ []

  Emits-after_error :
      (o : Option UpstreamError) (v : Relayed)
      → Emits
          (λ w ls. (w.failed ≡ (v.failed || is_error P p job o)) × (ls ≡ told o))
          Never
          (after_error P p job o v)
  Emits-after_error none v = Emits-pure _ (ground arith, refl)
  Emits-after_error (some e) v =
      Emits-emit_error_bind P _ _ _ _ _ _ (Emits-pure _ (ground arith, refl))

  error_labels-told :
      (chunk : ResponseChunk) (chunks : List ResponseChunk)
      → error_labels job.request_id (chunk ∷ chunks)
        ≡ told chunk.error ++ error_labels job.request_id chunks
  error_labels-told chunk chunks = ground arith

  Emits-relay_chunks :
      (chunks : List ResponseChunk) (v : Relayed)
      → Emits (Told chunks v) Never (relay_chunks P p job chunks v)
  unfolding relay_chunks
  Emits-relay_chunks [] v = Emits-pure _ (ground arith, refl)
  Emits-relay_chunks (chunk ∷ chunks) v =
      let capture = p.cfg.observability.capture_payloads in
      let kept = failed-relay_usage P p job capture chunk v in
      Emits-bind (Emits-after_error chunk.error _) (λ r ls n. n)
        λ v'' ls s.
          Emits-bind (Emits-relay_chunks chunks v'') (λ r ls n. n)
            λ rest more t.
              Emits-pure _
                (ground (arith, kept, s.0, t.0), rw (s.1, t.1, append-nil, error_labels-told) refl)

  Emits-relay_end :
      (v : Relayed)
      → Emits (λ u ls. ls ≡ end_label job.request_id v.failed ∷ []) Never (relay_end P p job v)
  unfolding relay_end
  Emits-relay_end v =
      Emits-step
        (Emits-if (is_positive v.usage.total_tokens) (Steady-commit_usage P p _ _ _)
          (Emits-pure _ (refl, tt)))
        λ u. Emits-step (Steady-elapsed P p _) λ t. elim (Bool-cases v.failed) [
          | inl e ↦ rw e (Emits-emit_error P _ _ _ _ _ refl)
          | inr e ↦ rw e (Emits-emit P _ _ _ _ _ refl)
        ]

  Emits-relay :
      Emits
        (λ out ls.
          ls
          ≡ error_labels job.request_id job.chunks
            ++ end_label job.request_id (any_error job.chunks) ∷ [])
        Never
        (relay P p job)
  unfolding relay
  Emits-relay =
      Emits-bind (Emits-relay_chunks job.chunks nothing_relayed) (λ r ls n. n)
        λ out ls s.
          Emits-bind (Emits-relay_end out.1) (λ r ls n. n)
            λ u more t. Emits-pure _ (rw (s.1, t, append-nil, s.0) refl)

  -- To a reader that takes every chunk, a stream is relayed to its end: the reader gets all the
  -- chunks of the provider, unchanged and in order. What is done to the event queue is a list of
  -- operations that send, each naming the request, one error for each chunk that has an error, and
  -- then one event of the end, which is a failure exactly if some chunk has an error.
  pub relay_events :
      (g : Gateway W)
      → (acts : List Action) × ((relay P p job g).0 ≡ next job.chunks)
        × ((relay P p job g).1.events ≡ replay acts g.events)
        × (labels acts
            ≡ error_labels job.request_id job.chunks
              ++ end_label job.request_id (any_error job.chunks) ∷ [])
  relay_events g =
      let run = Emits-relay.at g.world in
      let all = relay_all P p job g in
      (
        run.acts,
        all,
        ap (λ x. x.1.events) (run.runs g.events),
        says_next _ run.exit (labels run.acts) run.says
            (ap (λ x. x.0) (sym (run.runs g.events)) ∙ all),
      )
