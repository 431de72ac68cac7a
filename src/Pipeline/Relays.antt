-- ===== src/Pipeline/Relays.antt =====
-- What the reader of a streamed answer gets.
use vulpes_core.Base.{
  ◌≡◌, refl, ap, Bool, true, false, ◌||◌, Option, none, some, List, [], ◌∷◌, arith, inl, inr,
  Option-cases,
}
use vulpes_core.Base.Int.{is_positive}
use vulpes_core.Capabilities.{ResponseChunk, UpstreamError, upstream}
use vulpes_core.Pipeline.Platform.{Platform}
use vulpes_core.Pipeline.State.{Pipeline, Relay, Reply}
use vulpes_core.Pipeline.Exec.{Exec, Exit, next, done, panic, Gateway, pure, ◌>>◌}
use vulpes_core.Pipeline.Post.{Meets, Returns, Returns-pure, Returns-if, Returns-bind}
use vulpes_core.Pipeline.Events.{emit_error}
use vulpes_core.Pipeline.Stream.{
  Relayed, nothing_relayed, relay_usage, relay_text, relay_chunks, relay_end, relay,
}
use vulpes_core.Pipeline.Total.{Anything, Returns-emit, Returns-emit_error}
use vulpes_core.Pipeline.Outcomes.{Returns-elapsed, Returns-commit_usage}

abbrev Never : Reply → Type 0
Never r = ⊥

-- Some chunk carries an error.
abbrev pub any_error : List ResponseChunk → Bool
any_error [] = false
any_error (chunk ∷ chunks) = elim chunk.error [ some e ↦ true | none ↦ any_error chunks ]

module _ {W : Type 0} (P : Platform W) (p : Pipeline W) (job : Relay) where
  -- All the chunks are handed on, and the loop knows whether one of them has an error.
  abbrev Passed : List ResponseChunk → Relayed → List ResponseChunk × Relayed → Type 0
  Passed chunks v out = (out.0 ≡ chunks) × (out.1.failed ≡ (v.failed || any_error chunks))

  pub failed-relay_usage :
      (capture : Bool) (chunk : ResponseChunk) (v : Relayed)
      → (relay_text capture chunk.chunk (relay_usage chunk.usage v)).failed ≡ v.failed
  failed-relay_usage capture chunk v = elim (Option-cases chunk.chunk) [
    | inl e ↦ ground arith
    | inr (c, e) ↦ ground arith
  ]

  abbrev pub after_error : Option UpstreamError → Relayed → Exec W Reply Relayed
  after_error o v = elim o [
    | none ↦ pure v
    | some e ↦ do
      emit_error P "upstream.error" job.request_id job.identity.tenant_id job.route_props
          (upstream e)
      pure (record v { failed = true })
  ]

  abbrev pub is_error : Option UpstreamError → Bool
  is_error none = false
  is_error (some e) = true

  Returns-after_error :
      (o : Option UpstreamError) (v : Relayed)
      → Returns (λ w. w.failed ≡ (v.failed || is_error o)) Never (after_error o v)
  Returns-after_error none v = Returns-pure _ (ground arith)
  Returns-after_error (some e) v =
      Returns-bind (Returns-emit_error P _ _ _ _ _) λ _ _. Returns-pure _ (ground arith)

  Returns-relay_chunks :
      (chunks : List ResponseChunk) (v : Relayed)
      → Returns (Passed chunks v) Never (relay_chunks P p job chunks v)
  unfolding relay_chunks
  Returns-relay_chunks [] v = Returns-pure _ (refl, ground arith)
  Returns-relay_chunks (chunk ∷ chunks) v =
      let capture = p.cfg.observability.capture_payloads in
      let kept = failed-relay_usage capture chunk v in
      Returns-bind (Returns-after_error chunk.error _) λ v'' fails.
        Returns-bind (Returns-relay_chunks chunks v'') λ rest passed.
          Returns-pure _ (ap (λ cs. chunk ∷ cs) passed.0, ground (arith, kept, fails, passed.1))

  Returns-relay_end : (v : Relayed) → Returns Anything Never (relay_end P p job v)
  unfolding relay_end
  Returns-relay_end v =
      Returns-bind {M = Anything}
        (Returns-if (is_positive v.usage.total_tokens) (λ _. Returns-commit_usage P p Never _ _ _)
          (λ _. Returns-pure _ tt))
        λ _ _. Returns-bind (Returns-elapsed P p Never _) λ _ _.
          Returns-if v.failed (λ _. Returns-emit_error P _ _ _ _ _) (λ _. Returns-emit P _ _ _ _ _)

  Returns-relay : Returns (λ chunks. chunks ≡ job.chunks) Never (relay P p job)
  unfolding relay
  Returns-relay =
      Returns-bind (Returns-relay_chunks job.chunks nothing_relayed)
        λ out passed. Returns-bind (Returns-relay_end out.1) λ _ _. Returns-pure _ passed.0

  next_only : {A : Type 0} (e : Exit Reply A) {a : A} → Meets (λ x. x ≡ a) Never e → e ≡ next a
  next_only (next x) h = ap next h
  next_only (done r) h = absurd h
  next_only panic h = absurd h

  -- To a reader that takes every chunk, a stream is relayed to its end: the reader gets all the
  -- chunks of the provider, the ones with an error and those behind it too, in the provider's order
  -- and unchanged, whatever the rate limiter answers and whether the queue takes the events.
  pub relay_all : (g : Gateway W) → (relay P p job g).0 ≡ next job.chunks
  relay_all g = next_only (relay P p job g).0 (Returns-relay.at g)
