-- ===== src/Pipeline/Stream.antt =====
-- The goroutine of executeStream: it hands the provider's chunks on, and reports the end. It is
-- modelled with a reader that takes every chunk; one that stops reading leaves it waiting.
use vulpes_core.Base.{String, Bool, true, false, Option, none, some, List, [], ◌∷◌, if◌then◌else◌}
use vulpes_core.Base.Int.{is_positive}
use vulpes_core.Capabilities.{ResponseChunk, ChatCompletionChunk, Usage, upstream, plain}
use vulpes_core.Pipeline.Platform.{Platform}
use vulpes_core.Pipeline.State.{Pipeline, Relay, Reply, zero_usage}
use vulpes_core.Pipeline.Exec.{Exec, pure, ◌>>=◌, ◌>>◌}
use vulpes_core.Pipeline.Props.{add_timing, with_stream_transcript_props}
use vulpes_core.Pipeline.Events.{emit, emit_error}
use vulpes_core.Pipeline.Collect.{append_choices}
use vulpes_core.Pipeline.Attempts.{commit_usage, elapsed}

-- The variables of the loop.
pub record Relayed : Type 0 where
  pub usage : Usage
  pub failed : Bool
  pub response_text : String

abbrev pub nothing_relayed : Relayed
nothing_relayed = record { usage = zero_usage; failed = false; response_text = "" }

abbrev pub relay_usage : Option Usage → Relayed → Relayed
relay_usage none v = v
relay_usage (some usage) v = record v { usage = usage }

abbrev pub relay_text : Bool → Option ChatCompletionChunk → Relayed → Relayed
relay_text capture none v = v
relay_text capture (some chunk) v =
    if capture then record v { response_text = append_choices v.response_text chunk.choices } else v

module _ {W : Type 0} (P : Platform W) (p : Pipeline W) where
  -- The loop; the chunks that the reader gets stand beside the variables.
  unfoldable pub relay_chunks :
      Relay → List ResponseChunk → Relayed → Exec W Reply (List ResponseChunk × Relayed)
  relay_chunks job [] v = pure ([], v)
  relay_chunks job (chunk ∷ chunks) v = do
    let v' = relay_text p.cfg.observability.capture_payloads chunk.chunk (relay_usage chunk.usage v)
    v'' ← elim chunk.error [
      | none ↦ pure v'
      | some e ↦ do
        emit_error P "upstream.error" job.request_id job.identity.tenant_id job.route_props
            (upstream e)
        pure (record v' { failed = true })
    ]
    rest ← relay_chunks job chunks v''
    pure (chunk ∷ rest.0, rest.1)

  -- What the goroutine does when the provider's channel is closed.
  unfoldable pub relay_end : Relay → Relayed → Exec W Reply (Unit {0})
  relay_end job v = do
    (if is_positive v.usage.total_tokens
        then commit_usage P p job.call_ctx job.identity v.usage
        else pure tt)
    t ← elapsed P p job.started
    let props =
        with_stream_transcript_props P p (add_timing job.route_props t) job.request v.response_text
    if v.failed
        then emit_error P "request.failed" job.request_id job.identity.tenant_id props
            (plain "stream_interrupted")
        else emit P "request.completed" job.request_id job.identity.tenant_id props (some v.usage)

  -- The whole goroutine; it gives the chunks that the reader got.
  unfoldable pub relay : Relay → Exec W Reply (List ResponseChunk)
  unfolding relay_chunks relay_end
  relay job = do out ← relay_chunks job job.chunks nothing_relayed; relay_end job out.1; pure out.0
