-- ===== src/Pipeline/Props.antt =====
-- The property maps of a request: from its headers, for its events, for the prompt provider, and in
-- the cache key.
use vulpes_core.Base.{
  ℕ, ◌/◌, ◌%◌, ◌+◌, String, ◌<>◌, len, Option, none, some, [], ◌∷◌, if◌then◌else◌,
}
use vulpes_core.Base.Int.{ℤ, pos}
use vulpes_core.Base.Dict.{Dict, insert, merge}
use vulpes_core.Base.Text.{sprint, to_lower, strip_prefix}
use vulpes_core.Capabilities.{
  ChatCompletionRequest, ChatCompletionResponse, Identity, SelectedRoute,
}
use vulpes_core.Pipeline.Platform.{Platform}
use vulpes_core.Pipeline.State.{Pipeline, zero_response, assistant_choice}

abbrev pub property_prefix : String
property_prefix = "x-gateway-property-"

-- The loop of extractProperties: HasPrefix and TrimPrefix of the name in lower case.
unfoldable pub collect_properties : Dict String → Dict String → Dict String
collect_properties props [] = props
collect_properties props ((k, v) ∷ headers) =
    collect_properties
      (elim (strip_prefix property_prefix (to_lower k)) [
        | none ↦ props
        | some name ↦ insert name v props
      ])
      headers

unfoldable pub extract_properties : Dict String → Dict String
unfolding collect_properties
extract_properties headers = collect_properties [] headers

-- `fmt.Sprintf("%.3f", float64(micros)/1000.0)`
unfoldable pub millis : ℕ → String
millis micros =
    sprint (micros / 1000)
    <> "."
    <> sprint (micros % 1000 / 100)
    <> sprint (micros % 100 / 10)
    <> sprint (micros % 10)

-- The copy that addTiming makes; `elapsed` is `time.Since(started)` in nanoseconds.
unfoldable pub add_timing : Dict String → ℕ → Dict String
unfolding millis
add_timing base elapsed = insert "duration_ms" (millis (elapsed / 1000)) (merge [] base)

unfoldable pub route_event_props : Dict String → SelectedRoute → ℕ → ℕ → Dict String
route_event_props base route fallback_index elapsed =
    merge
      (insert "fallback_index" (sprint fallback_index) (
        insert "route_model" route.provider_model
          (insert "route_provider" route.provider_instance (add_timing base elapsed))))
      route.properties

-- `if b, err := json.Marshal(x); err == nil { m[key] = string(b) }`
abbrev pub insert_marshalled : String → Option String → Dict String → Dict String
insert_marshalled key none m = m
insert_marshalled key (some text) m = insert key text m

-- The encoder writes the request with a line feed behind it, and nothing where it fails.
abbrev pub encoded : Option String → String
encoded none = ""
encoded (some text) = text <> "\n"

module _ {W : Type 0} (P : Platform W) where
  unfoldable pub estimate_tokens : ChatCompletionRequest → ℤ
  estimate_tokens req = elim (P.marshal_messages req.messages) [
    | none ↦ pos 1
    | some text ↦ pos (len text / 4 + 1)
  ]

  unfoldable pub prompt_variables : Dict String → ChatCompletionRequest → Identity → Dict String
  prompt_variables props req identity = insert_marshalled "request_json" (P.marshal_request req) (
      insert_marshalled "messages_json" (P.marshal_messages req.messages) (
        insert "subject" identity.subject
          (insert "tenant_id" identity.tenant_id (insert "model" req.model (merge [] props)))))

  unfoldable pub cache_key : ChatCompletionRequest → Identity → Dict String → String
  cache_key req id props =
      P.sha256_hex (encoded (P.marshal_request req) <> id.tenant_id <> P.marshal_properties props)

  unfoldable pub with_transcript_props :
      Pipeline W → Dict String → ChatCompletionRequest → ChatCompletionResponse → Dict String
  with_transcript_props p base req resp =
      if p.cfg.observability.capture_payloads
      then insert "payloads_captured" "true" (
          insert_marshalled "response_json" (P.marshal_response resp)
            (insert_marshalled "request_json" (P.marshal_request req) (merge [] base)))
      else base

  unfoldable pub with_stream_transcript_props :
      Pipeline W → Dict String → ChatCompletionRequest → String → Dict String
  unfolding with_transcript_props
  with_stream_transcript_props p base req response_text =
      if p.cfg.observability.capture_payloads
      then with_transcript_props p base req (record zero_response {
        model = req.model;
        choices = assistant_choice response_text "" ∷ [];
      })
      else base
