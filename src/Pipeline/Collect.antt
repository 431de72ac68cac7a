-- ===== src/Pipeline/Collect.antt =====
-- `retryable` and `collectResponse`.
use vulpes_core.Base.{
  ◌/◌, String, ◌<>◌, Bool, true, false, ◌||◌, Option, none, some, List, [], ◌∷◌, ◌==◌, leb,
  if◌then◌else◌, Result, ok, err,
}
use vulpes_core.Base.Int.{ℤ, pos, negsuc, is_positive}
use vulpes_core.Base.Dict.{Dict, insert}
use vulpes_core.Base.Value.{Value, str}
use vulpes_core.Capabilities.{
  ChatChoice, ChatCompletionChunk, ChatCompletionResponse, ResponseChunk, UpstreamError, Usage,
  Error, as_upstream,
}
use vulpes_core.Pipeline.Platform.{Platform}
use vulpes_core.Pipeline.State.{zero_response, zero_usage, assistant_choice}
use vulpes_core.Pipeline.Exec.{Exec, pure, call, ◌>>=◌}

-- `status >= 500`
abbrev pub at_least_500 : ℤ → Bool
at_least_500 (pos n) = leb 500 n
at_least_500 (negsuc n) = false

unfoldable pub retryable : Error → Bool
retryable e = elim (as_upstream e) [
  | some ue ↦ ue.retryable || ue.rate_limited || at_least_500 ue.http_status
  | none ↦ true
]

-- `if s, ok := v.(string); ok { content += s }`
abbrev pub append_text : String → Value → String
append_text content (str s) = content <> s
append_text content _ = content

unfoldable pub append_choices : String → List ChatChoice → String
append_choices content [] = content
append_choices content (c ∷ cs) =
    append_choices (append_text (append_text content c.delta.content) c.message.content) cs

-- The variables of the loop.
pub record Collected : Type 0 where
  pub resp : ChatCompletionResponse
  pub usage : Usage
  pub content : String

abbrev pub take_usage : Option Usage → Collected → Collected
take_usage none c = c
take_usage (some usage) c = record c { usage = usage }

-- The first chunk with an id gives the response its header.
unfoldable pub take_chunk : String → Option ChatCompletionChunk → Collected → Collected
unfolding append_choices
take_chunk model none c = c
take_chunk model (some chunk) c = record c {
  resp =
      if c.resp.id == ""
      then record c.resp {
        id = chunk.id;
        object = "chat.completion";
        created = chunk.created;
        model = model;
      }
      else c.resp;
  content = append_choices c.content chunk.choices;
}

unfoldable pub collect_chunks :
    String → List ResponseChunk → Collected → Result UpstreamError Collected
unfolding take_chunk
collect_chunks model [] c = ok c
collect_chunks model (chunk ∷ chunks) c = elim chunk.error [
  | some e ↦ err e
  | none ↦ collect_chunks model chunks (take_chunk model chunk.chunk (take_usage chunk.usage c))
]

abbrev pub nothing_collected : Collected
nothing_collected = record { resp = zero_response; usage = zero_usage; content = "" }

unfoldable pub usage_map : Usage → Dict ℤ
usage_map usage =
    if is_positive usage.total_tokens
    then insert "total_tokens" usage.total_tokens (
        insert "completion_tokens" usage.output_tokens
          (insert "prompt_tokens" usage.input_tokens []))
    else []

-- What follows the loop. Without an id the response gets one, and the time in seconds.
unfoldable pub finish_response :
    {W R : Type 0} (P : Platform W) → String → Collected → Exec W R ChatCompletionResponse
unfolding usage_map
finish_response P model c = do
  resp ←
      (if c.resp.id == ""
        then (do
          id ← call P.new_uuid
          now ← call P.now
          pure (record c.resp {
            id = "chatcmpl_" <> id;
            object = "chat.completion";
            created = pos (now / 1_000_000_000);
            model = model;
          }))
        else pure c.resp)
  pure (record resp { choices = assistant_choice c.content "stop" ∷ []; usage = usage_map c.usage })

pub record Response : Type 0 where
  pub resp : ChatCompletionResponse
  pub usage : Usage

unfoldable pub collect_response :
    {W R : Type 0} (P : Platform W)
    → List ResponseChunk
    → String
    → Exec W R (Result UpstreamError Response)
unfolding collect_chunks finish_response
collect_response P chunks model = elim (collect_chunks model chunks nothing_collected) [
  | err e ↦ pure (err e)
  | ok c ↦ do resp ← finish_response P model c; pure (ok (record { resp = resp; usage = c.usage }))
]
