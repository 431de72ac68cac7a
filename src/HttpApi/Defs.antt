-- ===== src/HttpApi/Defs.antt =====
-- `writeError` of internal/httpapi/errors.go, and `readyz`, `chat` and `writeStream` of
-- internal/httpapi/server.go. The JSON texts of a stream are arguments; a flush writes nothing.
use vulpes_core.Base.{String, ◌<>◌, Bool, Option, none, some, List, [], ◌∷◌, if◌then◌else◌}
use vulpes_core.Base.Int.{ℤ, pos, is_zero}
use vulpes_core.Base.Value.{Fields, no_fields}
use vulpes_core.Capabilities.{
  Error, missing, gateway, error_text, CapabilityType, ResponseChunk, UpstreamError,
  ChatCompletionChunk, ChatCompletionResponse,
}
use vulpes_core.Pipeline.State.{Pipeline, Relay, Reply}

pub record ErrorObject : Type 0 where
  pub type : String
  pub code : String
  pub message : String
  pub request_id : String
  pub missing_capabilities : List CapabilityType
  pub details : Fields

abbrev pub internal_error : String → Error → ErrorObject
internal_error request_id e = record {
  type = "gateway_error";
  code = "internal_error";
  message = error_text e;
  request_id = request_id;
  missing_capabilities = [];
  details = no_fields;
}

-- A status of 0 stands for 500.
abbrev pub status_or_500 : ℤ → ℤ
status_or_500 status = if is_zero status then pos 500 else status

-- The status and the body of writeError.
unfoldable pub write_error : String → Error → ℤ × ErrorObject
write_error request_id (missing caps) = (
  pos 503,
  record {
    type = "gateway_configuration_error";
    code = "missing_required_capabilities";
    message = error_text (missing caps);
    request_id = request_id;
    missing_capabilities = caps;
    details = no_fields;
  },
)
write_error request_id (gateway e) = (
  status_or_500 e.status,
  record {
    type = e.error_type;
    code = e.code;
    message = e.message;
    request_id = request_id;
    missing_capabilities = [];
    details = e.details;
  },
)
write_error request_id e = (pos 500, internal_error request_id e)

-- The status of /readyz, and the capabilities that it names.
unfoldable pub readyz : {W : Type 0} → Pipeline W → ℤ × List CapabilityType
readyz p = if p.ready then (pos 200, []) else (pos 503, p.missing)

-- What the chat handler writes.
pub data Written : Type 0 where
  error_body : ℤ → ErrorObject → Written
  streamed : Option Relay → Written
  json_body : ChatCompletionResponse → Written

-- The rest of `chat` behind ExecuteChat, for a request that asks for a stream or not.
unfoldable pub write_reply : Bool → Reply → Written
unfolding write_error
write_reply stream reply = elim reply.error [
  | some e ↦
      let (status, object) = write_error reply.result.request_id e in error_body status object
  | none ↦ if stream then streamed reply.result.stream else json_body reply.result.response
]

abbrev pub data_line : (ChatCompletionChunk → String) → ChatCompletionChunk → String
data_line marshal_chunk chunk = "data: " <> marshal_chunk chunk <> "\n\n"

abbrev pub error_lines : (UpstreamError → String) → UpstreamError → String
error_lines marshal_error e = "event: error\ndata: " <> marshal_error e <> "\n\n"

module _ (marshal_chunk : ChatCompletionChunk → String)
    (marshal_error : UpstreamError → String) where
  -- The texts that are written, one for each flush.
  unfoldable pub write_stream : List ResponseChunk → List String
  write_stream [] = "data: [DONE]\n\n" ∷ []
  write_stream (chunk ∷ chunks) =
      let rest = write_stream chunks in
      elim chunk.error [
        | some e ↦ error_lines marshal_error e ∷ []
        | none ↦ elim chunk.chunk [ some c ↦ data_line marshal_chunk c ∷ rest | none ↦ rest ]
      ]
