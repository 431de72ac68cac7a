-- ===== src/HttpApi/Written.antt =====
-- What a client reads.
use vulpes_core.Base.{String, ◌≡◌, refl, Option, none, some, List, [], ◌∷◌, ◌++◌, map, arith}
use vulpes_core.Capabilities.{ResponseChunk, UpstreamError, ChatCompletionChunk}
use vulpes_core.Pipeline.Collects.{first_error}
use vulpes_core.HttpApi.Defs.{write_stream, data_line, error_lines}

-- The chunks that stand before the first error.
abbrev pub before_error : List ResponseChunk → List ChatCompletionChunk
before_error [] = []
before_error (chunk ∷ chunks) = elim chunk.error [
  | some e ↦ []
  | none ↦ elim chunk.chunk [ some c ↦ c ∷ before_error chunks | none ↦ before_error chunks ]
]

abbrev pub last_lines : (UpstreamError → String) → Option UpstreamError → String
last_lines marshal_error none = "data: [DONE]\n\n"
last_lines marshal_error (some e) = error_lines marshal_error e

module _ (marshal_chunk : ChatCompletionChunk → String)
    (marshal_error : UpstreamError → String) where
  -- The text of a stream is one data event for each chunk in front of the first error, in the order
  -- of the chunks, and one event at the end: the error if there is one, and the DONE marker otherwise.
  pub write_stream_lem :
      (chunks : List ResponseChunk)
      → write_stream marshal_chunk marshal_error chunks
        ≡ map (data_line marshal_chunk) (before_error chunks)
          ++ last_lines marshal_error (first_error chunks) ∷ []
  unfolding write_stream
  write_stream_lem [] = refl
  write_stream_lem (chunk ∷ chunks) = ground (arith, write_stream_lem chunks)
