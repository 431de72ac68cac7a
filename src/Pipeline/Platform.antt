-- ===== src/Pipeline/Platform.antt =====
-- What the pipeline calls that is not in the repository, or whose output it only passes on: UUIDs
-- (github.com/google/uuid), the clock, and the texts of encoding/json and crypto/sha256. They are
-- arguments of the model. A `none` is an error of `json.Marshal`; a map of texts is always encoded.
use vulpes_core.Base.{ℕ, String, Option, List}
use vulpes_core.Base.Dict.{Dict}
use vulpes_core.Capabilities.{ChatMessage, ChatCompletionRequest, ChatCompletionResponse}

pub record Platform (W : Type 0) : Type 0 where
  pub new_uuid : W → String × W
  -- nanoseconds since 1970
  pub now : W → ℕ × W
  pub marshal_messages : List ChatMessage → Option String
  pub marshal_request : ChatCompletionRequest → Option String
  pub marshal_response : ChatCompletionResponse → Option String
  pub marshal_properties : Dict String → String
  -- the hexadecimal SHA-256 of a text's bytes
  pub sha256_hex : String → String
