-- ===== src/HttpApi/Handler.antt =====
-- The handlers of internal/httpapi/server.go as a whole: from the request to what is written. The
-- JSON decoder and the split of an address are arguments.
use vulpes_core.Base.{
  String, Bool, false, ◌||◌, List, [], ◌∷◌, ◌++◌, ◌==◌, Option, none, some, Result, ok, err,
  if◌then◌else◌, map,
}
use vulpes_core.Base.Int.{pos}
use vulpes_core.Base.Dict.{Dict}
use vulpes_core.Base.Value.{Fields, no_fields, entry}
use vulpes_core.Capabilities.{
  Error, plain, gateway, join, error_text, ChatCompletionRequest, ModelInfo, UpstreamProvider,
}
use vulpes_core.Models.{list_models}
use vulpes_core.Pipeline.Platform.{Platform}
use vulpes_core.Pipeline.State.{Pipeline, Reply}
use vulpes_core.Pipeline.Exec.{Gateway}
use vulpes_core.Pipeline.Chat.{execute_chat}
use vulpes_core.Pipeline.Answers.{returned}
use vulpes_core.HttpApi.Defs.{Written, error_body, write_error, write_reply}

-- What the handler reads of a request.
pub record Request : Type 0 where
  pub body : String
  pub headers : Dict (List String)
  pub remote_addr : String

-- encoding/json, and the host of `net.SplitHostPort` where it gives no error.
pub record Decoder : Type 0 where
  -- `Decode` into a map
  pub decode_map : String → Result Error Fields
  -- the map's text into the fields of a request
  pub fill : Fields → Result Error ChatCompletionRequest
  pub split_host : String → Option String

abbrev pub known_keys : List String
known_keys =
    "model" ∷ "messages" ∷ "stream" ∷ "temperature" ∷ "max_tokens" ∷ "tools" ∷ "tool_choice"
    ∷ "metadata" ∷ []

abbrev pub is_key : String → List String → Bool
is_key key [] = false
is_key key (k ∷ ks) = k == key || is_key key ks

-- The loop over the map: the entries whose keys are not known.
unfoldable pub extra_of : List String → Fields → Fields
extra_of known no_fields = no_fields
extra_of known (entry k v rest) =
    let others = extra_of known rest in if is_key k known then others else entry k v others

-- `decodeChatRequest`
unfoldable pub decode_chat_request : Decoder → String → Result Error ChatCompletionRequest
unfolding extra_of
decode_chat_request decoder body = elim (decoder.decode_map body) [
  | err e ↦ err e
  | ok raw ↦ (elim (decoder.fill raw) [
    | err e ↦ err e
    | ok req ↦
        if req.model == ""
        then err (plain "model is required")
        else ok (record req { extra = extra_of known_keys raw })
  ])
]

-- `requestHeaders`
unfoldable pub request_headers : Dict (List String) → Dict String
unfolding join
request_headers headers = map (λ (k, vs). (k, join "," vs)) headers

-- `sourceIP`
abbrev pub source_ip : Decoder → String → String
source_ip decoder addr = elim (decoder.split_host addr) [ some host ↦ host | none ↦ addr ]

-- The headers that are set, and what is written.
pub record Response : Type 0 where
  pub headers : Dict String
  pub written : Written

abbrev pub invalid_request : Error → Error
invalid_request e = gateway (record {
  error_type = "invalid_request_error";
  code = "invalid_request";
  message = error_text e;
  status = pos 400;
  details = no_fields;
})

abbrev pub error_response : Error → Response
error_response e =
    let (status, object) = write_error "" (invalid_request e) in
    record { headers = []; written = error_body status object }

abbrev pub respond : Bool → Reply → Response
respond stream reply = record { headers = reply.result.headers; written = write_reply stream reply }

module _ {W : Type 0} (P : Platform W) (p : Pipeline W) (decoder : Decoder) where
  -- `chat`; there is no response if the code behind it panics.
  unfoldable pub chat : Request → Gateway W → Option Response × Gateway W
  unfolding decode_chat_request request_headers execute_chat error_text write_error write_reply
  chat r g = elim (decode_chat_request decoder r.body) [
    | err e ↦ (some (error_response e), g)
    | ok req ↦
        let (end_state, g') =
          execute_chat P p req (request_headers r.headers) (source_ip decoder r.remote_addr) g in
        (
          elim (returned end_state) [ none ↦ none | some reply ↦ some (respond req.stream reply) ],
          g',
        )
  ]

-- The loop of `ListModels` over the upstream providers; the models of one that fails are left out.
unfoldable pub provider_models :
    {W : Type 0} → Dict (UpstreamProvider W) → List ModelInfo → W → List ModelInfo × W
provider_models [] out w = (out, w)
provider_models ((name, up) ∷ ups) out w =
    let (models, w') = up.list_models w in
    provider_models ups (elim models [ err e ↦ out | ok infos ↦ out ++ infos ]) w'

-- `ListModels` of the pipeline, which `models` writes.
unfoldable pub all_models : {W : Type 0} → Pipeline W → W → List ModelInfo × W
unfolding provider_models list_models
all_models p w = provider_models p.upstreams (list_models p.models) w
