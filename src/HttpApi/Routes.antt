-- ===== src/HttpApi/Routes.antt =====
-- The server of internal/httpapi/server.go as a whole: the routes, the handlers behind them, and
-- `writeJSON`. What ServeMux of net/http does with a method and a path is written as it is
-- documented for patterns of a method and a path without wildcards. To a HEAD request the server
-- sends no body; the answer is written here as the handler gives it.
use vulpes_core.Base.{
  String, ◌<>◌, Bool, false, ◌&&◌, ◌||◌, not, List, [], ◌∷◌, ◌==◌, Option, none, some,
  if◌then◌else◌,
}
use vulpes_core.Base.Int.{ℤ, pos}
use vulpes_core.Base.Dict.{Dict, insert}
use vulpes_core.Capabilities.{CapabilityType, ModelInfo, ChatCompletionResponse}
use vulpes_core.FilePath.{clean, is_abs, split_slash}
use vulpes_core.Pipeline.Platform.{Platform}
use vulpes_core.Pipeline.State.{Pipeline, Relay}
use vulpes_core.Pipeline.Exec.{Gateway}
use vulpes_core.HttpApi.Defs.{Written, error_body, streamed, json_body, ErrorObject, readyz}
use vulpes_core.HttpApi.Handler.{Request, Decoder, chat, all_models}

-- The four handlers.
pub data Endpoint : Type 0 where
  healthz_handler : Endpoint
  readyz_handler : Endpoint
  models_handler : Endpoint
  chat_handler : Endpoint

pub record Route : Type 0 where
  pub method : String
  pub path : String
  pub handler : Endpoint

-- The patterns of `Handler`.
abbrev pub routes : List Route
routes =
    record { method = "GET"; path = "/healthz"; handler = healthz_handler }
    ∷ record { method = "GET"; path = "/readyz"; handler = readyz_handler }
    ∷ record { method = "GET"; path = "/v1/models"; handler = models_handler }
    ∷ record { method = "POST"; path = "/v1/chat/completions"; handler = chat_handler }
    ∷ []

-- A pattern for GET is one for HEAD, too.
abbrev pub methods_of : String → List String
methods_of method = if method == "GET" then "GET" ∷ "HEAD" ∷ [] else method ∷ []

abbrev pub is_among : String → List String → Bool
is_among method [] = false
is_among method (m ∷ ms) = method == m || is_among method ms

-- The handler of the first pattern that fits.
unfoldable pub find_handler : String → String → List Route → Option Endpoint
find_handler method path [] = none
find_handler method path (r ∷ rs) =
    if is_among method (methods_of r.method) && path == r.path
    then some r.handler
    else find_handler method path rs

-- The methods of the first pattern that has the path.
unfoldable pub allowed_methods : String → List Route → List String
allowed_methods path [] = []
allowed_methods path (r ∷ rs) =
    if path == r.path then methods_of r.method else allowed_methods path rs

-- The last part of a path is empty.
abbrev ends_in_slash : List String → Bool
ends_in_slash [] = false
ends_in_slash (part ∷ []) = part == ""
ends_in_slash (part ∷ next ∷ parts) = ends_in_slash (next ∷ parts)

-- The path that a request is redirected to if it has another one.
unfoldable pub clean_path : String → String
unfolding clean is_abs split_slash
clean_path path =
    let rooted = if is_abs path then path else "/" <> path in
    let cleaned = clean rooted in
    if ends_in_slash (split_slash rooted) && not (cleaned == "/") then cleaned <> "/" else cleaned

-- What is written.
pub data Body : Type 0 where
  status_body : String → Body
  not_ready_body : String → List CapabilityType → Body
  models_body : String → List ModelInfo → Body
  error_object : ErrorObject → Body
  chat_body : ChatCompletionResponse → Body
  chunks_body : Option Relay → Body

pub record Answer : Type 0 where
  pub status : ℤ
  pub headers : Dict String
  pub body : Body

-- `writeJSON`, over the headers that are set.
abbrev pub write_json : Dict String → ℤ → Body → Answer
write_json headers status body = record {
  status = status;
  headers = insert "Content-Type" "application/json" headers;
  body = body;
}

abbrev pub stream_headers : Dict String → Dict String
stream_headers headers =
    insert "Cache-Control" "no-cache" (insert "Content-Type" "text/event-stream" headers)

-- The end of the handler `chat`.
unfoldable pub chat_answer : Dict String → Written → Answer
chat_answer headers (error_body status object) = write_json headers status (error_object object)
chat_answer headers (streamed job) = record {
  status = pos 200;
  headers = stream_headers headers;
  body = chunks_body job;
}
chat_answer headers (json_body response) = write_json headers (pos 200) (chat_body response)

abbrev pub healthz_answer : Answer
healthz_answer = write_json [] (pos 200) (status_body "ok")

unfoldable pub readyz_answer : {W : Type 0} → Pipeline W → Answer
unfolding readyz
readyz_answer p =
    let (status, caps) = readyz p in
    write_json [] status (if p.ready then status_body "ready" else not_ready_body "not_ready" caps)

-- What becomes of a request; `aborted` is a handler that panics.
pub data Served : Type 0 where
  answered : Answer → Served
  redirected : String → Served
  method_not_allowed : List String → Served
  not_found : Served
  aborted : Served

-- No pattern fits.
abbrev pub refuse : List String → Served
refuse [] = not_found
refuse (m ∷ ms) = method_not_allowed (m ∷ ms)

module _ {W : Type 0} (P : Platform W) (p : Pipeline W) (decoder : Decoder) where
  unfoldable pub handle : Endpoint → Request → Gateway W → Served × Gateway W
  unfolding chat readyz_answer all_models chat_answer
  handle healthz_handler r g = (answered healthz_answer, g)
  handle readyz_handler r g = (answered (readyz_answer p), g)
  handle models_handler r g =
      let (models, w) = all_models p g.world in
      (answered (write_json [] (pos 200) (models_body "list" models)), record g { world = w })
  handle chat_handler r g =
      let (resp, g') = chat P p decoder r g in
      (elim resp [ none ↦ aborted | some a ↦ answered (chat_answer a.headers a.written) ], g')

  -- A request to the server. A path is cleaned but for CONNECT.
  unfoldable pub serve : String → String → Request → Gateway W → Served × Gateway W
  unfolding find_handler allowed_methods clean_path handle
  serve method path r g =
      if not (method == "CONNECT") && not (clean_path path == path)
      then (redirected (clean_path path), g)
      else (elim (find_handler method path routes) [
        | some endpoint ↦ handle endpoint r g
        | none ↦ (refuse (allowed_methods path routes), g)
      ])
