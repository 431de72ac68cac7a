-- ===== src/HttpApi/Served.antt =====
-- Every request to the gateway is answered.
use vulpes_core.Base.{
  String, ◌≡◌, ◌≢◌, ◌⊎◌, inl, inr, refl, ap, sym, ◌∙◌, List, Option, none, some, ok, err, ◌==◌,
  eq_iff, if◌then◌else◌, arith, Bool-cases, Result-cases,
}
use vulpes_core.Base.Dict.{lookup}
use vulpes_core.Base.Value.{Value, Fields, no_fields, entry}
use vulpes_core.Capabilities.{Error, error_text, ChatCompletionRequest}
use vulpes_core.Config.{Config}
use vulpes_core.Models.{ModelRegistry}
use vulpes_core.Queue.{Queue}
use vulpes_core.Plugins.Registry.{Registry}
use vulpes_core.Pipeline.Platform.{Platform}
use vulpes_core.Pipeline.State.{Pipeline}
use vulpes_core.Pipeline.Compile.{compile}
use vulpes_core.Pipeline.Exec.{Gateway}
use vulpes_core.Pipeline.Answers.{execute_chat_answers}
use vulpes_core.HttpApi.Defs.{ErrorObject, error_body, write_error}
use vulpes_core.Base.Int.{pos}
use vulpes_core.HttpApi.Handler.{
  Request, Decoder, Response, known_keys, is_key, extra_of, decode_chat_request, request_headers,
  source_ip, error_response, respond, chat,
}

-- The value of a key.
abbrev pub field_at : String → Fields → Option Value
field_at key no_fields = none
field_at key (entry k v rest) = if k == key then some v else field_at key rest

field_at-extra_of :
    (key : String) (known : List String) (raw : Fields)
    → field_at key (extra_of known raw) ≡ (if is_key key known then none else field_at key raw)
unfolding extra_of
field_at-extra_of key known no_fields = ground arith
field_at-extra_of key known (entry k v rest) = elim (Bool-cases (k == key)) [
  | inl same ↦
      let keys : is_key k known ≡ is_key key known =
        ap (λ x. is_key x known) ((eq_iff k key).0 same) in
      ground (arith, same, keys, field_at-extra_of key known rest)
  | inr other ↦ ground (arith, other, field_at-extra_of key known rest)
]

-- A body that is decoded is read as a map; the request has a model, and its further fields are
-- exactly those of the map whose keys are not among the eight that the gateway knows.
pub decode_chat_request_lem :
    (decoder : Decoder) (body : String) (req : ChatCompletionRequest)
    → decode_chat_request decoder body ≡ ok req
    → (raw : Fields) × (decoder.decode_map body ≡ ok raw)
      × (req.model ≢ "")
      × ((key : String)
          → field_at key req.extra ≡ (if is_key key known_keys then none else field_at key raw))
unfolding decode_chat_request
decode_chat_request_lem decoder body req h = elim (Result-cases (decoder.decode_map body)) [
  | inl (e, bad) ↦ ground (arith, h, bad)
  | inr (raw, read) ↦ elim (Result-cases (decoder.fill raw)) [
    | inl (e, bad) ↦ ground (arith, h, read, bad)
    | inr (filled, good) ↦ elim (Bool-cases (filled.model == "")) [
      | inl empty ↦ ground (arith, h, read, good, empty)
      | inr named ↦
          let same : record filled { extra = extra_of known_keys raw } ≡ req =
            ground (arith, h, read, good, named) in
          (
            raw,
            read,
            (λ blank. ground (arith, named, ap (λ r. r.model) same, blank, eq_iff filled.model "")),
            λ key. ap (λ r. field_at key r.extra) (sym same) ∙ field_at-extra_of key known_keys raw,
          )
    ]
  ]
]

-- With a compiled pipeline, the chat handler answers every request, whatever the plugins answer. A
-- body that cannot be decoded gets status 400 and changes nothing; the response to any other body
-- has a header X-Gateway-Request-Id with the UUID that was made for the request.
pub chat_answers :
    {W : Type 0} (reg : Registry W) (cfg : Config) (models : ModelRegistry) {p : Pipeline W}
    {q : Queue W} (P : Platform W) (decoder : Decoder) (r : Request) (g : Gateway W)
    → compile reg cfg models ≡ ok (p, q)
    → (resp : Response) × ((chat P p decoder r g).0 ≡ some resp)
      × (((e : Error) × (decode_chat_request decoder r.body ≡ err e)
            × ((chat P p decoder r g).1 ≡ g)
            × ((object : ErrorObject) × (resp.written ≡ error_body (pos 400) object)))
          ⊎ ((req : ChatCompletionRequest) × (decode_chat_request decoder r.body ≡ ok req)
              × (lookup "X-Gateway-Request-Id" resp.headers ≡ some (P.new_uuid g.world).0)))
unfolding chat write_error error_text
chat_answers reg cfg models {p} P decoder r g compiled =
    elim (Result-cases (decode_chat_request decoder r.body)) [
      | inl (e, bad) ↦
          (error_response e, rw (bad, chat) refl, inl (e, bad, rw (bad, chat) refl, (_, refl)))
      | inr (req, good) ↦
          let (reply, ret, tag) =
            execute_chat_answers reg cfg models P req (request_headers r.headers)
              (source_ip decoder r.remote_addr) g compiled in
          (respond req.stream reply, rw (good, chat, ret) refl, inr (req, good, tag.header))
    ]
