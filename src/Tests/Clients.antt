-- ===== src/Tests/Clients.antt =====
-- The client of a plugin at concrete inputs. The plugin's connection 0 is shut down, and every
-- other one works.
use vulpes_core.Base.{
  ℕ, suc, ◌≡◌, refl, true, false, [], ◌∷◌, none, some, Result, ok, err, arith, if◌then◌else◌, eqb,
  List, ◌++◌, ◌∙◌, ap, String,
}
use vulpes_core.Base.Int.{pos}
use vulpes_core.Capabilities.{
  Error, ResponseChunk, plain, wrap, InvokeRequest, router_cap, upstream_provider_cap, error_text,
}
use vulpes_core.Plugins.Registry.{Metadata}
use vulpes_core.Rpc.Wire.{
  Method, handshake, get_metadata, get_config_schema, configure, invoke_start, invoke_next,
  CallError, shutdown, failed, Conn, Transport, get_metadata_request,
}
use vulpes_core.Rpc.Client.{call, swap}
use vulpes_core.Rpc.Methods.{Reader, stream, invoke}
use vulpes_core.Rpc.Attempts.{logged, AtMostTwice, call_attempts, retryable-invoke}
use vulpes_core.Rpc.Streams.{broken_off, invoke_delivers}
use vulpes_core.Rpc.Pool.{
  Pool, at, dialed_pool, pool_transport, Run, stop, next, dials, swaps, no_connection_left,
}
use vulpes_core.Pipeline.Collect.{retryable}
use vulpes_core.Pipeline.Stages.{new_context, anonymous_identity}
use vulpes_core.Tests.Fixtures.{hello, chat_request}

abbrev metadata : Metadata
metadata = record {
  name = "a";
  version = "1";
  homepage = "";
  capabilities =
      record { type = router_cap; name = "r"; version = "1" }
      ∷ record { type = upstream_provider_cap; name = "u"; version = "1" }
      ∷ [];
  permissions = record {
    outbound_hosts = [];
    secret_names = [];
    data_permissions = record {
      read_prompt = false;
      read_response = false;
      modify_request = false;
      modify_response = false;
      read_headers = false;
    };
  };
}

-- What the plugin answers, by the number of calls in front.
unfoldable pub answers : {Req Resp : Type 0} → Method Req Resp → ℕ → Result CallError Resp
answers handshake n = ok (record {
  selected_protocol_version = pos 1;
  plugin_name = "a";
  plugin_version = "1";
  diagnostics = [];
})
answers get_metadata n = ok metadata
answers get_config_schema n = ok (record { schema_json = " " })
answers configure n = ok (record { diagnostics = [] })
answers invoke_start n = ok (record { stream_id = 7 })
answers invoke_next n = ok (record { chunk = hello; eof = eqb n 9 })
answers _ n = err (failed "not now")

abbrev answer_on : {Req Resp : Type 0} → Method Req Resp → Conn → ℕ → Result CallError Resp
answer_on method conn n = if eqb conn 0 then err shutdown else answers method n

-- The client's connection, and the number of calls that were made.
abbrev pub World : Type 0
World = ℕ × ℕ

abbrev pub transport : Transport World
transport = record {
  call_on = λ method conn req w. (answer_on method conn w.1, (w.0, suc w.1));
  dial = λ w. (ok 1, w);
  close = λ conn w. w;
  client = λ w. w.0;
  set_client = λ conn w. (conn, w.1);
}

abbrev pub reader : Reader World
reader = record { takes = λ w. (true, w); cancelled = λ w. false }

-- The first attempt meets the connection that is shut down, the second one the new connection.
called_twice :
    call (logged transport) get_metadata get_metadata_request ((0, 0), [])
    ≡ (ok metadata, ((1, 2), 1 ∷ 0 ∷ []))
unfolding call answers
called_twice = refl

call_attempts_example :
    let out = call (logged transport) get_metadata get_metadata_request ((0, 0), []) in
    (out.0 ≡ (call transport get_metadata get_metadata_request (0, 0)).0)
    × (out.1.0 ≡ (call transport get_metadata get_metadata_request (0, 0)).1)
    × AtMostTwice transport 0
        (transport.call_on get_metadata 0 get_metadata_request (0, 0))
        []
        out.1.1
call_attempts_example = call_attempts transport get_metadata get_metadata_request (0, 0) []

one_chunk : stream transport reader 7 3 (1, 8) ≡ (hello ∷ [], (1, 10))
unfolding stream answers
one_chunk = refl

-- A plugin that is gone: nothing listens at its socket.
abbrev gone : Transport World
gone = record transport { dial = λ w. (err (plain "refused"), w) }

abbrev invoke_request : InvokeRequest
invoke_request = record {
  context = new_context "id";
  identity = anonymous_identity;
  provider_model = "m1";
  request = chat_request;
  properties = [];
}

-- A plugin with a list of chunks, behind which the stream breaks off.
unfoldable serves :
    {Req Resp : Type 0}
    → Method Req Resp
    → List ResponseChunk
    → Result CallError Resp × List ResponseChunk
serves invoke_start chunks = (ok (record { stream_id = 7 }), chunks)
serves invoke_next [] = (err (failed "gone"), [])
serves invoke_next (chunk ∷ chunks) = (ok (record { chunk = chunk; eof = false }), chunks)
serves _ chunks = (err (failed "not now"), chunks)

abbrev script : Transport (List ResponseChunk)
script = record {
  call_on = λ method conn req w. serves method w;
  dial = λ w. (ok 0, w);
  close = λ conn w. w;
  client = λ w. 0;
  set_client = λ conn w. w;
}

abbrev taker : Reader (List ResponseChunk)
taker = record { takes = λ w. (true, w); cancelled = λ w. false }

script_gives :
    (conn : Conn) (w : List ResponseChunk) (chunk : ResponseChunk) (chunks : List ResponseChunk)
    → w ≡ chunk ∷ chunks
    → (w' : List ResponseChunk) × (script.call_on invoke_next conn (record { stream_id = 7 }) w
        ≡ (ok (record { chunk = chunk; eof = false }), w'))
      × (w' ≡ chunks)
unfolding serves
script_gives conn w chunk chunks e = (chunks, ap (λ x. serves invoke_next x) e, refl)

script_breaks :
    (conn : Conn) (w : List ResponseChunk) (text : String)
    → w ≡ []
    → some "gone" ≡ some text
    → (w' : List ResponseChunk) × (script.call_on invoke_next conn (record { stream_id = 7 }) w
        ≡ (err (failed text), w'))
unfolding serves
script_breaks conn w text e same =
    let named : "gone" ≡ text = ground (arith, same) in
    ([], ap (λ x. serves invoke_next x) e ∙ ap (λ x. (err (failed x), [])) named)

script_opened :
    script.call_on invoke_start 0 invoke_request (hello ∷ hello ∷ [])
    ≡ (ok (record { stream_id = 7 }), hello ∷ hello ∷ [])
unfolding serves
script_opened = refl

invoke_delivers_example :
    (chunks : List ResponseChunk) × (rest : List ResponseChunk) × ((invoke script taker 3
        invoke_request
        (hello ∷ hello ∷ [])).0
      ≡ ok chunks)
    × (chunks ++ rest ≡ (hello ∷ hello ∷ []) ++ broken_off (some "gone"))
    × (((v : List ResponseChunk) → true ≡ true) → rest ≡ [])
invoke_delivers_example =
    invoke_delivers script taker 7 (λ w. w) (some "gone") script_gives
      (λ conn w e never. absurd (ground (arith, never))) script_breaks (λ w. refl) 3 invoke_request
      (hello ∷ hello ∷ []) (hello ∷ hello ∷ []) script_opened (omega arith)

abbrev reconnect_failed : Error
reconnect_failed = wrap "" (plain "connection is shut down") " (reconnect failed: refused)"

not_invoked : (invoke gone reader 3 invoke_request (0, 0)).0 ≡ err reconnect_failed
unfolding invoke error_text
not_invoked = refl

retryable-invoke_example : retryable reconnect_failed ≡ true
retryable-invoke_example =
    retryable-invoke gone reader 3 invoke_request (0, 0) reconnect_failed not_invoked

abbrev silent : (Req Resp : Type 0) → Method Req Resp → Conn → Req → Pool → Result CallError Resp
silent Req Resp method conn req p = err shutdown

-- Two callers dial; the second one is the first to swap.
abbrev one_dialed : Pool
one_dialed = record ((pool_transport silent).dial dialed_pool).1 {
  waiting = at 1 (some 0) dialed_pool.waiting;
}

abbrev both_dialed : Pool
both_dialed = record ((pool_transport silent).dial one_dialed).1 {
  waiting = at 2 (some 0) one_dialed.waiting;
}

abbrev one_swapped : Pool
one_swapped = record (swap (pool_transport silent) 0 2 both_dialed).1 {
  waiting = at 2 none both_dialed.waiting;
}

abbrev both_swapped : Pool
both_swapped = record (swap (pool_transport silent) 0 1 one_swapped).1 {
  waiting = at 1 none one_swapped.waiting;
}

race : Run silent dialed_pool both_swapped
race = next dialed_pool one_dialed both_swapped (dials dialed_pool 0) (
    next one_dialed both_dialed both_swapped (dials one_dialed 0) (
      next both_dialed one_swapped both_swapped (swaps both_dialed 0 2 refl) (
        next one_swapped both_swapped both_swapped (swaps one_swapped 0 1 waiting_one)
          (stop both_swapped))))
  where
    waiting_one : one_swapped.waiting 1 ≡ some 0
    waiting_one = refl

no_connection_left_example :
    (both_swapped.opened both_swapped.client ≡ true)
    × (((c : Conn) → both_swapped.waiting c ≡ none)
        → (c : Conn) → both_swapped.opened c ≡ true
        → c ≡ both_swapped.client)
no_connection_left_example = no_connection_left silent both_swapped race
