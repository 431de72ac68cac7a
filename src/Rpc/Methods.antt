-- ===== src/Rpc/Methods.antt =====
-- The methods of RPCPluginClient: each is one `call`, and Invoke is a sequence of calls.
use vulpes_core.Base.{
  ℕ, zero, suc, String, ◌<>◌, Bool, true, false, List, [], ◌∷◌, Option, none, some, Result, ok, err,
  eqb, if◌then◌else◌,
}
use vulpes_core.Base.Int.{ℤ, pos}
use vulpes_core.Base.Text.{sprint_int}
use vulpes_core.Base.Dict.{Dict}
use vulpes_core.Capabilities.{Error, plain, error_text, ResponseChunk, InvokeRequest}
use vulpes_core.Plugins.Registry.{Metadata}
use vulpes_core.Plugins.Register.{PluginClient}
use vulpes_core.Rpc.Wire.{
  Transport, empty, health_request, get_metadata_request, get_config_schema_request,
  HandshakeResponse, HealthResponse, InvokeStartResponse, InvokeNextResponse, handshake,
  get_metadata, get_config_schema, configure, health, authenticate, authorize, check_rate_limit,
  commit_usage, route, invoke_start, invoke_next, invoke_cancel, list_models, cache_lookup,
  cache_store, emit, resolve_prompt, estimate_cost,
}
use vulpes_core.Rpc.Client.{call}

-- The version is an `int`: one that is not 1 is refused.
abbrev pub is_one : ℤ → Bool
is_one (pos n) = eqb n 1
is_one _ = false

-- The error alone.
abbrev pub error_of : {A W : Type 0} → Result Error A × W → Option Error × W
error_of (ok a, w) = (none, w)
error_of (err e, w) = (some e, w)

-- A field of the answer.
abbrev pub field : {A B W : Type 0} → (A → B) → Result Error A × W → Result Error B × W
field f (ok a, w) = (ok (f a), w)
field f (err e, w) = (err e, w)

-- The end of a stream that the plugin broke off.
abbrev pub stream_failed : Error → ResponseChunk
stream_failed e = record {
  chunk = none;
  usage = none;
  error = some (record {
    code = "plugin_stream_failed";
    message = error_text e;
    http_status = pos 502;
    retryable = true;
    rate_limited = false;
  });
}

-- The reader of the channel and its context: whether it takes the next chunk before the context
-- ends, and whether the stream's watcher saw the context end.
pub record Reader (W : Type 0) : Type 0 where
  pub takes : W → Bool × W
  pub cancelled : W → Bool

module _ {W : Type 0} (t : Transport W) where
  -- `Handshake`
  unfoldable pub do_handshake : W → Option Error × W
  unfolding call
  do_handshake w = selected (
      call t handshake
        (record { gateway_version = "dev"; supported_protocol_versions = pos 1 ∷ [] }) w)
    where
      selected : Result Error HandshakeResponse × W → Option Error × W
      selected (err e, w') = (some e, w')
      selected (ok resp, w') = if is_one resp.selected_protocol_version then (none, w') else (
        some (
            plain (
              "unsupported plugin protocol version " <> sprint_int resp.selected_protocol_version)),
        w',
      )

  -- `GetMetadata`; that the client keeps the answer too is of no effect.
  unfoldable pub do_get_metadata : W → Result Error Metadata × W
  unfolding call
  do_get_metadata w = call t get_metadata get_metadata_request w

  unfoldable pub do_get_config_schema : W → Result Error String × W
  unfolding call
  do_get_config_schema w =
      field (λ resp. resp.schema_json) (call t get_config_schema get_config_schema_request w)

  -- `Configure`, with the text of the configuration.
  unfoldable pub do_configure : String → String → Dict String → W → Option Error × W
  unfolding call
  do_configure instance_name config_json secrets w = error_of (
      call t configure
        (record {
          context = record {
            request_id = "";
            tenant_id = "";
            deadline = none;
            trace_context = [];
            gateway_version = "";
            plugin_instance = instance_name;
          };
          config_json = config_json;
          resolved_secrets = secrets;
        })
        w)

  unfoldable pub do_health : W → Result Error HealthResponse × W
  unfolding call
  do_health w = call t health health_request w

  module _ (reader : Reader W) (id : ℕ) where
    -- A chunk for the channel, and what follows if it is taken.
    abbrev pub offer :
        ResponseChunk → (W → List ResponseChunk × W) → Bool × W → List ResponseChunk × W
    offer chunk rest (false, w) = ([], w)
    offer chunk rest (true, w) = let (chunks, w') = rest w in (chunk ∷ chunks, w')

    -- What a round does with the answer of InvokeNext.
    unfoldable pub relay_next :
        (W → List ResponseChunk × W) → Result Error InvokeNextResponse × W → List ResponseChunk × W
    relay_next rest (err e, w) = offer (stream_failed e) (λ w'. ([], w')) (reader.takes w)
    relay_next rest (ok next, w) =
        if next.eof then ([], w) else offer next.chunk rest (reader.takes w)

    -- The loop of Invoke, for a number of rounds.
    unfoldable pub stream : ℕ → W → List ResponseChunk × W
    unfolding relay_next call
    stream zero w = ([], w)
    stream (suc n) w = relay_next (stream n) (call t invoke_next (record { stream_id = id }) w)

    -- The watcher: it tells the plugin to stop if the context ended first.
    unfoldable pub watched : List ResponseChunk × W → List ResponseChunk × W
    unfolding call
    watched (chunks, w) =
        if reader.cancelled w
        then (chunks, (call t invoke_cancel (record { stream_id = id }) w).1)
        else (chunks, w)

  -- `Invoke`: the chunks that the channel delivers until it is closed.
  unfoldable pub invoke : Reader W → ℕ → InvokeRequest → W → Result Error (List ResponseChunk) × W
  unfolding call stream watched
  invoke reader rounds req w = started (call t invoke_start req w)
    where
      started : Result Error InvokeStartResponse × W → Result Error (List ResponseChunk) × W
      started (err e, w') = (err e, w')
      started (ok start, w') =
          let id = start.stream_id in
          let (chunks, w'') = watched reader id (stream reader id rounds w') in (ok chunks, w'')

  -- The client as the registry gets it.
  unfoldable pub plugin_client : Reader W → ℕ → PluginClient W
  unfolding call invoke
  plugin_client reader rounds = record {
    authn = record { authenticate = λ req w. call t authenticate req w };
    authz = record { authorize = λ req w. call t authorize req w };
    ratelimit = record {
      check = λ req w. call t check_rate_limit req w;
      commit = λ req w. error_of (call t commit_usage req w);
    };
    router = record { route = λ req w. call t route req w };
    upstream = record {
      invoke = invoke reader rounds;
      list_models = λ w. call t list_models empty w;
    };
    cache = record {
      lookup = λ req w. call t cache_lookup req w;
      store = λ req w. error_of (call t cache_store req w);
    };
    observer = record { emit = λ events w. error_of (call t emit events w) };
    prompt = record { resolve_prompt = λ req w. call t resolve_prompt req w };
    cost = record { estimate = λ req w. call t estimate_cost req w };
    modelregistry = record { list_models = λ w. call t list_models empty w };
  }
