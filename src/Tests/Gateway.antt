-- ===== src/Tests/Gateway.antt =====
-- The manager and the gateway as a whole at concrete inputs.
use vulpes_core.Base.{
  ℕ, ◌+◌, String, ◌≡◌, ◌≢◌, refl, ap, Bool, true, false, [], ◌∷◌, ◌==◌, none, some, Result, ok, err,
  arith, if◌then◌else◌, leb, ◌≤◌, All, ◌≤◌,
}
use vulpes_core.Base.Int.{pos}
use vulpes_core.Base.Dict.{lookup, insert}
use vulpes_core.Base.Value.{null, Fields, no_fields, entry, str}
use vulpes_core.Capabilities.{
  Error, plain, ChatCompletionRequest, router_cap, upstream_provider_cap,
}
use vulpes_core.Config.{Config, PluginConfig}
use vulpes_core.Queue.{Queue, new_queue}
use vulpes_core.Plugins.Registry.{
  Metadata, capability_of, upstream_provider, add_upstream_provider, add_router, add_metadata,
}
use vulpes_core.Plugins.Registry as Plugins
use vulpes_core.Plugins.Sources.{Host}
use vulpes_core.Pipeline.Exec.{Gateway}
use vulpes_core.Pipeline.State.{Pipeline}
use vulpes_core.Pipeline.Compile.{optional, find_upstreams, find_observers, required}
use vulpes_core.Pipeline.Platform.{Platform}
use vulpes_core.Manager.Process.{Os, exited, await_socket, new_process}
use vulpes_core.Manager.Await.{Clock, await_socket_ends}
use vulpes_core.Manager.Start.{Env, Manager, new_manager, start}
use vulpes_core.Manager.Start as Manager
use vulpes_core.Manager.Stopped.{Notes, IsNoted, stop-IsNoted}
use vulpes_core.Manager.Started.{HasPlugin}
use vulpes_core.Manager.Settled.{Settled}
use vulpes_core.HttpApi.Handler.{Request, Decoder, known_keys, is_key, decode_chat_request}
use vulpes_core.HttpApi.Served.{field_at, decode_chat_request_lem}
use vulpes_core.HttpApi.Routes.{serve}
use vulpes_core.HttpApi.Total.{Conforms}
use vulpes_core.App.{new_app, with_secrets, new_app_serves}
use vulpes_core.Tests.Fixtures.{config, chat_request, plugin}
use vulpes_core.Tests.Clients.{World, transport, reader, answers}

-- An operating system whose clock is the second part of the world, in nanoseconds; a process has
-- its socket when the clock is at 100 ms.
abbrev os : Os World
os = record {
  temp_dir = "/tmp";
  now = λ w. w.1;
  path_variable = λ w. "/bin";
  mkdir_all = λ path mode w. (none, w);
  remove = λ path w. w;
  start_command = λ cmd w. (ok 77, w);
  dial_unix = λ socket w. (leb 100000000 w.1, w);
  pause = λ w. (none, (w.0, w.1 + 50000000));
  interrupt = λ pid w. w;
  kill = λ pid w. w;
  wait = λ pid w. (exited none, w);
}

clock : Clock os
clock = record { dial = λ socket w. ground arith; pause = λ w h. ground arith }

await_socket_ends_example :
    await_socket os (new_process "a" "/opt/a") 200000000 4 (0, 0)
    ≡ await_socket os (new_process "a" "/opt/a") 200000000 9 (0, 0)
await_socket_ends_example =
    await_socket_ends os clock (new_process "a" "/opt/a") 200000000 4 9 (0, 0) (ground arith)
      (ground arith)

abbrev gateway_host : Host World
gateway_host = record {
  files = record {
    mkdir_all = λ path mode w. (none, w);
    write_file = λ path mode contents w. (none, w);
  };
  readers = record { read_zip = λ path w. ok []; read_tar_gz = λ path w. ok ([], none) };
  stat = λ path w. ok (record { is_dir = false; mode = 493 });
  open_file = λ path w. ok (record { bytes = "binary"; read_error = none });
  sha256 = λ s. "d1";
  create_temp = λ pattern w. (ok "/tmp/p1", w);
  copy_temp = λ path contents w. (none, w);
  close_temp = λ path w. (none, w);
  remove = λ path w. w;
  chmod = λ path mode w. (none, w);
}

abbrev pub env : Env World
env = record {
  host = gateway_host;
  download = λ url w. (err (plain "offline"), w);
  os = os;
  user_home = λ w. ok "/home/u";
  deadline = λ w. w.1 + 5000000000;
  rounds = 100;
  dial_plugin = λ socket name w. (ok 3, (1, w.1));
  transport = λ client. transport;
  reader = reader;
  chunks = 5;
  secrets = λ name. err "no secret";
  schemas = record {
    unmarshal = λ text. ok null;
    marshal = λ config. "{}";
    add_resource = λ doc. none;
    compile = λ doc. ok (λ v. none);
  };
}

abbrev allowed : PluginConfig
allowed = record (plugin "a") { capabilities = router_cap ∷ upstream_provider_cap ∷ [] }

abbrev untrusted : PluginConfig
untrusted = record (plugin "b") { trust = "untrusted" }

untrusted_refused :
    (start env (allowed ∷ untrusted ∷ []) new_manager (0, 0)).0
    ≡ some (plain "plugin b refused: untrusted plugins require sandbox")
unfolding start answers
untrusted_refused = refl

one_started : (start env (allowed ∷ []) new_manager (0, 0)).0 ≡ none
unfolding start answers
one_started = refl

abbrev pub decoder : Decoder
decoder = record {
  decode_map = λ body.
      if body == ""
      then err (plain "EOF")
      else ok (entry "model" (str "fast") (entry "seed" (str "1") no_fields));
  fill = λ raw. ok chat_request;
  split_host = λ addr. none;
}

abbrev decoded : ChatCompletionRequest
decoded = record chat_request { extra = entry "seed" (str "1") no_fields }

decodes : decode_chat_request decoder "{}" ≡ ok decoded
unfolding decode_chat_request
decodes = refl

decode_chat_request_lem_example :
    (raw : Fields) × (decoder.decode_map "{}" ≡ ok raw)
    × (decoded.model ≢ "")
    × ((key : String)
        → field_at key decoded.extra ≡ (if is_key key known_keys then none else field_at key raw))
decode_chat_request_lem_example = decode_chat_request_lem decoder "{}" decoded decodes

abbrev pub request : Request
request = record { body = "{}"; headers = []; remote_addr = "10.0.0.1" }

abbrev small_config : Config
small_config = record config {
  plugins = allowed ∷ [];
  pipeline = record config.pipeline { router = "a"; upstream_providers = "a" ∷ [] };
}

abbrev no_pipeline : Pipeline World
no_pipeline = record {
  cfg = config;
  registry = Plugins.new_registry;
  models = record { aliases = [] };
  authn = none;
  authz = none;
  ratelimit = none;
  router = none;
  cache = none;
  prompt = none;
  cost = none;
  upstreams = [];
  blocking_observers = [];
  ready = false;
  missing = [];
}

abbrev app : Result Error (Manager World × Pipeline World × Queue World) × World
app = new_app small_config [] env (0, 0)

-- What New made, or what a failed one stands for.
is_ready : Result Error (Manager World × Pipeline World × Queue World) → Bool
is_ready (ok (m, p, q)) = p.ready
is_ready (err e) = false

abbrev made :
    Result Error (Manager World × Pipeline World × Queue World)
    → Manager World × Pipeline World × Queue World
made (ok out) = out
made (err e) = (new_manager, no_pipeline, new_queue (pos 1) (pos 1) (pos 1) "block" [])

made-ready :
    (out : Result Error (Manager World × Pipeline World × Queue World))
    → is_ready out ≡ true
    → out ≡ ok (made out)
unfolding is_ready
made-ready (ok out) h = refl
made-ready (err e) h = ground (arith, h)

app_ready : is_ready app.0 ≡ true
unfolding new_app is_ready answers optional find_upstreams upstream_provider lookup capability_of
    add_upstream_provider insert add_router add_metadata find_observers required Plugins.router
app_ready = refl

new_app_serves_example :
    All (HasPlugin (with_secrets small_config [] env) (made app.0).0) small_config.plugins
    × ((P : Platform World) (decoder : Decoder) (r : Request) (g : Gateway World)
          (method path : String)
        → Conforms P decoder r g
            (made app.0).1
            method
            path
            (serve P (made app.0).1 decoder method path r g))
new_app_serves_example =
    new_app_serves small_config [] env (0, 0) app.1 (made app.0).0 (made app.0).1 (made app.0).2
      (ap (λ out. (out, app.1)) (made-ready app.0 app_ready))

-- The first part of the world adds up the numbers of the processes that were interrupted.
abbrev noting_env : Env World
noting_env = record env { os = record os { interrupt = λ pid w. (w.0 + pid, w.1) } }

abbrev Noted : ℕ → World → Type 0
Noted pid w = pid ≤ w.0

notes : Notes noting_env.os Noted
notes = record {
  noted = λ pid w. ground arith;
  interrupt = λ pid other w h. ground (arith, h);
  kill = λ pid other w h. h;
  wait = λ pid other w h. h;
}

abbrev two_processes : Manager World
two_processes = record new_manager {
  processes =
      ("a", record (new_process "a" "/opt/a") { cmd = some 77 })
      ∷ ("b", record (new_process "b" "/opt/b") { cmd = some 78 })
      ∷ [];
}

stop-IsNoted_example :
    All
      (IsNoted noting_env Noted notes (Manager.stop noting_env two_processes (0, 0)).1)
      two_processes.processes
stop-IsNoted_example = stop-IsNoted noting_env Noted notes two_processes (0, 0)
