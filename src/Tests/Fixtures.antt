-- ===== src/Tests/Fixtures.antt =====
-- Small plugins, a platform and configurations that the runs share. The world is a counter.
use vulpes_core.Base.{ℕ, suc, String, true, false, Option, none, some, [], ◌∷◌, Result, ok, err}
use vulpes_core.Base.Int.{pos}
use vulpes_core.Base.Dict.{lookup}
use vulpes_core.Base.Value.{Float64, no_fields, null}
use vulpes_core.Capabilities.{
  GatewayEvent, Router, UpstreamProvider, SelectedRoute, Error, plain, ChatCompletionRequest,
  ResponseChunk,
}
use vulpes_core.Config.{Config, PluginConfig, ModelsConfig, ModelCandidate}
use vulpes_core.Pipeline.Platform.{Platform}
use vulpes_core.Pipeline.State.{zero_usage, zero_message, assistant_choice}
use vulpes_core.Plugins.Registry.{Registry}
use vulpes_core.Plugins.Register.{PluginClient}

abbrev pub no_float : Float64
no_float = record { bits = 0 }

abbrev pub event : String → GatewayEvent
event id = record {
  event_id = id;
  request_id = "r";
  tenant_id = "t";
  event_type = "request.started";
  timestamp_unix_nano = pos 0;
  properties = [];
  usage = zero_usage;
  error = [];
}

-- The encoding of a property map shows only whether it has the key duration_ms.
abbrev pub shown : Option String → String
shown none = "{}"
shown (some v) = "{duration_ms}"

abbrev pub platform : Platform ℕ
platform = record {
  new_uuid = λ w. ("id", suc w);
  now = λ w. (w, suc w);
  marshal_messages = λ ms. some "[]";
  marshal_request = λ req. some req.model;
  marshal_response = λ resp. some resp.id;
  marshal_properties = λ m. shown (lookup "duration_ms" m);
  sha256_hex = λ s. s;
}

abbrev pub route_to : String → SelectedRoute
route_to provider = record {
  provider_instance = provider;
  provider_model = "m1";
  priority = pos 0;
  properties = [];
}

abbrev pub router : Router ℕ
router = record {
  route = λ req. λ w. (
    ok (record { routes = route_to "gone" ∷ route_to "up" ∷ []; reason = ""; diagnostics = [] }),
    suc w,
  );
}

abbrev pub hello : ResponseChunk
hello = record {
  chunk = some (record {
    id = "c1";
    object = "chat.completion.chunk";
    created = pos 7;
    model = "m1";
    choices = assistant_choice "hello" "" ∷ [];
  });
  usage = none;
  error = none;
}

abbrev pub up : UpstreamProvider ℕ
up = record { invoke = λ req. λ w. (ok (hello ∷ []), suc w); list_models = λ w. (ok [], w) }

abbrev pub registry : Registry ℕ
registry = record {
  authn = [];
  authz = [];
  ratelimit = [];
  router = ("rt", router) ∷ [];
  upstream = ("up", up) ∷ [];
  cache = [];
  observer = [];
  prompt = [];
  cost = [];
  modelregistry = [];
  metadata = [];
}

abbrev pub plugin : String → PluginConfig
plugin name = record {
  name = name;
  source = record {
    type = "filesystem";
    path = "/opt/plugins/a";
    repository = "";
    release = "";
    asset = "";
    binary = "";
    checksum = "";
  };
  capabilities = "router" ∷ "observer" ∷ [];
  fail_mode = "closed";
  config = no_fields;
  checksum = "";
  trust = "community";
  sandbox = record {
    enabled = false;
    memory_mb = pos 0;
    cpu_quota = no_float;
    allow_network = [];
    read_only_filesystem = false;
    allow_child_processes = false;
  };
}

abbrev pub candidate : String → ModelCandidate
candidate model = record {
  provider = "up";
  model = model;
  weight = pos 0;
  region = "";
  properties = [];
}

abbrev pub models_config : ModelsConfig
models_config = record {
  aliases = ("fast", record { candidates = candidate "m1" ∷ candidate "m2" ∷ [] }) ∷ [];
}

abbrev pub config : Config
config = record {
  server = record { listen = ":80"; request_timeout = pos 1; stream_idle_timeout = pos 1 };
  auth = record { anonymous = true };
  secrets = record { env = record { enabled = true } };
  plugins = plugin "a" ∷ plugin "b" ∷ [];
  pipeline = record {
    authenticator = "";
    authorizer = "";
    rate_limiter = "";
    cache_provider = "";
    prompt_provider = "";
    router = "rt";
    cost_provider = "";
    model_registry_provider = "";
    upstream_providers = "up" ∷ [];
    observers = [];
    blocking_observers = [];
  };
  models = models_config;
  fallbacks = record { max_attempts = pos 3; retry_on = "upstream_5xx" ∷ []; do_not_retry_on = [] };
  observability = record {
    queue_size = pos 10;
    batch_size = pos 2;
    flush_interval = pos 1;
    on_overflow = "drop_oldest";
    capture_payloads = false;
  };
  restart = record { max_attempts = pos 1; initial_backoff = pos 1; max_backoff = pos 1 };
  allow_zero_plugins = false;
}

abbrev pub chat_request : ChatCompletionRequest
chat_request = record {
  model = "fast";
  messages = zero_message ∷ [];
  stream = false;
  temperature = none;
  max_tokens = none;
  tools = null;
  tool_choice = null;
  metadata = null;
  extra = no_fields;
}

abbrev refused : {A : Type 0} → ℕ → Result Error A × ℕ
refused w = (err (plain "refused"), w)

abbrev dropped : ℕ → Option Error × ℕ
dropped w = (none, w)

abbrev pub client : PluginClient ℕ
client = record {
  authn = record { authenticate = λ req. refused };
  authz = record { authorize = λ req. refused };
  ratelimit = record { check = λ req. refused; commit = λ req. dropped };
  router = router;
  upstream = up;
  cache = record { lookup = λ req. refused; store = λ req. dropped };
  observer = record { emit = λ events. dropped };
  prompt = record { resolve_prompt = λ req. refused };
  cost = record { estimate = λ req. refused };
  modelregistry = record { list_models = refused };
}
