-- ===== src/Config/Types.antt =====
-- internal/config/config.go: the configuration file. A duration is its number of nanoseconds.
use vulpes_core.Base.{String, Bool, List}
use vulpes_core.Base.Int.{ℤ}
use vulpes_core.Base.Dict.{Dict}
use vulpes_core.Base.Value.{Fields, Float64}

pub record ServerConfig : Type 0 where
  pub listen : String
  pub request_timeout : ℤ
  pub stream_idle_timeout : ℤ

pub record AuthConfig : Type 0 where
  pub anonymous : Bool

pub record EnvSecretsConfig : Type 0 where
  pub enabled : Bool

pub record SecretsConfig : Type 0 where
  pub env : EnvSecretsConfig

pub record PluginSource : Type 0 where
  pub type : String
  pub path : String
  pub repository : String
  pub release : String
  pub asset : String
  pub binary : String
  pub checksum : String

pub record SandboxConfig : Type 0 where
  pub enabled : Bool
  pub memory_mb : ℤ
  pub cpu_quota : Float64
  pub allow_network : List String
  pub read_only_filesystem : Bool
  pub allow_child_processes : Bool

pub record PluginConfig : Type 0 where
  pub name : String
  pub source : PluginSource
  pub capabilities : List String
  pub fail_mode : String
  pub config : Fields
  pub checksum : String
  pub trust : String
  pub sandbox : SandboxConfig

pub record PipelineConfig : Type 0 where
  pub authenticator : String
  pub authorizer : String
  pub rate_limiter : String
  pub cache_provider : String
  pub prompt_provider : String
  pub router : String
  pub cost_provider : String
  pub model_registry_provider : String
  pub upstream_providers : List String
  pub observers : List String
  pub blocking_observers : List String

pub record ModelCandidate : Type 0 where
  pub provider : String
  pub model : String
  pub weight : ℤ
  pub region : String
  pub properties : Dict String

pub record ModelAlias : Type 0 where
  pub candidates : List ModelCandidate

pub record ModelsConfig : Type 0 where
  pub aliases : Dict ModelAlias

pub record FallbackConfig : Type 0 where
  pub max_attempts : ℤ
  pub retry_on : List String
  pub do_not_retry_on : List String

pub record ObservabilityConfig : Type 0 where
  pub queue_size : ℤ
  pub batch_size : ℤ
  pub flush_interval : ℤ
  pub on_overflow : String
  pub capture_payloads : Bool

pub record RestartConfig : Type 0 where
  pub max_attempts : ℤ
  pub initial_backoff : ℤ
  pub max_backoff : ℤ

pub record Config : Type 0 where
  pub server : ServerConfig
  pub auth : AuthConfig
  pub secrets : SecretsConfig
  pub plugins : List PluginConfig
  pub pipeline : PipelineConfig
  pub models : ModelsConfig
  pub fallbacks : FallbackConfig
  pub observability : ObservabilityConfig
  pub restart : RestartConfig
  pub allow_zero_plugins : Bool
