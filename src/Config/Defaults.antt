-- ===== src/Config/Defaults.antt =====
-- `ApplyDefaults` of internal/config/config.go.
use vulpes_core.Base.{String, List, [], ◌∷◌, map, ◌==◌, if◌then◌else◌}
use vulpes_core.Base.Int.{ℤ, pos, is_zero}
use vulpes_core.Config.Types.{
  Config, ServerConfig, ObservabilityConfig, FallbackConfig, RestartConfig, PluginConfig,
}

-- `if x == "" { x = d }`
abbrev pub text_or : String → String → String
text_or d x = if x == "" then d else x

-- `if x == 0 { x = d }`
abbrev pub number_or : ℤ → ℤ → ℤ
number_or d x = if is_zero x then d else x

-- `if len(x) == 0 { x = d }`
abbrev pub texts_or : List String → List String → List String
texts_or d [] = d
texts_or d (x ∷ xs) = x ∷ xs

unfoldable pub server_defaults : ServerConfig → ServerConfig
server_defaults c = record {
  listen = text_or "127.0.0.1:8080" c.listen;
  request_timeout = number_or (pos 120_000_000_000) c.request_timeout;
  stream_idle_timeout = number_or (pos 60_000_000_000) c.stream_idle_timeout;
}

unfoldable pub observability_defaults : ObservabilityConfig → ObservabilityConfig
observability_defaults c = record c {
  queue_size = number_or (pos 10_000) c.queue_size;
  batch_size = number_or (pos 100) c.batch_size;
  flush_interval = number_or (pos 1_000_000_000) c.flush_interval;
  on_overflow = text_or "drop_oldest" c.on_overflow;
}

unfoldable pub fallback_defaults : FallbackConfig → FallbackConfig
fallback_defaults c = record c {
  max_attempts = number_or (pos 3) c.max_attempts;
  retry_on =
      texts_or ("upstream_timeout" ∷ "upstream_rate_limited" ∷ "upstream_5xx" ∷ []) c.retry_on;
}

unfoldable pub restart_defaults : RestartConfig → RestartConfig
restart_defaults c = record {
  max_attempts = number_or (pos 5) c.max_attempts;
  initial_backoff = number_or (pos 500_000_000) c.initial_backoff;
  max_backoff = number_or (pos 30_000_000_000) c.max_backoff;
}

unfoldable pub plugin_defaults : PluginConfig → PluginConfig
plugin_defaults p = record p {
  fail_mode = text_or "closed" p.fail_mode;
  trust = text_or "community" p.trust;
}

unfoldable pub apply_defaults : Config → Config
unfolding server_defaults observability_defaults fallback_defaults restart_defaults plugin_defaults
apply_defaults c = record c {
  server = server_defaults c.server;
  observability = observability_defaults c.observability;
  fallbacks = fallback_defaults c.fallbacks;
  restart = restart_defaults c.restart;
  plugins = map plugin_defaults c.plugins;
}
