-- ===== src/Config/Loaded.antt =====
-- What the defaults of internal/config/config.go do to a configuration, and what `Load` returns.
use vulpes_core.Base.{
  String, ◌≡◌, ◌≢◌, inl, inr, refl, sym, ap, List, [], ◌∷◌, map, arith, eq_iff, none, Result, ok,
  Result-cases, ◌∙◌, subst,
}
use vulpes_core.Base.Int.{ℤ, pos, negsuc}
use vulpes_core.Config.Types.{Config, PluginConfig}
use vulpes_core.Config.Defaults.{
  apply_defaults, server_defaults, observability_defaults, fallback_defaults, restart_defaults,
  plugin_defaults, text_or, number_or, texts_or,
}
use vulpes_core.Config.Validate.{validate, load}
use vulpes_core.Config.Valid.{Valid, validate_iff}

text_or-set : (d x : String) → d ≢ "" → text_or d x ≢ ""
text_or-set d x h = ground (arith, eq_iff x "")

text_or_twice : (d x : String) → text_or d (text_or d x) ≡ text_or d x
text_or_twice d x = ground arith

number_or_twice : (d x : ℤ) → number_or d (number_or d x) ≡ number_or d x
number_or_twice d (pos n) = ground arith
number_or_twice d (negsuc n) = refl

texts_or_twice : (d x : List String) → texts_or d (texts_or d x) ≡ texts_or d x
texts_or_twice [] [] = refl
texts_or_twice (d ∷ ds) [] = refl
texts_or_twice d (x ∷ xs) = refl

plugin_defaults_twice :
    (ps : List PluginConfig) → map plugin_defaults (map plugin_defaults ps) ≡ map plugin_defaults ps
unfolding plugin_defaults
plugin_defaults_twice [] = refl
plugin_defaults_twice (p ∷ ps) = rw (
  plugin_defaults_twice ps,
  text_or_twice "closed" p.fail_mode,
  text_or_twice "community" p.trust,
)

-- The defaults change nothing where they have been applied before.
pub apply_defaults_twice : (c : Config) → apply_defaults (apply_defaults c) ≡ apply_defaults c
unfolding apply_defaults server_defaults observability_defaults fallback_defaults restart_defaults
apply_defaults_twice c = rw (
  plugin_defaults_twice c.plugins,
  text_or_twice "127.0.0.1:8080" c.server.listen,
  number_or_twice (pos 120_000_000_000) c.server.request_timeout,
  number_or_twice (pos 60_000_000_000) c.server.stream_idle_timeout,
  number_or_twice (pos 10_000) c.observability.queue_size,
  number_or_twice (pos 100) c.observability.batch_size,
  number_or_twice (pos 1_000_000_000) c.observability.flush_interval,
  text_or_twice "drop_oldest" c.observability.on_overflow,
  number_or_twice (pos 3) c.fallbacks.max_attempts,
  texts_or_twice ("upstream_timeout" ∷ "upstream_rate_limited" ∷ "upstream_5xx" ∷ [])
      c.fallbacks.retry_on,
  number_or_twice (pos 5) c.restart.max_attempts,
  number_or_twice (pos 500_000_000) c.restart.initial_backoff,
  number_or_twice (pos 30_000_000_000) c.restart.max_backoff,
)

-- A configuration that Load returns is valid, and is the parsed file with the defaults applied;
-- applying them again changes nothing.
pub load-Valid :
    (read_file : String → Result String String) (unmarshal : String → Result String Config)
    (path : String) {c : Config}
    → load read_file unmarshal path ≡ ok c
    → Valid c
      × (apply_defaults c ≡ c)
      × ((b : String) × (parsed : Config) × (read_file path ≡ ok b)
          × (unmarshal b ≡ ok parsed)
          × (c ≡ apply_defaults parsed))
unfolding load
load-Valid read_file unmarshal path {c} h = elim (Result-cases (read_file path)) [
  | inl (e, bad) ↦ ground arith
  | inr (b, good) ↦ elim (Result-cases (unmarshal b)) [
    | inl (e, bad) ↦ ground arith
    | inr (parsed, done) ↦
        let same : (c ≡ apply_defaults parsed) × (validate (apply_defaults parsed) ≡ none) =
          ground arith in
        let fixed = ap apply_defaults same.0 ∙ apply_defaults_twice parsed ∙ sym same.0 in
        (
          subst (λ x. Valid x) (sym same.0) ((validate_iff (apply_defaults parsed)).0 same.1),
          fixed,
          (b, parsed, good, done, same.0),
        )
  ]
]
