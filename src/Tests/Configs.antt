-- ===== src/Tests/Configs.antt =====
-- Configurations and secrets at concrete inputs.
use vulpes_core.Base.{String, ◌≡◌, ◌↔◌, refl, true, none, [], ◌∷◌, Result, ok, arith}
use vulpes_core.Base.Dict.{Dict, lookup, insert}
use vulpes_core.Base.Value.{Fields, entry, no_fields, str}
use vulpes_core.Config.{Config}
use vulpes_core.Config.Defaults.{apply_defaults}
use vulpes_core.Config.Validate.{validate, load}
use vulpes_core.Config.Valid.{Valid, validate_iff}
use vulpes_core.Config.Loaded.{load-Valid}
use vulpes_core.Secrets.{env_provider, permits, resolve_plugin_secrets}
use vulpes_core.Secrets.Scope.{AgreeOn, resolve_plugin_secrets-Scoped, resolve_plugin_secrets_agree}
use vulpes_core.Tests.Fixtures.{config}

validate_iff_example : (validate config ≡ none) ↔ Valid config
validate_iff_example = validate_iff config

abbrev reads : String → Result String String
reads path = ok ""

abbrev parses : String → Result String Config
parses b = ok config

loads : load reads parses "gateway.yaml" ≡ ok config
unfolding load
loads = refl

load-Valid_example :
    Valid config
    × (apply_defaults config ≡ config)
    × ((b : String) × (parsed : Config) × (reads "gateway.yaml" ≡ ok b)
        × (parses b ≡ ok parsed)
        × (config ≡ apply_defaults parsed))
load-Valid_example = load-Valid reads parses "gateway.yaml" {c = config} loads

abbrev env : Dict String
env = ("KEY", "k1") ∷ ("OTHER", "k2") ∷ []

abbrev references : Fields
references = entry "api_key" (str "${secret:KEY}") no_fields

resolves :
    resolve_plugin_secrets ("KEY" ∷ []) (env_provider true env) references
    ≡ ok (entry "api_key" (str "k1") no_fields, ("KEY", "k1") ∷ [])
unfolding resolve_plugin_secrets env_provider lookup insert
resolves = refl

resolve_plugin_secrets-Scoped_example :
    (permits ("KEY" ∷ []) "KEY" ≡ true) × (env_provider true env "KEY" ≡ ok "k1")
unfolding lookup
resolve_plugin_secrets-Scoped_example =
    resolve_plugin_secrets-Scoped ("KEY" ∷ []) (env_provider true env) references
      {out = (entry "api_key" (str "k1") no_fields, ("KEY", "k1") ∷ [])} resolves "KEY" "k1" refl

abbrev env2 : Dict String
env2 = ("KEY", "k1") ∷ ("OTHER", "k3") ∷ []

agree : AgreeOn ("KEY" ∷ []) (env_provider true env) (env_provider true env2)
unfolding env_provider lookup
agree name may = ground (arith, may)

resolve_plugin_secrets_agree_example :
    resolve_plugin_secrets ("KEY" ∷ []) (env_provider true env) references
    ≡ resolve_plugin_secrets ("KEY" ∷ []) (env_provider true env2) references
resolve_plugin_secrets_agree_example =
    resolve_plugin_secrets_agree ("KEY" ∷ []) (env_provider true env) (env_provider true env2) agree
      references
