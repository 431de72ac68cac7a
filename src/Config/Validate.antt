-- ===== src/Config/Validate.antt =====
-- `Validate` of internal/config/validate.go, and `Load` of internal/config/config.go.
use vulpes_core.Base.{
  ℕ, suc, String, ◌<>◌, Bool, false, ◌||◌, not, ◌&&◌, List, [], ◌∷◌, ◌==◌, Option, none, some,
  if◌then◌else◌, Result, ok, err,
}
use vulpes_core.Base.Text.{sprint, quote}
use vulpes_core.Config.Types.{Config, PluginConfig, PluginSource}
use vulpes_core.Config.Defaults.{apply_defaults}

-- The map `seen`, as the list of its keys.
abbrev pub contains : String → List String → Bool
contains name [] = false
contains name (x ∷ xs) = x == name || contains name xs

unfoldable pub validate_source : String → PluginSource → Option String
validate_source name s =
    if s.type == ""
    then some ("plugin " <> quote name <> " source.type is required")
    else if s.type == "filesystem"
    then (if s.path == ""
        then some ("plugin " <> quote name <> " source.path is required")
        else none)
    else if s.type == "github"
    then (if s.repository == "" || s.release == "" || s.asset == "" || s.binary == ""
        then some (
            "plugin "
            <> quote name
            <> " github source requires repository, release, asset, and binary")
        else none)
    else some ("plugin " <> quote name <> " unsupported source type " <> quote s.type)

unfoldable pub validate_modes : PluginConfig → Option String
validate_modes p =
    if not (p.fail_mode == "open") && not (p.fail_mode == "closed")
    then some ("plugin " <> quote p.name <> " fail_mode must be open or closed")
    else if not (p.trust == "trusted")
        && not (p.trust == "community")
        && not (p.trust == "untrusted")
    then some ("plugin " <> quote p.name <> " trust must be trusted, community, or untrusted")
    else none

-- One round of the loop.
unfoldable pub validate_plugin : ℕ → List String → PluginConfig → Option String
unfolding validate_source validate_modes
validate_plugin i seen p =
    if p.name == ""
    then some ("plugins[" <> sprint i <> "].name is required")
    else if contains p.name seen
    then some ("duplicate plugin name " <> quote p.name)
    else elim (validate_source p.name p.source) [ some e ↦ some e | none ↦ validate_modes p ]

unfoldable pub validate_plugins : ℕ → List String → List PluginConfig → Option String
unfolding validate_plugin
validate_plugins i seen [] = none
validate_plugins i seen (p ∷ ps) = elim (validate_plugin i seen p) [
  | some e ↦ some e
  | none ↦ validate_plugins (suc i) (p.name ∷ seen) ps
]

-- The error, or `none` for nil.
unfoldable pub validate : Config → Option String
unfolding validate_plugins
validate c =
    if c.server.listen == ""
    then some "server.listen is required"
    else validate_plugins 0 [] c.plugins

-- `os.ReadFile` and `yaml.Unmarshal` are arguments.
unfoldable pub load :
    (String → Result String String)
    → (String → Result String Config)
    → String
    → Result String Config
unfolding apply_defaults validate
load read_file unmarshal path = elim (read_file path) [
  | err e ↦ err ("read config " <> path <> ": " <> e)
  | ok b ↦ elim (unmarshal b) [
    | err e ↦ err ("parse config " <> path <> ": " <> e)
    | ok cfg ↦ elim (validate (apply_defaults cfg)) [
      | some e ↦ err e
      | none ↦ ok (apply_defaults cfg)
    ]
  ]
]
