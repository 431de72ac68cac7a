-- ===== src/Config/Valid.antt =====
-- Which configurations `Validate` and `Load` accept.
use vulpes_core.Base.{
  ℕ, suc, String, ◌≡◌, ◌≢◌, ◌↔◌, ◌⊎◌, inl, inr, refl, ap, Bool, true, false, List, [], ◌∷◌, arith,
  ◌==◌, eq_iff, Option, none, some, ◌||◌, if◌then◌else◌, All, Option-cases, Bool-cases,
}
use vulpes_core.Config.Types.{Config, PluginConfig, PluginSource}
use vulpes_core.Config.Validate.{
  contains, validate_source, validate_modes, validate_plugin, validate_plugins, validate,
}

-- A source that says where the plugin is.
abbrev pub ValidSource : PluginSource → Type 0
ValidSource s =
    ((s.type ≡ "filesystem") × (s.path ≢ ""))
    ⊎ ((s.type ≡ "github")
        × (s.repository ≢ "")
        × (s.release ≢ "")
        × (s.asset ≢ "")
        × (s.binary ≢ ""))

abbrev pub ValidModes : PluginConfig → Type 0
ValidModes p =
    ((p.fail_mode ≡ "open") ⊎ (p.fail_mode ≡ "closed"))
    × ((p.trust ≡ "trusted") ⊎ (p.trust ≡ "community") ⊎ (p.trust ≡ "untrusted"))

abbrev pub ValidPlugin : PluginConfig → Type 0
ValidPlugin p = (p.name ≢ "") × ValidSource p.source × ValidModes p

abbrev pub DistinctNames : List PluginConfig → Type 0
DistinctNames [] = Unit
DistinctNames (p ∷ ps) = All (λ q. p.name ≢ q.name) ps × DistinctNames ps

-- Every plugin is named, has a source of a known kind with what that kind needs, and has a known
-- fail mode and trust; no two plugins share a name.
abbrev pub Valid : Config → Type 0
Valid c = (c.server.listen ≢ "") × All ValidPlugin c.plugins × DistinctNames c.plugins

if-none :
    (b : Bool) (e : String) (o : Option String)
    → ((if b then some e else o) ≡ none) ↔ ((b ≡ false) × (o ≡ none))
if-none true e o = ground arith
if-none false e o = ground arith

filesystem-other :
    (t : String) → t ≡ "filesystem" → ((t == "") ≡ false) × ((t == "filesystem") ≡ true)
filesystem-other t h = (ap (λ x. x == "") h, ap (λ x. x == "filesystem") h)

github-other :
    (t : String)
    → t ≡ "github"
    → ((t == "") ≡ false) × ((t == "filesystem") ≡ false) × ((t == "github") ≡ true)
github-other t h = (ap (λ x. x == "") h, ap (λ x. x == "filesystem") h, ap (λ x. x == "github") h)

unset-other :
    (t : String)
    → t ≡ ""
    → ((t == "") ≡ true) × ((t == "filesystem") ≡ false) × ((t == "github") ≡ false)
unset-other t h = (ap (λ x. x == "") h, ap (λ x. x == "filesystem") h, ap (λ x. x == "github") h)

-- The tests of the four texts that a GitHub source needs.
any_unset_iff :
    (r l a b : String)
    → ((r == "" || l == "" || a == "" || b == "") ≡ false)
      ↔ ((r ≢ "") × (l ≢ "") × (a ≢ "") × (b ≢ ""))
any_unset_iff r l a b = ground (arith, eq_iff r "", eq_iff l "", eq_iff a "", eq_iff b "")

validate_source_iff :
    (name : String) (s : PluginSource) → (validate_source name s ≡ none) ↔ ValidSource s
unfolding validate_source
validate_source_iff name s =
    let unset = any_unset_iff s.repository s.release s.asset s.binary in
    let set = eq_iff s.path "" in
    let no_kind = eq_iff s.type "" in
    let file_kind = eq_iff s.type "filesystem" in
    let git_kind = eq_iff s.type "github" in
    let when_file = filesystem-other s.type in
    let when_git = github-other s.type in
    let when_unset = unset-other s.type in
    elim (Bool-cases (s.type == "")) [
      | inl e ↦ ground (arith, unset, set)
      | inr e ↦ elim (Bool-cases (s.type == "filesystem")) [
        | inl f ↦ ground (arith, unset, set)
        | inr f ↦ elim (Bool-cases (s.type == "github")) [
          | inl g ↦ ground (arith, unset, set)
          | inr g ↦ ground (arith, unset, set)
        ]
      ]
    ]

validate_modes_iff : (p : PluginConfig) → (validate_modes p ≡ none) ↔ ValidModes p
unfolding validate_modes
validate_modes_iff p = ground (
  arith,
  eq_iff p.fail_mode "open",
  eq_iff p.fail_mode "closed",
  eq_iff p.trust "trusted",
  eq_iff p.trust "community",
  eq_iff p.trust "untrusted",
)

unset_iff : (s : String) → ((s == "") ≡ false) ↔ (s ≢ "")
unset_iff s = ground (arith, eq_iff s "")

-- Two tests and two checks in a row find nothing.
checks-none :
    (b c : Bool) (e f : String) (o o' : Option String)
    → ((if b then some e else if c then some f else elim o [ some m ↦ some m | none ↦ o' ]) ≡ none)
      ↔ ((b ≡ false) × (c ≡ false) × (o ≡ none) × (o' ≡ none))
checks-none true c e f o o' = ground arith
checks-none false true e f o o' = ground arith
checks-none false false e f none o' = ground arith
checks-none false false e f (some m) o' = ground arith

abbrev NotSeen : List String → PluginConfig → Type 0
NotSeen seen p = contains p.name seen ≡ false

validate_plugin_iff :
    (i : ℕ) (seen : List String) (p : PluginConfig)
    → (validate_plugin i seen p ≡ none) ↔ (NotSeen seen p × ValidPlugin p)
unfolding validate_plugin
validate_plugin_iff i seen p =
    let source = validate_source_iff p.name p.source in
    let modes = validate_modes_iff p in
    let all_pass =
      checks-none (p.name == "") (contains p.name seen) _ _ (validate_source p.name p.source)
        (validate_modes p) in
    (
      (λ h.
          let (named, fresh, source_ok, modes_ok) = all_pass.0 h in
          (fresh, ((unset_iff p.name).0 named, source.0 source_ok, modes.0 modes_ok))),
      (λ (fresh, (named, source_ok, modes_ok)).
          all_pass.1 ((unset_iff p.name).1 named, fresh, source.1 source_ok, modes.1 modes_ok)),
    )

NotSeen-cons :
    (n : String) (seen : List String) (ps : List PluginConfig)
    → All (NotSeen (n ∷ seen)) ps ↔ (All (λ q. n ≢ q.name) ps × All (NotSeen seen) ps)
NotSeen-cons n seen [] = ground arith
NotSeen-cons n seen (q ∷ ps) = ground (arith, NotSeen-cons n seen ps, eq_iff n q.name)

validate_plugins_iff :
    (i : ℕ) (seen : List String) (ps : List PluginConfig)
    → (validate_plugins i seen ps ≡ none)
      ↔ (All (NotSeen seen) ps × All ValidPlugin ps × DistinctNames ps)
unfolding validate_plugins
validate_plugins_iff i seen [] = ground arith
validate_plugins_iff i seen (p ∷ ps) =
    let head = validate_plugin_iff i seen p in
    let rest = validate_plugins_iff (suc i) (p.name ∷ seen) ps in
    let split = NotSeen-cons p.name seen ps in
    elim (Option-cases (validate_plugin i seen p)) [
      | inl e ↦ ground (arith, head, rest, split)
      | inr (m, e) ↦ ground (arith, head)
    ]

none-NotSeen : (ps : List PluginConfig) → All (NotSeen []) ps
none-NotSeen [] = tt
none-NotSeen (p ∷ ps) = (refl, none-NotSeen ps)

-- Validation returns no error exactly on the valid configurations.
pub validate_iff : (c : Config) → (validate c ≡ none) ↔ Valid c
unfolding validate
validate_iff c =
    ground (
      arith,
      eq_iff c.server.listen "",
      validate_plugins_iff 0 [] c.plugins,
      none-NotSeen c.plugins,
    )
