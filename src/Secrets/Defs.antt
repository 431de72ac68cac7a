-- ===== src/Secrets/Defs.antt =====
-- The operations of internal/secrets/provider.go. A secret provider is a function from a name; the
-- one in the repository reads the environment.
use vulpes_core.Base.{
  String, ◌≡◌, refl, ◌<>◌, Bool, false, ◌||◌, ◌&&◌, List, [], ◌∷◌, ◌==◌, Option, none, some, leb,
  eqb, if◌then◌else◌, Result, ok, err,
}
use Prim.Native.Char.{Char, code}
use vulpes_core.Base.Dict.{Dict, lookup, insert}
use vulpes_core.Base.Text.{strip_prefix}
use vulpes_core.Base.Value.{
  Value, Items, Fields, null, bool, int, float, str, arr, obj, no_items, item, no_fields, entry,
}

abbrev pub SecretProvider : Type 0
SecretProvider = String → Result String String

-- `EnvProvider`: `os.LookupEnv` is the lookup in the environment.
unfoldable pub env_provider : Bool → Dict String → SecretProvider
env_provider enabled env name =
    if enabled
    then (elim (lookup name env) [
      | none ↦ err ("secret " <> name <> " not found in environment")
      | some v ↦ ok v
    ])
    else err "environment secrets disabled"

-- `unicode.IsSpace`
abbrev is_space : Char → Bool
is_space c =
    let n = code c in
    (leb 9 n && leb n 13)
    || eqb n 32
    || eqb n 133
    || eqb n 160
    || eqb n 5760
    || (leb 8192 n && leb n 8202)
    || eqb n 8232
    || eqb n 8233
    || eqb n 8239
    || eqb n 8287
    || eqb n 12288

unfoldable pub trim_left : String → String
trim_left String.[] = String.[]
trim_left (String.◌∷◌ c s) = if is_space c then trim_left s else String.◌∷◌ c s

-- A text whose trailing space is dropped: a space goes where nothing is left behind it.
unfoldable pub trim_right : String → String
trim_right String.[] = String.[]
trim_right (String.◌∷◌ c s) =
    let rest = trim_right s in if is_space c && rest == "" then String.[] else String.◌∷◌ c rest

-- `strings.TrimSpace`
unfoldable pub trim_space : String → String
unfolding trim_left trim_right
trim_space s = trim_right (trim_left s)

-- `[A-Za-z0-9_./-]`
abbrev pub is_name_char : Char → Bool
is_name_char c =
    let n = code c in
    (leb b'A' n && leb n b'Z')
    || (leb b'a' n && leb n b'z')
    || (leb b'0' n && leb n b'9')
    || eqb n b'_'
    || eqb n b'.'
    || eqb n b'/'
    || eqb n b'-'

abbrev pub prepend : Char → Option String → Option String
prepend c none = none
prepend c (some s) = some (String.◌∷◌ c s)

-- The characters of a name up to a closing brace that ends the text.
unfoldable pub name_to_brace : String → Option String
name_to_brace String.[] = none
name_to_brace (String.◌∷◌ c s) =
    let rest = name_to_brace s in
    if is_name_char c
    then prepend c rest
    else if eqb (code c) b'}' && s == ""
    then some ""
    else none

abbrev pub nonempty : Option String → Option String
nonempty none = none
nonempty (some name) = if name == "" then none else some name

abbrev pub name_behind : Option String → Option String
name_behind none = none
name_behind (some rest) = nonempty (name_to_brace rest)

-- The name in `${secret:NAME}`.
unfoldable pub is_secret_ref : String → Option String
unfolding name_to_brace strip_prefix
is_secret_ref s = name_behind (strip_prefix "${secret:" s)

abbrev pub permits : List String → String → Bool
permits [] name = false
permits (x ∷ xs) name = x == name || permits xs name

module _ (permitted : List String) (p : SecretProvider) where
  -- A text with the secrets so far.
  unfoldable pub resolve_text : String → Dict String → Result String (Value × Dict String)
  unfolding is_secret_ref trim_space
  resolve_text x secrets = elim (is_secret_ref (trim_space x)) [
    | none ↦ ok (str x, secrets)
    | some name ↦
        if permits permitted name
        then (elim (p name) [ err e ↦ err e | ok v ↦ ok (str v, insert name v secrets) ])
        else err ("secret " <> name <> " not permitted for plugin")
  ]

  unfoldable mutual
    unfolding resolve_text

    pub resolve_value : Value → Dict String → Result String (Value × Dict String)
    resolve_value null secrets = ok (null, secrets)
    resolve_value (bool b) secrets = ok (bool b, secrets)
    resolve_value (int n) secrets = ok (int n, secrets)
    resolve_value (float x) secrets = ok (float x, secrets)
    resolve_value (str x) secrets = resolve_text x secrets
    resolve_value (arr xs) secrets = elim (resolve_items xs secrets) [
      | err e ↦ err e
      | ok out ↦ ok (arr out.0, out.1)
    ]
    resolve_value (obj fs) secrets = elim (resolve_fields fs secrets) [
      | err e ↦ err e
      | ok out ↦ ok (obj out.0, out.1)
    ]

    -- The loop over a slice.
    pub resolve_items : Items → Dict String → Result String (Items × Dict String)
    resolve_items no_items secrets = ok (no_items, secrets)
    resolve_items (item x xs) secrets = elim (resolve_value x secrets) [
      | err e ↦ err e
      | ok first ↦ elim (resolve_items xs first.1) [
        | err e ↦ err e
        | ok rest ↦ ok (item first.0 rest.0, rest.1)
      ]
    ]

    -- The loop over a map, in the order in which it is visited.
    pub resolve_fields : Fields → Dict String → Result String (Fields × Dict String)
    resolve_fields no_fields secrets = ok (no_fields, secrets)
    resolve_fields (entry k x fs) secrets = elim (resolve_value x secrets) [
      | err e ↦ err e
      | ok first ↦ elim (resolve_fields fs first.1) [
        | err e ↦ err e
        | ok rest ↦ ok (entry k first.0 rest.0, rest.1)
      ]
    ]

  -- `ResolvePluginSecrets`: the configuration without its references, and the secrets it named.
  unfoldable pub resolve_plugin_secrets : Fields → Result String (Fields × Dict String)
  unfolding resolve_fields
  resolve_plugin_secrets config = resolve_fields config []

trimmed_ref : is_secret_ref (trim_space " ${secret:A/b-1} ") ≡ some "A/b-1"
unfolding is_secret_ref trim_space
trimmed_ref = refl

not_a_ref : is_secret_ref "${secret:A b}" ≡ none
unfolding is_secret_ref
not_a_ref = refl
