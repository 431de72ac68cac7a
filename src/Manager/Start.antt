-- ===== src/Manager/Start.antt =====
-- internal/plugins/manager.go: the plugins of the configuration, from their sources to the registry.
use vulpes_core.Base.{
  ℕ, map, String, ◌<>◌, Bool, List, [], ◌∷◌, ◌==◌, ◌&&◌, Option, none, some, Result, ok, err, not,
  if◌then◌else◌,
}
use vulpes_core.Base.Dict.{Dict, insert}
use vulpes_core.Base.Text.{quote}
use vulpes_core.Capabilities.{Error, plain, wrap, join, error_text}
use vulpes_core.Config.{PluginConfig}
use vulpes_core.Secrets.{SecretProvider, resolve_plugin_secrets}
use vulpes_core.Plugins.Registry.{Registry, Metadata, new_registry}
use vulpes_core.Plugins.Register.{register_client}
use vulpes_core.Plugins.Sources.{
  ResolvedPlugin, Host, Downloader, resolve_filesystem, resolve_github, after, given,
}
use vulpes_core.Rpc.Wire.{Transport}
use vulpes_core.Rpc.Dialed.{close_client}
use vulpes_core.Rpc.Methods.{
  Reader, plugin_client, do_handshake, do_get_metadata, do_get_config_schema, do_configure,
}
use vulpes_core.Manager.Schema.{SchemaLibrary, validate_json_schema}
use vulpes_core.Manager.Process.{Os, Process, new_process, start_process, stop_process}

-- What the manager works with: the hosts of the sources and of the processes, and the clients, each
-- by the number of its object.
pub record Env (W : Type 0) : Type 1 where
  pub host : Host W
  pub download : Downloader W
  pub os : Os W
  -- `os.UserHomeDir`
  pub user_home : W → Result Error String
  -- the deadline of Start's context, from now on, and a bound on the rounds of its wait
  pub deadline : W → ℕ
  pub rounds : ℕ
  -- `DialRPCPlugin`
  pub dial_plugin : String → String → W → Result Error ℕ × W
  pub transport : ℕ → Transport W
  pub reader : Reader W
  pub chunks : ℕ
  pub secrets : SecretProvider
  -- encoding/json and the JSON schema library
  pub schemas : SchemaLibrary

pub record Manager (W : Type 0) : Type 0 where
  pub registry : Registry W
  pub processes : Dict Process
  pub clients : Dict ℕ

-- `NewManager`
abbrev pub new_manager : {W : Type 0} → Manager W
new_manager = record { registry = new_registry; processes = []; clients = [] }

-- `pc.Trust == "untrusted" && !pc.Sandbox.Enabled`
abbrev pub refused : PluginConfig → Bool
refused pc = pc.trust == "untrusted" && not pc.sandbox.enabled

-- An error with a text in front.
abbrev pub label : {W A : Type 0} → String → Result Error A × W → Result Error A × W
label text (ok a, w) = (ok a, w)
label text (err e, w) = (err (wrap text e ""), w)

abbrev pub label_error : {W : Type 0} → String → Option Error × W → Option Error × W
label_error text (none, w) = (none, w)
label_error text (some e, w) = (some (wrap text e ""), w)

-- The checksum of the source, or that of the plugin.
abbrev pub checksum_of : PluginConfig → String
checksum_of pc = if pc.source.checksum == "" then pc.checksum else pc.source.checksum

-- A result of ResolvePluginSecrets, whose errors are texts.
abbrev pub texts : {A : Type 0} → Result String A → Result Error A
texts (ok a) = ok a
texts (err text) = err (plain text)

module _ {W : Type 0} (env : Env W) where
  abbrev home_or : Result Error String → String
  home_or (ok home) = home
  home_or (err e) = env.os.temp_dir

  -- `resolveSource`
  unfoldable pub resolve_source : PluginConfig → W → Result Error ResolvedPlugin × W
  unfolding resolve_filesystem resolve_github
  resolve_source pc w =
      if pc.source.type == "filesystem"
      then (resolve_filesystem env.host pc.source.path (checksum_of pc) w, w)
      else if pc.source.type == "github"
      then resolve_github env.host
          (record {
            repository = pc.source.repository;
            release = pc.source.release;
            asset = pc.source.asset;
            binary = pc.source.binary;
            checksum = checksum_of pc;
          })
          (home_or (env.user_home w)) env.download w
      else (err (plain ("unsupported plugin source " <> quote pc.source.type)), w)

  -- A process that has a socket, or the error.
  abbrev pub running : String → Option Error × Process × W → Result Error Process × W
  running name (none, p, w) = (ok p, w)
  running name (some e, p, w) = (err (wrap ("plugin_start_failed " <> name <> ": ") e ""), w)

  -- From the source to the client.
  unfoldable pub launch : PluginConfig → W → Result Error (Process × ℕ) × W
  unfolding resolve_source start_process
  launch pc w = given (resolve_source pc w) (λ plugin w1.
      given
        (running pc.name (
          start_process env.os (some (env.deadline w1)) env.rounds (new_process pc.name plugin.path)
            w1))
        (λ p w2.
          given (label ("dial plugin " <> pc.name <> ": ") (env.dial_plugin p.socket pc.name w2))
            (λ client w3. (ok (p, client), w3))))

  -- From the metadata to the configured plugin.
  unfoldable pub set_up : PluginConfig → Transport W → Metadata → W → Result Error Metadata × W
  unfolding do_get_config_schema resolve_plugin_secrets validate_json_schema do_configure
  set_up pc t md w =
      given (label ("plugin config schema " <> pc.name <> ": ") (do_get_config_schema t w))
        (λ schema w1.
          given
            (label ("plugin " <> pc.name <> " secret scoping: ") (
              texts (resolve_plugin_secrets md.permissions.secret_names env.secrets pc.config),
              w1,
            ))
            (λ (config, secrets) w2.
              after
                (label_error ("plugin_config_invalid " <> pc.name <> ": ")
                  (validate_json_schema env.schemas schema config, w2))
                (λ w3.
                  after
                    (label_error ("plugin configure " <> pc.name <> ": ")
                      (do_configure t pc.name (env.schemas.marshal config) secrets w3))
                    (λ w4. (ok md, w4)))))

  -- From the handshake to the configured plugin.
  unfoldable pub introduce : PluginConfig → Transport W → W → Result Error Metadata × W
  unfolding do_handshake do_get_metadata set_up
  introduce pc t w =
      after (label_error ("plugin_handshake_failed " <> pc.name <> ": ") (do_handshake t w)) (λ w1.
        given (label ("plugin metadata " <> pc.name <> ": ") (do_get_metadata t w1))
          (λ md w2. set_up pc t md w2))

  -- A round of Start up to the registration: the process, the client and the metadata.
  unfoldable pub start_plugin : PluginConfig → W → Result Error (Process × ℕ × Metadata) × W
  unfolding launch introduce
  start_plugin pc w =
      if refused pc
      then (err (plain ("plugin " <> pc.name <> " refused: untrusted plugins require sandbox")), w)
      else given (launch pc w) (λ (p, client) w1.
        given (introduce pc (env.transport client) w1) (λ md w2. (ok (p, client, md), w2)))

  -- The end of the round.
  unfoldable pub record_plugin : PluginConfig → Process × ℕ × Metadata → Manager W → Manager W
  unfolding register_client plugin_client
  record_plugin pc (p, client, md) m = record {
    registry =
        register_client pc (plugin_client (env.transport client) env.reader env.chunks) md
          m.registry;
    processes = insert pc.name p m.processes;
    clients = insert pc.name client m.clients;
  }

  -- `Start`
  unfoldable pub start : List PluginConfig → Manager W → W → Option Error × Manager W × W
  unfolding start_plugin record_plugin
  start [] m w = (none, m, w)
  start (pc ∷ pcs) m w =
      let (started, w') = start_plugin pc w in
      elim started [
        | err e ↦ (some e, m, w')
        | ok plugin ↦ start pcs (record_plugin pc plugin m) w'
      ]

  -- The loop over the clients, whose errors are dropped. Go takes the entries of a map in any order,
  -- here it is that of the list.
  unfoldable pub close_clients : Dict ℕ → W → W
  unfolding close_client
  close_clients [] w = w
  close_clients ((name, client) ∷ clients) w =
      close_clients clients (close_client (env.transport client) w)

  -- The loop over the processes, with their errors.
  unfoldable pub stop_processes : Dict Process → W → List Error × W
  unfolding stop_process
  stop_processes [] w = ([], w)
  stop_processes ((name, p) ∷ processes) w =
      let (failed, w1) = stop_process env.os p w in
      let (errors, w2) = stop_processes processes w1 in
      elim failed [ some e ↦ (e ∷ errors, w2) | none ↦ (errors, w2) ]

  abbrev pub stop_error : List Error × W → Option Error × W
  stop_error ([], w) = (none, w)
  stop_error (e ∷ errors, w) =
      (some (plain ("stopping plugins: [" <> join " " (map error_text (e ∷ errors)) <> "]")), w)

  -- `Stop`
  unfoldable pub stop : Manager W → W → Option Error × W
  unfolding close_clients stop_processes join error_text
  stop m w = stop_error (stop_processes m.processes (close_clients m.clients w))
