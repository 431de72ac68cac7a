-- ===== src/Manager/Settled.antt =====
-- Which plugins the manager has after Start of a valid configuration, also where it fails.
use vulpes_core.Base.{ℕ, ◌≡◌, ◌↔◌, String, List, [], ◌++◌, Option, none, some, All}
use vulpes_core.Base.Dict.{lookup}
use vulpes_core.Capabilities.{Error}
use vulpes_core.Config.{PluginConfig}
use vulpes_core.Manager.Process.{Process}
use vulpes_core.Manager.Start.{Env, Manager}
use vulpes_core.Manager.Running.{Runs}

module _ {W : Type 0} (env : Env W) where
  -- The manager has the process and the client of the plugin, which runs.
  pub record Stands (m : Manager W) (pc : PluginConfig) : Type 0 where
    pub process : Process
    pub has_process : lookup pc.name m.processes ≡ some process
    pub client : ℕ
    pub has_client : lookup pc.name m.clients ≡ some client
    pub runs : Runs env pc process client

  -- The manager has neither.
  abbrev pub Lacks : Manager W → PluginConfig → Type 0
  Lacks m pc = (lookup pc.name m.processes ≡ none) × (lookup pc.name m.clients ≡ none)

  -- The plugins that were started, and those from the one that failed on.
  pub record Settled (pcs : List PluginConfig) (error : Option Error) (m : Manager W) : Type 0 where
    pub before : List PluginConfig
    pub from_failed : List PluginConfig
    pub split : pcs ≡ before ++ from_failed
    pub stand : All (Stands m) before
    pub absent : All (Lacks m) from_failed
    pub complete : (error ≡ none) ↔ (from_failed ≡ [])

  -- What the two managers have under a name is the same.
  abbrev Same : String → Manager W → Manager W → Type 0
  Same name m m' =
      (lookup name m'.processes ≡ lookup name m.processes)
      × (lookup name m'.clients ≡ lookup name m.clients)
