-- ===== src/Manager/Started.antt =====
-- Which plugins the manager has after Start, also where it fails.
use vulpes_core.Base.{
  ℕ, ◌≡◌, ◌⊎◌, inl, inr, refl, ap, false, List, [], ◌∷◌, ◌++◌, Option, none, some, ok, err,
  Result-cases, Bool-cases, All, ◌==◌, arith, eq_refl,
}
use vulpes_core.Base.Dict.{lookup, lookup-insert}
use vulpes_core.Capabilities.{Error}
use vulpes_core.Config.{PluginConfig}
use vulpes_core.Plugins.Registry.{Metadata}
use vulpes_core.Manager.Process.{Process}
use vulpes_core.Manager.Start.{Env, Manager, refused, start_plugin, record_plugin, start}

module _ {W : Type 0} (env : Env W) where
  -- Plugins that were started one after the other, each in the world that the one before left.
  pub data Started : List PluginConfig → Manager W → W → Manager W → W → Type 0 where
    nothing : (m : Manager W) (w : W) → Started [] m w m w
    plugin :
        (pc : PluginConfig) (pcs : List PluginConfig) (m m' : Manager W) (w w1 w' : W)
        (got : Process × ℕ × Metadata)
        → start_plugin env pc w ≡ (ok got, w1)
        → Started pcs (record_plugin env pc got m) w1 m' w'
        → Started (pc ∷ pcs) m w m' w'

  -- The plugin at which Start failed, and those in front of it.
  pub record FailedAt (pcs : List PluginConfig) (m : Manager W) (w : W) (e : Error) (m' : Manager W)
      (w' : W) : Type 0 where
    pub before : List PluginConfig
    pub failed : PluginConfig
    pub after : List PluginConfig
    pub split : pcs ≡ before ++ failed ∷ after
    pub between : W
    pub started : Started before m w m' between
    pub error : start_plugin env failed between ≡ (err e, w')

  -- How Start ends.
  abbrev pub Outcome : List PluginConfig → Manager W → W → Option Error × Manager W × W → Type 0
  Outcome pcs m w (e, m', w') =
      ((e ≡ none) × Started pcs m w m' w') ⊎ ((x : Error) × (e ≡ some x) × FailedAt pcs m w x m' w')

  Outcome-cons :
      (pc : PluginConfig) (pcs : List PluginConfig) (m : Manager W) (w w1 : W)
      (got : Process × ℕ × Metadata) (out : Option Error × Manager W × W)
      → start_plugin env pc w ≡ (ok got, w1)
      → Outcome pcs (record_plugin env pc got m) w1 out
      → Outcome (pc ∷ pcs) m w out
  Outcome-cons pc pcs m w w1 got (o, m', w') h (inl (e, s)) =
      inl (e, plugin pc pcs m m' w w1 w' got h s)
  Outcome-cons pc pcs m w w1 got (o, m', w') h (inr (x, e, f)) = inr (
    x,
    e,
    record {
      before = pc ∷ f.before;
      failed = f.failed;
      after = f.after;
      split = ap (λ l. pc ∷ l) f.split;
      between = f.between;
      started = plugin pc f.before m m' w w1 f.between got h f.started;
      error = f.error;
    },
  )

  -- Start either starts and records every plugin of the configuration, in its order; or it fails
  -- with the error of one plugin, after it has started and recorded all those in front of it.
  start_lem :
      (pcs : List PluginConfig) (m : Manager W) (w : W) → Outcome pcs m w (start env pcs m w)
  unfolding start
  start_lem [] m w = inl (refl, nothing m w)
  start_lem (pc ∷ pcs) m w =
      let w1 = (start_plugin env pc w).1 in
      elim (Result-cases (start_plugin env pc w).0) [
        | inl (x, bad) ↦
            rw (bad, start)
              (inr (
                x,
                refl,
                record {
                  before = [];
                  failed = pc;
                  after = pcs;
                  split = refl;
                  between = w;
                  started = nothing m w;
                  error = ap (λ r. (r, w1)) bad;
                },
              ))
        | inr (got, good) ↦
            rw (good, start)
              (Outcome-cons pc pcs m w w1 got (start env pcs (record_plugin env pc got m) w1)
                (ap (λ r. (r, w1)) good) (start_lem pcs (record_plugin env pc got m) w1))
      ]

  -- What the manager has of a plugin: its process and its client, under its name.
  pub record HasPlugin (m : Manager W) (pc : PluginConfig) : Type 0 where
    pub process : Process
    pub has_process : lookup pc.name m.processes ≡ some process
    pub client : ℕ
    pub has_client : lookup pc.name m.clients ≡ some client
    pub allowed : refused pc ≡ false

  HasPlugin-record_plugin :
      (pc other : PluginConfig) (got : Process × ℕ × Metadata) (m : Manager W)
      → HasPlugin m pc
      → HasPlugin (record_plugin env other got m) pc
  unfolding record_plugin
  HasPlugin-record_plugin pc other (p, client, md) m h = elim (Bool-cases (other.name == pc.name)) [
    | inl same ↦ record {
      process = p;
      has_process = ground (arith, lookup-insert pc.name other.name p m.processes, same);
      client = client;
      has_client = ground (arith, lookup-insert pc.name other.name client m.clients, same);
      allowed = h.allowed;
    }
    | inr different ↦ record {
      process = h.process;
      has_process =
          ground (arith, lookup-insert pc.name other.name p m.processes, different, h.has_process);
      client = h.client;
      has_client =
          ground
            (arith, lookup-insert pc.name other.name client m.clients, different, h.has_client);
      allowed = h.allowed;
    }
  ]

  HasPlugin-Started :
      (pc : PluginConfig) (pcs : List PluginConfig) (m m' : Manager W) (w w' : W)
      → Started pcs m w m' w'
      → HasPlugin m pc
      → HasPlugin m' pc
  HasPlugin-Started pc _ _ _ _ _ (nothing m w) h = h
  HasPlugin-Started pc _ _ _ _ _ (plugin other pcs m m' w w1 w' got e s) h =
      HasPlugin-Started pc pcs (record_plugin env other got m) m' w1 w' s
        (HasPlugin-record_plugin pc other got m h)

  allowed_of :
      (pc : PluginConfig) (w w1 : W) (got : Process × ℕ × Metadata)
      → start_plugin env pc w ≡ (ok got, w1)
      → refused pc ≡ false
  unfolding start_plugin
  allowed_of pc w w1 got h = elim (Bool-cases (refused pc)) [
    | inr e ↦ e
    | inl e ↦ ground (arith, h, e)
  ]

  HasPlugin-new :
      (pc : PluginConfig) (got : Process × ℕ × Metadata) (m : Manager W)
      → refused pc ≡ false
      → HasPlugin (record_plugin env pc got m) pc
  unfolding record_plugin
  HasPlugin-new pc (p, client, md) m e = record {
    process = p;
    has_process = ground (arith, lookup-insert pc.name pc.name p m.processes, eq_refl pc.name);
    client = client;
    has_client = ground (arith, lookup-insert pc.name pc.name client m.clients, eq_refl pc.name);
    allowed = e;
  }

  All-HasPlugin :
      (pcs : List PluginConfig) (m m' : Manager W) (w w' : W)
      → Started pcs m w m' w'
      → All (HasPlugin m') pcs
  All-HasPlugin _ _ _ _ _ (nothing m w) = tt
  All-HasPlugin _ _ _ _ _ (plugin pc pcs m m' w w1 w' got e s) = (
    HasPlugin-Started pc pcs (record_plugin env pc got m) m' w1 w' s
        (HasPlugin-new pc got m (allowed_of pc w w1 got e)),
    All-HasPlugin pcs (record_plugin env pc got m) m' w1 w' s,
  )

  -- If Start gives no error, the manager has a process and a client of every plugin of the
  -- configuration, and none of them is an untrusted plugin without a sandbox.
  pub start-HasPlugin :
      (pcs : List PluginConfig) (m : Manager W) (w : W)
      → (start env pcs m w).0 ≡ none
      → All (HasPlugin (start env pcs m w).1) pcs
  start-HasPlugin pcs m w h = elim (start_lem pcs m w) [
    | inl (e, s) ↦ All-HasPlugin pcs m (start env pcs m w).1 w (start env pcs m w).2 s
    | inr (x, e, f) ↦ ground (arith, h, e)
  ]
