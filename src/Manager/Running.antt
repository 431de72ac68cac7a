-- ===== src/Manager/Running.antt =====
-- What Start has done with a plugin that it started.
use vulpes_core.Base.{
  ℕ, ◌≡◌, refl, sym, ◌∙◌, ◌<>◌, ap, false, Option, none, some, Result, ok, err, inl, inr,
  Bool-cases, arith, String,
}
use vulpes_core.Base.Dict.{Dict}
use vulpes_core.Base.Value.{Fields}
use vulpes_core.Capabilities.{Error}
use vulpes_core.Config.{PluginConfig}
use vulpes_core.Secrets.{resolve_plugin_secrets}
use vulpes_core.Plugins.Registry.{Metadata}
use vulpes_core.Plugins.Sources.{after, given}
use vulpes_core.Rpc.Methods.{do_handshake, do_get_metadata, do_get_config_schema, do_configure}
use vulpes_core.Manager.Schema.{validate_json_schema}
use vulpes_core.Manager.Process.{Process, new_process, start_process}
use vulpes_core.Manager.Start.{
  Env, refused, label, label_error, texts, resolve_source, running, launch, set_up, introduce,
  start_plugin,
}

module _ {W A B : Type 0} where
  -- If a chain of calls succeeds, so does its first call, and the rest from there.
  given-ok :
      (out : Result Error A × W) (f : A → W → Result Error B × W) {b : B} {w' : W}
      → given out f ≡ (ok b, w')
      → (a : A) × (v : W) × (out ≡ (ok a, v)) × (f a v ≡ (ok b, w'))
  given-ok (ok a, v) f h = (a, v, refl, h)
  given-ok (err e, v) f h = absurd (ground (arith, ap (λ x. x.0) h))

module _ {W B : Type 0} where
  after-ok :
      (out : Option Error × W) (f : W → Result Error B × W) {b : B} {w' : W}
      → after out f ≡ (ok b, w')
      → (v : W) × (out ≡ (none, v)) × (f v ≡ (ok b, w'))
  after-ok (none, v) f h = (v, refl, h)
  after-ok (some e, v) f h = absurd (ground (arith, ap (λ x. x.0) h))

  label-ok :
      (text : String) (out : Result Error B × W) {b : B} {w' : W}
      → label text out ≡ (ok b, w')
      → out ≡ (ok b, w')
  label-ok text (ok b, w) h = h
  label-ok text (err e, w) h = absurd (ground (arith, ap (λ x. x.0) h))

module _ {W : Type 0} where
  label_error-none :
      (text : String) (out : Option Error × W) {w' : W}
      → label_error text out ≡ (none, w')
      → out ≡ (none, w')
  label_error-none text (none, w) h = h
  label_error-none text (some e, w) h = absurd (ground (arith, ap (λ x. x.0) h))

texts-ok : {A : Type 0} (r : Result String A) {a : A} → texts r ≡ ok a → r ≡ ok a
texts-ok (ok a) h = ground (arith, h)
texts-ok (err e) h = absurd (ground (arith, h))

module _ {W : Type 0} (env : Env W) where
  -- What has been done with a plugin that runs, in this order: its socket was dialed; over this
  -- connection it did the handshake, told its metadata and the schema of its configuration, and
  -- accepted its configuration. This is the configured one with the secrets that its metadata permit,
  -- and fits the schema.
  pub record Runs (pc : PluginConfig) (process : Process) (client : ℕ) : Type 0 where
    pub allowed : refused pc ≡ false
    pub launched : W
    pub connected : W
    pub dialed : env.dial_plugin process.socket pc.name launched ≡ (ok client, connected)
    pub greeted : W
    pub handshake : do_handshake (env.transport client) connected ≡ (none, greeted)
    pub metadata : Metadata
    pub known : W
    pub told : do_get_metadata (env.transport client) greeted ≡ (ok metadata, known)
    pub schema : String
    pub informed : W
    pub schema_told : do_get_config_schema (env.transport client) known ≡ (ok schema, informed)
    pub config : Fields
    pub secrets : Dict String
    pub scoped :
        resolve_plugin_secrets metadata.permissions.secret_names env.secrets pc.config
        ≡ ok (config, secrets)
    pub fits : validate_json_schema env.schemas schema config ≡ none
    pub accepted :
        (v : W) × (do_configure
            (env.transport client)
            pc.name
            (env.schemas.marshal config)
            secrets
            informed
          ≡ (none, v))

  launch-ok :
      (pc : PluginConfig) (w w' : W) (p : Process) (c : ℕ)
      → launch env pc w ≡ (ok (p, c), w')
      → (v : W) × (env.dial_plugin p.socket pc.name v ≡ (ok c, w'))
  unfolding launch
  launch-ok pc w w' p c h =
      let (plugin, v, e, h1) = given-ok (resolve_source env pc w) _ h in
      let (p1, v1, e1, h2) =
        given-ok
          (running env pc.name (
            start_process env.os (some (env.deadline v)) env.rounds
              (new_process pc.name plugin.path) v))
          _ h1 in
      let (c1, v2, e2, same) =
        given-ok (label ("dial plugin " <> pc.name <> ": ") (env.dial_plugin p1.socket pc.name v1))
          _ h2 in
      (v1, ground (arith, same, label-ok _ _ e2))

  -- From the handshake on.
  Runs-introduce :
      (pc : PluginConfig) (p : Process) (c : ℕ) (v w w' : W) (md : Metadata)
      → refused pc ≡ false
      → env.dial_plugin p.socket pc.name v ≡ (ok c, w)
      → introduce env pc (env.transport c) w ≡ (ok md, w')
      → Runs pc p c
  unfolding introduce set_up
  Runs-introduce pc p c v w w' md fine dialed h =
      let t = env.transport c in
      let (greeted, e, h1) =
        after-ok (label_error ("plugin_handshake_failed " <> pc.name <> ": ") (do_handshake t w)) _
          h in
      let (metadata, known, e1, h2) =
        given-ok (label ("plugin metadata " <> pc.name <> ": ") (do_get_metadata t greeted)) _ h1 in
      let (schema, informed, e2, h3) =
        given-ok (label ("plugin config schema " <> pc.name <> ": ") (do_get_config_schema t known))
          _ h2 in
      let secrets_of =
        resolve_plugin_secrets metadata.permissions.secret_names env.secrets pc.config in
      let (resolved, v1, e3, h4) =
        given-ok (label ("plugin " <> pc.name <> " secret scoping: ") (texts secrets_of, informed))
          _ h3 in
      let scoping = label-ok _ (texts secrets_of, informed) e3 in
      let (v2, e4, h5) =
        after-ok
          (label_error ("plugin_config_invalid " <> pc.name <> ": ")
            (validate_json_schema env.schemas schema resolved.0, v1))
          _ h4 in
      let valid = label_error-none _ (validate_json_schema env.schemas schema resolved.0, v1) e4 in
      let (v3, e5, h6) =
        after-ok
          (label_error ("plugin configure " <> pc.name <> ": ")
            (do_configure t pc.name (env.schemas.marshal resolved.0) resolved.1 v2))
          _ h5 in
      let here : v2 ≡ informed = sym (ap (λ x. x.1) valid) ∙ sym (ap (λ x. x.1) scoping) in
      record {
        allowed = fine;
        launched = v;
        connected = w;
        dialed = dialed;
        greeted = greeted;
        handshake = label_error-none _ _ e;
        metadata = metadata;
        known = known;
        told = label-ok _ _ e1;
        schema = schema;
        informed = informed;
        schema_told = label-ok _ _ e2;
        config = resolved.0;
        secrets = resolved.1;
        scoped = texts-ok secrets_of (ap (λ x. x.0) scoping);
        fits = ap (λ x. x.0) valid;
        accepted = (
          v3,
          ap (λ x. do_configure t pc.name (env.schemas.marshal resolved.0) resolved.1 x) (sym here)
              ∙ label_error-none _ _ e5,
        );
      }

  pub Runs-start_plugin :
      (pc : PluginConfig) (w w' : W) (process : Process) (client : ℕ) (md : Metadata)
      → start_plugin env pc w ≡ (ok (process, client, md), w')
      → Runs pc process client
  unfolding start_plugin
  Runs-start_plugin pc w w' process client md h = elim (Bool-cases (refused pc)) [
    | inl bad ↦ absurd (ground (arith, ap (λ x. x.0) h, bad))
    | inr fine ↦
        let h' : given (launch env pc w) (λ (p, c) w1.
          given (introduce env pc (env.transport c) w1) (λ m w2. (ok (p, c, m), w2)))
            ≡ (ok (process, client, md), w') =
          rw fine at h in
        let (pair, w1, launched, rest) = given-ok (launch env pc w) _ h' in
        let (m, w2, introduced, same) =
          given-ok (introduce env pc (env.transport pair.1) w1) _ rest in
        let (v, dialed) = launch-ok pc w w1 pair.0 pair.1 launched in
        let runs = Runs-introduce pc pair.0 pair.1 v w1 w2 m fine dialed introduced in
        let same_process : pair.0 ≡ process = ground (arith, same) in
        let same_client : pair.1 ≡ client = ground (arith, same) in
        rw (← same_process, ← same_client) runs
  ]
