-- ===== src/Pipeline/Readiness.antt =====
-- When a compiled pipeline is ready, and what it then holds.
use vulpes_core.Base.{
  String, ◌≡◌, ◌≢◌, refl, sym, ◌∙◌, ap, inl, inr, Bool, true, false, none, List, [], ◌∷◌, ◌++◌,
  arith, ◌==◌, if◌then◌else◌, ok, Result-cases, not, ◌&&◌, ◌||◌,
}
use vulpes_core.Base.Dict.{Dict, insert}
use vulpes_core.Capabilities.{
  CapabilityType, authenticator_cap, router_cap, upstream_provider_cap, UpstreamProvider,
}
use vulpes_core.Config.{Config}
use vulpes_core.Models.{ModelRegistry}
use vulpes_core.Plugins.Registry.{
  Registry, has, has_capability, capability_of, is_some, authenticator, router, upstream_provider,
}
use vulpes_core.Queue.{Queue}
use vulpes_core.Pipeline.State.{Pipeline}
use vulpes_core.Pipeline.Compile.{compile, required, missing_if, is_empty, find_upstreams}

is_empty-insert : {V : Type 0} (k : String) (v : V) (m : Dict V) → is_empty (insert k v m) ≡ false
unfolding insert
is_empty-insert k v [] = refl
is_empty-insert k v ((j, w) ∷ m) = ground arith

-- A capability is missing unless the test holds.
abbrev pub unless : Bool → CapabilityType → List CapabilityType
unless b ct = if b then [] else ct ∷ []

module _ {W : Type 0} (reg : Registry W) where
  -- What a pipeline holds of the plugins that a request cannot do without.
  pub record Compiled (cfg : Config) (p : Pipeline W) : Type 0 where
    pub cfg_same : p.cfg ≡ cfg
    pub authn : p.authn ≡ (
        if cfg.auth.anonymous
        then none
        else required (λ name. authenticator name reg) cfg.pipeline.authenticator)
    pub route : p.router ≡ required (λ name. router name reg) cfg.pipeline.router
    pub upstreams : find_upstreams reg cfg.pipeline.upstream_providers [] ≡ ok p.upstreams
    pub missing :
        p.missing
        ≡ (if cfg.auth.anonymous then [] else missing_if p.authn authenticator_cap)
          ++ missing_if p.router router_cap
          ++ (if is_empty p.upstreams then upstream_provider_cap ∷ [] else [])
    pub ready : p.ready ≡ is_empty p.missing

  pub compile-Compiled :
      (cfg : Config) (models : ModelRegistry) {p : Pipeline W} {q : Queue W}
      → compile reg cfg models ≡ ok (p, q)
      → Compiled cfg p
  unfolding compile
  compile-Compiled cfg models h = record {
    cfg_same = ground arith;
    authn = ground arith;
    route = ground arith;
    upstreams = ground arith;
    missing = ground arith;
    ready = ground arith;
  }

  -- The configuration names an instance, and the registry has it with the capability.
  abbrev pub registered : CapabilityType → String → Bool
  registered ct name = not (name == "") && has name ct reg

  is_some-authenticator :
      (name : String)
      → is_some (required (λ n. authenticator n reg) name) ≡ registered authenticator_cap name
  unfolding required authenticator has has_capability capability_of
  is_some-authenticator name = ground arith

  is_some-router :
      (name : String) → is_some (required (λ n. router n reg) name) ≡ registered router_cap name
  unfolding required router has has_capability capability_of
  is_some-router name = ground arith

  is_empty-find_upstreams :
      (names : List String) (found : Dict (UpstreamProvider W)) {out : Dict (UpstreamProvider W)}
      → find_upstreams reg names found ≡ ok out
      → is_empty out ≡ (is_empty names && is_empty found)
  unfolding find_upstreams
  is_empty-find_upstreams [] found h = ground arith
  is_empty-find_upstreams (name ∷ names) found {out} h =
      elim (Result-cases (upstream_provider name reg)) [
        | inl (e, bad) ↦ ground arith
        | inr (v, good) ↦ ground (
          arith,
          is_empty-find_upstreams names (insert name v found) {out = out},
          is_empty-insert name v found,
        )
      ]

  -- A compiled pipeline is missing exactly these capabilities, in this order: the authenticator,
  -- unless callers are anonymous or the configured one is registered; the router, unless the
  -- configured one is registered; the upstream provider, unless some are configured. It is ready
  -- exactly when none is missing.
  pub compile_missing :
      (cfg : Config) (models : ModelRegistry) {p : Pipeline W} {q : Queue W}
      → compile reg cfg models ≡ ok (p, q)
      → (p.missing
          ≡ unless
              (cfg.auth.anonymous || registered authenticator_cap cfg.pipeline.authenticator)
              authenticator_cap
            ++ unless (registered router_cap cfg.pipeline.router) router_cap
            ++ unless (not (is_empty cfg.pipeline.upstream_providers)) upstream_provider_cap)
        × (p.ready ≡ is_empty p.missing)
  compile_missing cfg models {p} h =
      let c = compile-Compiled cfg models h in
      let u = is_empty-find_upstreams cfg.pipeline.upstream_providers [] c.upstreams in
      let a = is_some-authenticator cfg.pipeline.authenticator in
      let r = is_some-router cfg.pipeline.router in
      (ground (arith, c.missing, c.authn, c.route, a, r, u), c.ready)

  -- A ready pipeline has what a request calls without a test.
  pub ready-holds :
      (cfg : Config) {p : Pipeline W}
      → Compiled cfg p
      → p.ready ≡ true
      → (p.cfg.auth.anonymous ≡ false → p.authn ≢ none) × (p.router ≢ none)
  ready-holds cfg {p} c h =
      let known = c.cfg_same in
      (
        λ named. λ none_there.
            let that = ap (λ x. x.auth.anonymous) (sym known) ∙ named in
            ground (arith, c.missing, c.ready, c.authn, none_there, that),
        λ none_there. ground (arith, c.missing, c.ready),
      )
