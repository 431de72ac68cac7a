-- ===== src/Plugins/Granted.antt =====
-- Which capabilities a plugin has in the registry, after `registerClient`.
use mathlib.Core.Option.{some-ne-none}
use vulpes_core.Base.{
  String, ◌≡◌, refl, sym, ◌∙◌, ap, Bool, true, false, ◌&&◌, ◌||◌, List, [], ◌∷◌, arith, ◌==◌,
  eq_iff, eqb, ℕ, All, Option, Bool-cases, inl, inr, eq-false, none, some,
}
use vulpes_core.Base.Dict.{Dict, lookup-insert}
use vulpes_core.Capabilities.{
  CapabilityType, authenticator_cap, authorizer_cap, rate_limiter_cap, router_cap,
  upstream_provider_cap, cache_provider_cap, observer_cap, prompt_provider_cap, cost_provider_cap,
  model_registry_provider_cap,
}
use vulpes_core.Config.{PluginConfig}
use vulpes_core.Plugins.Registry.{
  Registry, Metadata, add_metadata, add_authenticator, add_authorizer, add_rate_limiter, add_router,
  add_upstream_provider, add_cache_provider, add_observer, add_prompt_provider, add_cost_provider,
  add_model_registry_provider, has, has_capability, is_some, Capability, capability_of, cases,
  first_case, authenticator_kind, authorizer_kind, rate_limiter_kind, router_kind,
  upstream_provider_kind, cache_provider_kind, observer_kind, prompt_provider_kind,
  cost_provider_kind, model_registry_provider_kind,
}
use vulpes_core.Plugins.Register.{
  PluginClient, metadata_has_capability, register_kind, register_capability, register_capabilities,
  register_client,
}

abbrev code : Capability → ℕ
code authenticator_kind = 0
code authorizer_kind = 1
code rate_limiter_kind = 2
code router_kind = 3
code upstream_provider_kind = 4
code cache_provider_kind = 5
code observer_kind = 6
code prompt_provider_kind = 7
code cost_provider_kind = 8
code model_registry_provider_kind = 9

abbrev same : Capability → Capability → Bool
same k l = eqb (code k) (code l)

module _ {W : Type 0} (name j : String) (c : PluginClient W) (r : Registry W) where
  has-register_kind :
      (k l : Capability)
      → has_capability (some k) j (register_kind (some l) name c r)
        ≡ (has_capability (some k) j r || (same l k && name == j))
  unfolding has_capability register_kind add_authenticator add_authorizer add_rate_limiter
      add_router add_upstream_provider add_cache_provider add_observer add_prompt_provider
      add_cost_provider add_model_registry_provider
  has-register_kind authenticator_kind authenticator_kind =
      ground (arith, lookup-insert j name c.authn r.authn)
  has-register_kind authenticator_kind _ = ground arith
  has-register_kind authorizer_kind authorizer_kind =
      ground (arith, lookup-insert j name c.authz r.authz)
  has-register_kind authorizer_kind _ = ground arith
  has-register_kind rate_limiter_kind rate_limiter_kind =
      ground (arith, lookup-insert j name c.ratelimit r.ratelimit)
  has-register_kind rate_limiter_kind _ = ground arith
  has-register_kind router_kind router_kind = ground (arith, lookup-insert j name c.router r.router)
  has-register_kind router_kind _ = ground arith
  has-register_kind upstream_provider_kind upstream_provider_kind =
      ground (arith, lookup-insert j name c.upstream r.upstream)
  has-register_kind upstream_provider_kind _ = ground arith
  has-register_kind cache_provider_kind cache_provider_kind =
      ground (arith, lookup-insert j name c.cache r.cache)
  has-register_kind cache_provider_kind _ = ground arith
  has-register_kind observer_kind observer_kind =
      ground (arith, lookup-insert j name c.observer r.observer)
  has-register_kind observer_kind _ = ground arith
  has-register_kind prompt_provider_kind prompt_provider_kind =
      ground (arith, lookup-insert j name c.prompt r.prompt)
  has-register_kind prompt_provider_kind _ = ground arith
  has-register_kind cost_provider_kind cost_provider_kind =
      ground (arith, lookup-insert j name c.cost r.cost)
  has-register_kind cost_provider_kind _ = ground arith
  has-register_kind model_registry_provider_kind model_registry_provider_kind =
      ground (arith, lookup-insert j name c.modelregistry r.modelregistry)
  has-register_kind model_registry_provider_kind _ = ground arith

abbrev capability_name : Capability → CapabilityType
capability_name authenticator_kind = authenticator_cap
capability_name authorizer_kind = authorizer_cap
capability_name rate_limiter_kind = rate_limiter_cap
capability_name router_kind = router_cap
capability_name upstream_provider_kind = upstream_provider_cap
capability_name cache_provider_kind = cache_provider_cap
capability_name observer_kind = observer_cap
capability_name prompt_provider_kind = prompt_provider_cap
capability_name cost_provider_kind = cost_provider_cap
capability_name model_registry_provider_kind = model_registry_provider_cap

first_case-name :
    (ct : CapabilityType) (k : Capability) (table : Dict Capability)
    → All (λ e. e.0 ≡ capability_name e.1) table
    → first_case ct table ≡ some k
    → ct ≡ capability_name k
unfolding first_case
first_case-name ct k [] named h = cc
first_case-name ct k ((name, kind) ∷ table) named h =
    ground (arith, first_case-name ct k table named.1, eq_iff ct name, named.0)

capability_of-name :
    (ct : CapabilityType) (k : Capability) → capability_of ct ≡ some k → ct ≡ capability_name k
unfolding capability_of
capability_of-name ct k h =
    first_case-name ct k cases
      (refl, (refl, (refl, (refl, (refl, (refl, (refl, (refl, (refl, (refl, tt)))))))))) h

same-eq : (k l : Capability) → same k l ≡ true → k ≡ l
same-eq authenticator_kind l h = ground arith
same-eq _ l h = ground arith

same_refl : (k : Capability) → same k k ≡ true
same_refl authenticator_kind = refl
same_refl _ = ground arith

given-same :
    (ct given : CapabilityType) (k l : Capability)
    → capability_of ct ≡ some k
    → capability_of given ≡ some l
    → (given == ct) ≡ same l k
given-same ct given k l ek el = elim (Bool-cases (given == ct)) [
  | inl equal ↦
      let e : given ≡ ct = (eq_iff given ct).0 equal in
      let kinds : some k ≡ some l = sym ek ∙ ap capability_of (sym e) ∙ el in
      ground (arith, same_refl k)
  | inr different ↦ elim (Bool-cases (same l k)) [
    | inl e ↦
        let names : given ≡ ct =
          capability_of-name given l el
          ∙ ap capability_name (same-eq l k e)
          ∙ sym (capability_of-name ct k ek) in
        ground (arith, eq_iff given ct)
    | inr e ↦ ground arith
  ]
]

-- The identifier is one of the ten that the registry knows.
abbrev pub is_known : CapabilityType → Bool
is_known ct = is_some (capability_of ct)

abbrev pub member : String → List String → Bool
member s [] = false
member s (t ∷ ts) = t == s || member s ts

module _ {W : Type 0} (name j : String) (c : PluginClient W) where
  has-register_capability :
      (ct given : CapabilityType) (r : Registry W)
      → has j ct (register_capability name c given r)
        ≡ (has j ct r || (is_known ct && given == ct && name == j))
  unfolding has register_capability
  has-register_capability ct given r = go (capability_of ct) (capability_of given) refl refl
    where
      go :
          (k l : Option Capability)
          → capability_of ct ≡ k
          → capability_of given ≡ l
          → has j ct (register_capability name c given r)
            ≡ (has j ct r || (is_known ct && given == ct && name == j))
      go none l ek el = rw ek refl
      go (some k) none ek el =
          rw
            (
              ek,
              el,
              eq-false given ct (λ e. some-ne-none k (sym ek ∙ ap capability_of (sym e) ∙ el)),
            )
            (ground arith)
      go (some k) (some l) ek el =
          rw (ek, el, has-register_kind name j c r k l, given-same ct given k l ek el)

  has-register_capabilities :
      (md : Metadata) (ct : CapabilityType) (cts : List String) (r : Registry W)
      → has j ct (register_capabilities name c md cts r) ≡ (
          has j ct r
          || (is_known ct && metadata_has_capability md ct && member ct cts && name == j))
  unfolding register_capabilities
  has-register_capabilities md ct [] r = ground arith
  has-register_capabilities md ct (given ∷ cts) r = ground (
    arith,
    has-register_capabilities md ct cts r,
    has-register_capabilities md ct cts (register_capability name c given r),
    has-register_capability ct given r,
    eq_iff given ct,
  )

module _ {W : Type 0} (j : String) where
  has_capability-add_metadata :
      (k : Option Capability) (name : String) (md : Metadata) (r : Registry W)
      → has_capability k j (add_metadata name md r) ≡ has_capability k j r
  unfolding has_capability add_metadata
  has_capability-add_metadata none name md r = refl
  has_capability-add_metadata (some authenticator_kind) name md r = refl
  has_capability-add_metadata (some _) name md r = refl

  has-add_metadata :
      (ct : CapabilityType) (name : String) (md : Metadata) (r : Registry W)
      → has j ct (add_metadata name md r) ≡ has j ct r
  unfolding has
  has-add_metadata ct name md r = has_capability-add_metadata (capability_of ct) name md r

  -- After a plugin is registered, an instance has a capability exactly when it had it before, or it
  -- is that plugin, and the capability is one of the ten, is declared by the plugin's metadata and is
  -- listed for the plugin in the configuration.
  pub has-register_client :
      (pc : PluginConfig) (c : PluginClient W) (md : Metadata) (ct : CapabilityType)
      (r : Registry W)
      → has j ct (register_client pc c md r) ≡ (
          has j ct r
          || (is_known ct
              && metadata_has_capability md ct
              && member ct pc.capabilities
              && pc.name == j))
  unfolding register_client
  has-register_client pc c md ct r =
      has-register_capabilities pc.name j c md ct pc.capabilities (add_metadata pc.name md r)
      ∙ rw (has-add_metadata ct pc.name md r)
