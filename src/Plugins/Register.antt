-- ===== src/Plugins/Register.antt =====
-- `registerClient` and `metadataHasCapability` of internal/plugins/manager.go: which capabilities of
-- a plugin get into the registry.
use vulpes_core.Base.{
  String, Bool, false, ◌||◌, List, [], ◌∷◌, ◌==◌, if◌then◌else◌, Option, none, some,
}
use vulpes_core.Capabilities.{
  Authenticator, Authorizer, RateLimiter, Router, UpstreamProvider, CacheProvider, Observer,
  PromptProvider, CostProvider, ModelRegistryProvider, CapabilityType,
}
use vulpes_core.Config.{PluginConfig}
use vulpes_core.Plugins.Registry.{
  Registry, Metadata, CapabilityDescriptor, add_metadata, add_authenticator, add_authorizer,
  add_rate_limiter, add_router, add_upstream_provider, add_cache_provider, add_observer,
  add_prompt_provider, add_cost_provider, add_model_registry_provider, Capability, capability_of,
  authenticator_kind, authorizer_kind, rate_limiter_kind, router_kind, upstream_provider_kind,
  cache_provider_kind, observer_kind, prompt_provider_kind, cost_provider_kind,
  model_registry_provider_kind,
}

-- `RPCPluginClient` as the registry gets it: one value that implements all ten interfaces.
pub record PluginClient (W : Type 0) : Type 0 where
  pub authn : Authenticator W
  pub authz : Authorizer W
  pub ratelimit : RateLimiter W
  pub router : Router W
  pub upstream : UpstreamProvider W
  pub cache : CacheProvider W
  pub observer : Observer W
  pub prompt : PromptProvider W
  pub cost : CostProvider W
  pub modelregistry : ModelRegistryProvider W

has_descriptor : List CapabilityDescriptor → CapabilityType → Bool
has_descriptor [] ct = false
has_descriptor (d ∷ ds) ct = d.type == ct || has_descriptor ds ct

unfoldable pub metadata_has_capability : Metadata → CapabilityType → Bool
unfolding has_descriptor
metadata_has_capability md ct = has_descriptor md.capabilities ct

module _ {W : Type 0} where
  -- The `switch` of registerClient: a capability that is none of the ten adds nothing.
  unfoldable pub register_kind :
      Option Capability → String → PluginClient W → Registry W → Registry W
  register_kind none name c r = r
  register_kind (some authenticator_kind) name c r = add_authenticator name c.authn r
  register_kind (some authorizer_kind) name c r = add_authorizer name c.authz r
  register_kind (some rate_limiter_kind) name c r = add_rate_limiter name c.ratelimit r
  register_kind (some router_kind) name c r = add_router name c.router r
  register_kind (some upstream_provider_kind) name c r = add_upstream_provider name c.upstream r
  register_kind (some cache_provider_kind) name c r = add_cache_provider name c.cache r
  register_kind (some observer_kind) name c r = add_observer name c.observer r
  register_kind (some prompt_provider_kind) name c r = add_prompt_provider name c.prompt r
  register_kind (some cost_provider_kind) name c r = add_cost_provider name c.cost r
  register_kind (some model_registry_provider_kind) name c r =
      add_model_registry_provider name c.modelregistry r

  unfoldable pub register_capability :
      String → PluginClient W → CapabilityType → Registry W → Registry W
  unfolding register_kind
  register_capability name c ct r = register_kind (capability_of ct) name c r

  -- The loop over the configured capabilities.
  unfoldable pub register_capabilities :
      String → PluginClient W → Metadata → List String → Registry W → Registry W
  unfolding register_capability metadata_has_capability
  register_capabilities name c md [] r = r
  register_capabilities name c md (ct ∷ cts) r =
      register_capabilities name c md cts
        (if metadata_has_capability md ct then register_capability name c ct r else r)

  unfoldable pub register_client :
      PluginConfig → PluginClient W → Metadata → Registry W → Registry W
  unfolding register_capabilities
  register_client pc c md r =
      register_capabilities pc.name c md pc.capabilities (add_metadata pc.name md r)
