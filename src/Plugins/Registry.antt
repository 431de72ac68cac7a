-- ===== src/Plugins/Registry.antt =====
-- internal/plugins/registry.go: the plugin instances by capability. The mutex makes every method
-- atomic. A map never holds a nil interface here, so a nil entry is a missing key.
use vulpes_core.Base.{
  String, ◌<>◌, Bool, true, false, Option, none, some, List, [], ◌∷◌, ◌==◌, if◌then◌else◌, Result,
  ok, err,
}
use vulpes_core.Base.Dict.{Dict, lookup, insert}
use vulpes_core.Base.Text.{quote}
use vulpes_core.Capabilities.{
  Authenticator, Authorizer, RateLimiter, Router, UpstreamProvider, CacheProvider, Observer,
  PromptProvider, CostProvider, ModelRegistryProvider, Error, plain, CapabilityType,
  authenticator_cap, authorizer_cap, rate_limiter_cap, router_cap, upstream_provider_cap,
  cache_provider_cap, observer_cap, prompt_provider_cap, cost_provider_cap,
  model_registry_provider_cap,
}

pub record CapabilityDescriptor : Type 0 where
  pub type : CapabilityType
  pub name : String
  pub version : String

pub record DataPermissions : Type 0 where
  pub read_prompt : Bool
  pub read_response : Bool
  pub modify_request : Bool
  pub modify_response : Bool
  pub read_headers : Bool

pub record Permissions : Type 0 where
  pub outbound_hosts : List String
  pub secret_names : List String
  pub data_permissions : DataPermissions

pub record Metadata : Type 0 where
  pub name : String
  pub version : String
  pub homepage : String
  pub capabilities : List CapabilityDescriptor
  pub permissions : Permissions

pub record Registry (W : Type 0) : Type 0 where
  pub authn : Dict (Authenticator W)
  pub authz : Dict (Authorizer W)
  pub ratelimit : Dict (RateLimiter W)
  pub router : Dict (Router W)
  pub upstream : Dict (UpstreamProvider W)
  pub cache : Dict (CacheProvider W)
  pub observer : Dict (Observer W)
  pub prompt : Dict (PromptProvider W)
  pub cost : Dict (CostProvider W)
  pub modelregistry : Dict (ModelRegistryProvider W)
  pub metadata : Dict Metadata

-- The cases of the `switch` over a capability identifier, in Has and in registerClient.
pub data Capability : Type 0 where
  authenticator_kind authorizer_kind rate_limiter_kind router_kind upstream_provider_kind
        cache_provider_kind observer_kind prompt_provider_kind cost_provider_kind
        model_registry_provider_kind :
      Capability

-- The first of the cases that fits.
unfoldable pub first_case : CapabilityType → Dict Capability → Option Capability
first_case ct [] = none
first_case ct ((name, kind) ∷ rest) = if ct == name then some kind else first_case ct rest

abbrev pub cases : Dict Capability
cases =
    (authenticator_cap, authenticator_kind)
    ∷ (authorizer_cap, authorizer_kind)
    ∷ (rate_limiter_cap, rate_limiter_kind)
    ∷ (router_cap, router_kind)
    ∷ (upstream_provider_cap, upstream_provider_kind)
    ∷ (cache_provider_cap, cache_provider_kind)
    ∷ (observer_cap, observer_kind)
    ∷ (prompt_provider_cap, prompt_provider_kind)
    ∷ (cost_provider_cap, cost_provider_kind)
    ∷ (model_registry_provider_cap, model_registry_provider_kind)
    ∷ []

unfoldable pub capability_of : CapabilityType → Option Capability
unfolding first_case
capability_of ct = first_case ct cases

-- A map's value, or the error of a method that finds none.
abbrev pub get_or_error {ℓ} : {A : Type ℓ} → String → String → Dict A → Result Error A
get_or_error what name m = elim (lookup name m) [
  | none ↦ err (plain (what <> " " <> quote name <> " not found"))
  | some v ↦ ok v
]

abbrev pub is_some {ℓ} : {A : Type ℓ} → Option A → Bool
is_some none = false
is_some (some a) = true

module _ {W : Type 0} where
  abbrev pub new_registry : Registry W
  new_registry = record {
    authn = [];
    authz = [];
    ratelimit = [];
    router = [];
    upstream = [];
    cache = [];
    observer = [];
    prompt = [];
    cost = [];
    modelregistry = [];
    metadata = [];
  }

  unfoldable pub add_metadata : String → Metadata → Registry W → Registry W
  add_metadata instance_name md r = record r { metadata = insert instance_name md r.metadata }

  unfoldable pub metadata_of : String → Registry W → Option Metadata
  metadata_of instance_name r = lookup instance_name r.metadata

  unfoldable pub add_authenticator : String → Authenticator W → Registry W → Registry W
  add_authenticator name v r = record r { authn = insert name v r.authn }

  unfoldable pub add_authorizer : String → Authorizer W → Registry W → Registry W
  add_authorizer name v r = record r { authz = insert name v r.authz }

  unfoldable pub add_rate_limiter : String → RateLimiter W → Registry W → Registry W
  add_rate_limiter name v r = record r { ratelimit = insert name v r.ratelimit }

  unfoldable pub add_router : String → Router W → Registry W → Registry W
  add_router name v r = record r { router = insert name v r.router }

  unfoldable pub add_upstream_provider : String → UpstreamProvider W → Registry W → Registry W
  add_upstream_provider name v r = record r { upstream = insert name v r.upstream }

  unfoldable pub add_cache_provider : String → CacheProvider W → Registry W → Registry W
  add_cache_provider name v r = record r { cache = insert name v r.cache }

  unfoldable pub add_observer : String → Observer W → Registry W → Registry W
  add_observer name v r = record r { observer = insert name v r.observer }

  unfoldable pub add_prompt_provider : String → PromptProvider W → Registry W → Registry W
  add_prompt_provider name v r = record r { prompt = insert name v r.prompt }

  unfoldable pub add_cost_provider : String → CostProvider W → Registry W → Registry W
  add_cost_provider name v r = record r { cost = insert name v r.cost }

  unfoldable pub add_model_registry_provider :
      String → ModelRegistryProvider W → Registry W → Registry W
  add_model_registry_provider name v r = record r { modelregistry = insert name v r.modelregistry }

  unfoldable pub authenticator : String → Registry W → Result Error (Authenticator W)
  authenticator name r = get_or_error "authenticator" name r.authn

  unfoldable pub authorizer : String → Registry W → Result Error (Authorizer W)
  authorizer name r = get_or_error "authorizer" name r.authz

  unfoldable pub rate_limiter : String → Registry W → Result Error (RateLimiter W)
  rate_limiter name r = get_or_error "rate limiter" name r.ratelimit

  unfoldable pub router : String → Registry W → Result Error (Router W)
  router name r = get_or_error "router" name r.router

  unfoldable pub upstream_provider : String → Registry W → Result Error (UpstreamProvider W)
  upstream_provider name r = get_or_error "upstream provider" name r.upstream

  unfoldable pub cache_provider : String → Registry W → Result Error (CacheProvider W)
  cache_provider name r = get_or_error "cache provider" name r.cache

  unfoldable pub observer : String → Registry W → Result Error (Observer W)
  observer name r = get_or_error "observer" name r.observer

  unfoldable pub prompt_provider : String → Registry W → Result Error (PromptProvider W)
  prompt_provider name r = get_or_error "prompt provider" name r.prompt

  unfoldable pub cost_provider : String → Registry W → Result Error (CostProvider W)
  cost_provider name r = get_or_error "cost provider" name r.cost

  unfoldable pub model_registry_provider :
      String → Registry W → Result Error (ModelRegistryProvider W)
  model_registry_provider name r = get_or_error "model registry provider" name r.modelregistry

  unfoldable pub has_capability : Option Capability → String → Registry W → Bool
  has_capability none name r = false
  has_capability (some authenticator_kind) name r = is_some (lookup name r.authn)
  has_capability (some authorizer_kind) name r = is_some (lookup name r.authz)
  has_capability (some rate_limiter_kind) name r = is_some (lookup name r.ratelimit)
  has_capability (some router_kind) name r = is_some (lookup name r.router)
  has_capability (some upstream_provider_kind) name r = is_some (lookup name r.upstream)
  has_capability (some cache_provider_kind) name r = is_some (lookup name r.cache)
  has_capability (some observer_kind) name r = is_some (lookup name r.observer)
  has_capability (some prompt_provider_kind) name r = is_some (lookup name r.prompt)
  has_capability (some cost_provider_kind) name r = is_some (lookup name r.cost)
  has_capability (some model_registry_provider_kind) name r = is_some (lookup name r.modelregistry)

  unfoldable pub has : String → CapabilityType → Registry W → Bool
  unfolding has_capability
  has name ct r = has_capability (capability_of ct) name r
