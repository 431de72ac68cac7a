-- ===== src/Models/Defs.antt =====
-- The registry of logical models.
use vulpes_core.Base.{
  String, ◌<>◌, true, false, List, [], ◌∷◌, ◌++◌, map, if◌then◌else◌, Result, ok, err,
}
use vulpes_core.Base.Int.{pos, is_zero}
use vulpes_core.Base.Dict.{Dict, get_or, insert}
use vulpes_core.Base.Text.{quote}
use vulpes_core.Base.Value.{Float64}
use vulpes_core.Capabilities.{RouteCandidate, ModelInfo, Error, plain}
use vulpes_core.Config.{ModelsConfig, ModelAlias, ModelCandidate}

pub record ModelRegistry : Type 0 where
  pub aliases : Dict (List RouteCandidate)

abbrev zero_float : Float64
zero_float = record { bits = 0 }

-- The candidate that NewRegistry makes of one entry of an alias.
unfoldable pub route_candidate : String → ModelCandidate → RouteCandidate
route_candidate logical c = record {
  provider_instance = c.provider;
  provider_model = c.model;
  logical_model = logical;
  weight = if is_zero c.weight then pos 100 else c.weight;
  region = c.region;
  healthy = true;
  estimated_cost_per_1k_input = zero_float;
  estimated_cost_per_1k_output = zero_float;
  properties = c.properties;
}

-- The inner loop of NewRegistry, over the candidates of one alias.
unfoldable pub add_candidates :
    String → List ModelCandidate → Dict (List RouteCandidate) → Dict (List RouteCandidate)
unfolding route_candidate
add_candidates logical [] aliases = aliases
add_candidates logical (c ∷ cs) aliases =
    add_candidates logical cs
      (insert logical (get_or logical [] aliases ++ route_candidate logical c ∷ []) aliases)

-- The outer loop of NewRegistry, over the aliases.
unfoldable pub add_aliases :
    Dict ModelAlias → Dict (List RouteCandidate) → Dict (List RouteCandidate)
unfolding add_candidates
add_aliases [] aliases = aliases
add_aliases ((logical, alias) ∷ rest) aliases =
    add_aliases rest (add_candidates logical alias.candidates aliases)

unfoldable pub new_registry : ModelsConfig → ModelRegistry
unfolding add_aliases
new_registry cfg = record { aliases = add_aliases cfg.aliases [] }

abbrev pub model_not_found : String → Error
model_not_found model = plain ("model " <> quote model <> " not found")

-- The candidates of a model, or the error where there are none.
abbrev pub found : String → List RouteCandidate → Result Error (List RouteCandidate)
found model [] = err (model_not_found model)
found model (c ∷ cs) = ok (c ∷ cs)

unfoldable pub candidates : ModelRegistry → String → Result Error (List RouteCandidate)
candidates r model = found model (get_or model [] r.aliases)

abbrev gateway_model : String → ModelInfo
gateway_model id = record {
  id = id;
  object = "model";
  owned_by = "gateway";
  provider_instance = "";
  provider_model = "";
  context_window = pos 0;
  supports_streaming = false;
  supports_tools = false;
  supports_json_mode = false;
  supports_vision = false;
  region = "";
  healthy = true;
  properties = [];
}

-- `List`
unfoldable pub list_models : ModelRegistry → List ModelInfo
list_models r = map (λ (id, _). gateway_model id) r.aliases
