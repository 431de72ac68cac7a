-- ===== src/Models/Lookup.antt =====
-- What the registry answers for a model, in terms of the configuration.
use mathlib.Core.List.{append-nil, append_assoc}
use vulpes_core.Base.{
  String, ◌≡◌, sym, ◌∙◌, ap, none, some, List, [], ◌∷◌, ◌++◌, map, arith, ◌==◌, eq_iff,
  if◌then◌else◌,
}
use vulpes_core.Base.Dict.{Dict, lookup, get_or, insert, lookup-insert, NodupKeys}
use vulpes_core.Capabilities.{RouteCandidate}
use vulpes_core.Config.{ModelsConfig, ModelAlias, ModelCandidate}
use vulpes_core.Models.Defs.{
  route_candidate, add_candidates, add_aliases, new_registry, candidates, found,
}

get_or-insert :
    (j k : String) (v d : List RouteCandidate) (m : Dict (List RouteCandidate))
    → get_or j d (insert k v m) ≡ (if k == j then v else get_or j d m)
unfolding get_or
get_or-insert j k v d m = ground (arith, lookup-insert j k v m)

get_or-add_candidates :
    (j logical : String) (cs : List ModelCandidate) (m : Dict (List RouteCandidate))
    → get_or j [] (add_candidates logical cs m)
      ≡ (if logical == j then get_or j [] m ++ map (route_candidate logical) cs else get_or j [] m)
unfolding add_candidates
get_or-add_candidates j logical [] m = ground (arith, append-nil (get_or j [] m))
get_or-add_candidates j logical (c ∷ cs) m =
    let old = get_or logical [] m in
    ground (
      arith,
      get_or-add_candidates j logical cs (insert logical (old ++ route_candidate logical c ∷ []) m),
      get_or-insert j logical (old ++ route_candidate logical c ∷ []) [] m,
      append_assoc old (route_candidate logical c ∷ []) (map (route_candidate logical) cs),
      eq_iff logical j,
    )

-- The candidates that the configuration lists for a model, as the gateway holds them.
unfoldable pub configured : Dict ModelAlias → String → List RouteCandidate
configured aliases model = elim (lookup model aliases) [
  | none ↦ []
  | some alias ↦ map (route_candidate model) alias.candidates
]

configured-cons :
    (j logical : String) (alias : ModelAlias) (rest : Dict ModelAlias)
    → configured ((logical, alias) ∷ rest) j
      ≡ (if logical == j then map (route_candidate j) alias.candidates else configured rest j)
unfolding configured lookup
configured-cons j logical alias rest = ground arith

configured-absent :
    (j : String) (aliases : Dict ModelAlias) → lookup j aliases ≡ none → configured aliases j ≡ []
unfolding configured
configured-absent j aliases h = rw (h, configured)

get_or-add_aliases :
    (j : String) (aliases : Dict ModelAlias) (m : Dict (List RouteCandidate))
    → NodupKeys aliases
    → get_or j [] (add_aliases aliases m) ≡ get_or j [] m ++ configured aliases j
unfolding add_aliases configured lookup
get_or-add_aliases j [] m u = sym (append-nil (get_or j [] m))
get_or-add_aliases j ((logical, alias) ∷ rest) m u =
    let m' = add_candidates logical alias.candidates m in
    get_or-add_aliases j rest m' u.1
    ∙ ground (
      arith,
      get_or-add_candidates j logical alias.candidates m,
      configured-cons j logical alias rest,
      configured-absent j rest,
      eq_iff logical j,
      append-nil (get_or j [] m ++ map (route_candidate logical) alias.candidates),
      u.0,
    )

-- With the keys of the alias map distinct, a model is found exactly when the configuration lists at
-- least one candidate for it. The answer is then the configured candidates in their order, each with
-- weight 100 in place of a weight 0.
pub candidates-new_registry :
    (cfg : ModelsConfig) (model : String)
    → NodupKeys cfg.aliases
    → candidates (new_registry cfg) model ≡ found model (configured cfg.aliases model)
unfolding candidates new_registry get_or lookup
candidates-new_registry cfg model u = ap (found model) (get_or-add_aliases model cfg.aliases [] u)
