-- ===== src/App.antt =====
-- internal/app/app.go: the gateway from its configuration, and its end. A server that listens is not
-- modelled; what it does with a request is `serve`.
use vulpes_core.Base.{
  String, ◌≡◌, ap, sym, ◌∙◌, List, [], ◌∷◌, Option, none, some, Result, ok, err, arith, inl, inr,
  Result-cases, Option-cases, All, subst,
}
use vulpes_core.Base.Dict.{Dict}
use vulpes_core.Capabilities.{Error, wrap}
use vulpes_core.Config.{Config, PluginConfig}
use vulpes_core.Secrets.{env_provider}
use vulpes_core.Models.{new_registry}
use vulpes_core.Queue.{Queue}
use vulpes_core.Manager.Start.{Env, Manager, new_manager, start, stop}
use vulpes_core.Manager.Started.{HasPlugin, start-HasPlugin}
use vulpes_core.Pipeline.Platform.{Platform}
use vulpes_core.Pipeline.State.{Pipeline}
use vulpes_core.Pipeline.Compile.{compile}
use vulpes_core.Pipeline.Exec.{Gateway}
use vulpes_core.HttpApi.Handler.{Request, Decoder}
use vulpes_core.HttpApi.Routes.{serve}
use vulpes_core.HttpApi.Total.{Conforms, serve_conforms}

-- What ends Run: the context, or the server, which was closed or failed.
pub data RunEnd : Type 0 where
  context_done : Error → RunEnd
  server_closed : RunEnd
  serve_failed : Error → RunEnd

module _ {W : Type 0} where
  -- The environment with the secrets of the process, as the configuration lets plugins have them.
  abbrev pub with_secrets : Config → Dict String → Env W → Env W
  with_secrets cfg environ env = record env {
    secrets = env_provider cfg.secrets.env.enabled environ;
  }

  -- Start is called only if there are plugins.
  abbrev pub start_plugins : List PluginConfig → Env W → W → Option Error × Manager W × W
  start_plugins [] env w = (none, new_manager, w)
  start_plugins (pc ∷ pcs) env w = start env (pc ∷ pcs) new_manager w

  unfoldable pub new_app :
      Config → Dict String → Env W → W → Result Error (Manager W × Pipeline W × Queue W) × W
  unfolding start compile new_registry env_provider
  new_app cfg environ env w =
      let (failed, m, w') = start_plugins cfg.plugins (with_secrets cfg environ env) w in
      elim failed [
        | some e ↦ (err e, w')
        | none ↦ (elim (compile m.registry cfg (new_registry cfg.models)) [
          | err e ↦ (err (wrap "compile pipeline: " e ""), w')
          | ok (p, q) ↦ (ok (m, p, q), w')
        ])
      ]

  -- `Run`, by what ends it; `shutdown` is the server's. Only the end of the context stops plugins.
  unfoldable pub run : Env W → (W → W) → Manager W → RunEnd → W → Option Error × W
  unfolding stop
  run env shutdown m (context_done e) w = (some e, (stop env m (shutdown w)).1)
  run env shutdown m server_closed w = (none, w)
  run env shutdown m (serve_failed e) w = (some e, w)

  start_plugins-HasPlugin :
      (pcs : List PluginConfig) (env : Env W) (w : W)
      → (start_plugins pcs env w).0 ≡ none
      → All (HasPlugin env (start_plugins pcs env w).1) pcs
  start_plugins-HasPlugin [] env w h = tt
  start_plugins-HasPlugin (pc ∷ pcs) env w h = start-HasPlugin env (pc ∷ pcs) new_manager w h

  -- A gateway that New gives has a process and a client of every plugin of its configuration, none
  -- of them untrusted without a sandbox; and its server answers every request with the handler of its
  -- route, or redirects or refuses it as the routes say, whatever is in the request and whatever the
  -- plugins answer.
  pub new_app_serves :
      (cfg : Config) (environ : Dict String) (env : Env W) (w w' : W) (m : Manager W)
      (p : Pipeline W) (q : Queue W)
      → new_app cfg environ env w ≡ (ok (m, p, q), w')
      → All (HasPlugin (with_secrets cfg environ env) m) cfg.plugins
        × ((P : Platform W) (decoder : Decoder) (r : Request) (g : Gateway W) (method path : String)
            → Conforms P decoder r g p method path (serve P p decoder method path r g))
  unfolding new_app
  new_app_serves cfg environ env w w' m p q h =
      let env' = with_secrets cfg environ env in
      let out = start_plugins cfg.plugins env' w in
      elim (Option-cases out.0) [
        | inr (e, failed) ↦ ground (arith, h, failed)
        | inl fine ↦ elim (Result-cases (compile out.1.registry cfg (new_registry cfg.models))) [
          | inl (e, bad) ↦ ground (arith, h, fine, bad)
          | inr ((p', q'), good) ↦
              let same : m ≡ out.1 = ground (arith, h, fine, good) in
              let same_p : p' ≡ p = ground (arith, h, fine, good) in
              let same_q : q' ≡ q = ground (arith, h, fine, good) in
              let compiled : compile out.1.registry cfg (new_registry cfg.models) ≡ ok (p, q) =
                good ∙ ap (λ x. ok (x, q')) same_p ∙ ap (λ x. ok (p, x)) same_q in
              (
                subst (λ m'. All (HasPlugin env' m') cfg.plugins) (sym same)
                    (start_plugins-HasPlugin cfg.plugins env' w fine),
                λ P decoder r g.
                    serve_conforms P decoder r g out.1.registry cfg (new_registry cfg.models)
                      compiled,
              )
        ]
      ]
