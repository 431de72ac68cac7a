-- ===== src/Commands.antt =====
-- The commands cmd/gateway and cmd/pluginctl: what they do behind their flags, up to the exit code.
-- The JSON of the log is not modelled; a line of it is its message and the text of its error.
use vulpes_core.Base.{
  ℕ, String, ◌<>◌, ◌≡◌, ◌↔◌, refl, sym, ap, ◌∙◌, ok-injective, Bool, true, Option, none, some, List,
  [], ◌∷◌, map, length, if◌then◌else◌, Result, ok, err, arith, inl, inr, Result-cases,
}
use vulpes_core.Base.Dict.{Dict}
use vulpes_core.Base.Text.{sprint}
use vulpes_core.Capabilities.{Error, error_text, join}
use vulpes_core.Config.{Config, PluginConfig}
use vulpes_core.Config.Validate.{load}
use vulpes_core.Queue.{Queue}
use vulpes_core.Manager.Start.{Env, Manager}
use vulpes_core.Pipeline.State.{Pipeline}
use vulpes_core.App.{new_app, run, RunEnd, context_done, server_closed, serve_failed}

-- The exit code, and the error that is logged.
pub record Exited : Type 0 where
  pub code : ℕ
  pub logged : Option (String × String)

abbrev pub fine : Exited
fine = record { code = 0; logged = none }

abbrev pub fails : String → String → Exited
fails message e = record { code = 1; logged = some (message, e) }

-- What `a.Run` returned, and whether the context of the signals has ended by then.
unfoldable pub after_run : Option Error → Bool → Exited
after_run none signalled = fine
after_run (some e) signalled = if signalled then fine else fails "gateway failed" (error_text e)

module _ {W : Type 0} (read_file : String → Result String String)
    (unmarshal : String → Result String Config) (environ : Dict String) (env : Env W)
    (shutdown : W → W) where
  -- `app.New` and `Run`; `ended` is what ends Run.
  unfoldable pub run_gateway :
      RunEnd → Bool → Result Error (Manager W × Pipeline W × Queue W) × W → Exited × W
  unfolding after_run run error_text
  run_gateway ended signalled (err e, w) = (fails "initialize gateway" (error_text e), w)
  run_gateway ended signalled (ok (m, p, q), w) =
      let (failed, w') = run env shutdown m ended w in (after_run failed signalled, w')

  -- `main` of cmd/gateway
  unfoldable pub gateway_main : String → RunEnd → Bool → W → Exited × W
  unfolding load new_app run_gateway
  gateway_main path ended signalled w = elim (load read_file unmarshal path) [
    | err e ↦ (fails "load config" e, w)
    | ok cfg ↦ run_gateway ended signalled (new_app cfg environ env w)
  ]

  run_gateway_lem :
      (ended : RunEnd) (signalled : Bool) (made : Result Error (Manager W × Pipeline W × Queue W))
      (w : W)
      → ((e : Error) → ended ≡ context_done e → signalled ≡ true)
      → ((run_gateway ended signalled (made, w)).0.code ≡ 0) ↔ (
          (app : Manager W × Pipeline W × Queue W) × (made ≡ ok app)
          × ((e : Error) → ended ≡ serve_failed e → signalled ≡ true))
  unfolding run_gateway after_run run
  run_gateway_lem ended signalled (err e) w ends = (
    (λ zero_code. absurd (ground (arith, zero_code))),
    λ (app, made, _). absurd (ground (arith, made)),
  )
  run_gateway_lem (context_done x) signalled (ok app) w ends = (
    (λ zero_code. (app, refl, λ e failed. absurd (ground (arith, failed)))),
    λ given. ground (arith, ends x refl),
  )
  run_gateway_lem server_closed signalled (ok app) w ends =
      ((λ zero_code. (app, refl, λ e failed. absurd (ground (arith, failed)))), λ given. refl)
  run_gateway_lem (serve_failed x) signalled (ok app) w ends = (
    (λ zero_code. (app, refl, λ e failed. ground (arith, zero_code))),
    λ (made, same, calm). ground (arith, calm x refl),
  )

  -- The gateway exits with code 0 exactly if its configuration is loaded, New makes the gateway, and
  -- the server does not fail, or fails when a signal has come already. The hypothesis is that Run
  -- ends by the context only if a signal has come.
  pub gateway_main_lem :
      (path : String) (ended : RunEnd) (signalled : Bool) (w : W)
      → ((e : Error) → ended ≡ context_done e → signalled ≡ true)
      → ((gateway_main path ended signalled w).0.code ≡ 0) ↔ (
          (cfg : Config) × (app : Manager W × Pipeline W × Queue W) × (load read_file unmarshal path
            ≡ ok cfg)
          × ((new_app cfg environ env w).0 ≡ ok app)
          × ((e : Error) → ended ≡ serve_failed e → signalled ≡ true))
  unfolding gateway_main
  gateway_main_lem path ended signalled w ends =
      elim (Result-cases (load read_file unmarshal path)) [
        | inl (e, bad) ↦ (
          (λ zero_code. absurd (ground (arith, zero_code, bad))),
          λ (cfg, app, loaded, _, _). absurd (ground (arith, loaded, bad)),
        )
        | inr (cfg, good) ↦
            let made = new_app cfg environ env w in
            let (to, from) = run_gateway_lem ended signalled made.0 made.1 ends in
            let out : gateway_main path ended signalled w ≡ run_gateway ended signalled made =
              rw (good, gateway_main) refl in
            (
              (λ zero_code.
                  let (app, given, calm) = to (ap (λ x. x.0.code) (sym out) ∙ zero_code) in
                  (cfg, app, good, given, calm)),
              λ (cfg', app, loaded, given, calm).
                  (let same : cfg ≡ cfg' = ok-injective (sym good ∙ loaded) in
                    ap (λ x. x.0.code) out
                    ∙ from (app, ap (λ c. (new_app c environ env w).0) same ∙ given, calm)),
            )
      ]

-- A line of the list of plugins.
abbrev pub plugin_line : PluginConfig → String
plugin_line p =
    "- " <> p.name <> " (" <> p.source.type <> "): [" <> join " " p.capabilities <> "]\n"

-- `main` of cmd/pluginctl: the exit code, and what is written to the standard output and to the
-- standard error.
unfoldable pub pluginctl_main : Result String Config → ℕ × List String × List String
unfolding join
pluginctl_main (err e) = (1, [], (e <> "\n") ∷ [])
pluginctl_main (ok cfg) =
    (0, ("plugins: " <> sprint (length cfg.plugins) <> "\n") ∷ map plugin_line cfg.plugins, [])
