-- ===== src/Tests/Commands.antt =====
-- The command gateway, and durations, at concrete inputs.
use vulpes_core.Base.{◌≡◌, ◌↔◌, refl, String, true, Result, ok, err, [], ◌∷◌, if◌then◌else◌, ◌==◌}
use vulpes_core.Base.Int.{ℤ, pos, negsuc}
use vulpes_core.Base.Text.{sprint, sprint_int}
use vulpes_core.Capabilities.{Error, plain}
use vulpes_core.Config.{Config}
use vulpes_core.Config.Duration.{scalar_node, unmarshal_yaml, unmarshal_yaml-sprint_int}
use vulpes_core.Config.Validate.{load}
use vulpes_core.Queue.{Queue}
use vulpes_core.Manager.Start.{Manager}
use vulpes_core.Pipeline.State.{Pipeline}
use vulpes_core.App.{new_app, serve_failed}
use vulpes_core.Commands.{gateway_main, pluginctl_main, gateway_main_lem}
use vulpes_core.Tests.Fixtures.{config, plugin}
use vulpes_core.Tests.Clients.{World}
use vulpes_core.Tests.Gateway.{env}

-- A file that has the configuration of the fixtures.
abbrev read : String → Result String String
read path = if path == "gateway.yaml" then ok "text" else err "no such file"

abbrev parse : String → Result String Config
parse text = ok config

gateway_main_lem_example :
    ((gateway_main read parse [] env
        (λ w. w)
        "gateway.yaml"
        (serve_failed (plain "in use"))
        true
        (0, 0)).0.code
      ≡ 0)
    ↔ ((cfg : Config) × (app : Manager World × Pipeline World × Queue World) × (load read parse
            "gateway.yaml"
          ≡ ok cfg)
        × ((new_app cfg [] env (0, 0)).0 ≡ ok app)
        × ((e : Error) → serve_failed (plain "in use") ≡ serve_failed e → true ≡ true))
gateway_main_lem_example =
    gateway_main_lem read parse [] env (λ w. w) "gateway.yaml" (serve_failed (plain "in use")) true
      (0, 0) (λ e same. refl)

abbrev half_minute : Result String ℤ
half_minute = ok (pos 30_000_000_000)

unmarshal_yaml-sprint_int_example :
    unmarshal_yaml
      (λ s. half_minute)
      (record { kind = scalar_node; tag = "!!int"; value = sprint_int (negsuc 41) })
    ≡ ok (negsuc 41)
unmarshal_yaml-sprint_int_example =
    unmarshal_yaml-sprint_int (λ s. half_minute) (negsuc 41) "!!int" refl

listed :
    pluginctl_main (ok (record config { plugins = plugin "a" ∷ [] }))
    ≡ (0, "plugins: 1\n" ∷ "- a (filesystem): [router observer]\n" ∷ [], [])
unfolding pluginctl_main sprint
listed = refl
