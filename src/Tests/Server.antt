-- ===== src/Tests/Server.antt =====
-- Requests to the server at concrete inputs.
use vulpes_core.Base.{String, ◌≡◌, refl, [], ◌∷◌}
use vulpes_core.Models
use vulpes_core.HttpApi.Routes.{
  serve, Served, answered, healthz_answer, redirected, method_not_allowed, not_found,
}
use vulpes_core.HttpApi.Total.{Conforms, serve_conforms}
use vulpes_core.Tests.Fixtures.{platform, config, registry, models_config}
use vulpes_core.Tests.Requests.{pipeline, queue, compiles, gateway}
use vulpes_core.Tests.Gateway.{decoder, request}

abbrev served : String → String → Served
served method path = (serve platform pipeline decoder method path request gateway).0

health : served "HEAD" "/healthz" ≡ answered healthz_answer
unfolding serve
health = refl

cleaned : served "GET" "//v1/./models" ≡ redirected "/v1/models"
unfolding serve
cleaned = refl

wrong_method : served "GET" "/v1/chat/completions" ≡ method_not_allowed ("POST" ∷ [])
unfolding serve
wrong_method = refl

slash_kept : served "GET" "/healthz/" ≡ not_found
unfolding serve
slash_kept = refl

serve_conforms_example :
    Conforms platform decoder request gateway pipeline "POST" "/v1/chat/completions"
      (serve platform pipeline decoder "POST" "/v1/chat/completions" request gateway)
serve_conforms_example =
    serve_conforms platform decoder request gateway registry config
      (Models.new_registry models_config) {p = pipeline} {q = queue} compiles "POST"
      "/v1/chat/completions"
