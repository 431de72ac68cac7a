-- ===== src/Fakes/Requests.antt =====
-- The fakes that see a request on its way: the authenticator, the router and the upstream provider.
use vulpes_core.Base.{
  ℕ, suc, String, ◌<>◌, Bool, true, false, none, some, List, [], ◌∷◌, ◌==◌, if◌then◌else◌, Result,
  ok,
}
use vulpes_core.Base.Int.{pos}
use vulpes_core.Base.Value.{Float64, str}
use vulpes_core.Capabilities.{
  Error, AuthenticateRequest, AuthenticateResponse, Identity, RouteRequest, RouteResponse,
  RouteCandidate, SelectedRoute, InvokeRequest, ResponseChunk, UpstreamError, ChatChoice, ModelInfo,
}
use vulpes_core.Pipeline.State.{zero_usage, zero_message, assistant_choice}

abbrev pub zero_float : Float64
zero_float = record { bits = 0 }

pub record FakeAuthenticator : Type 0 where
  pub allow : Bool
  pub calls : ℕ

abbrev test_identity : Identity
test_identity = record {
  subject = "test";
  tenant_id = "test";
  groups = [];
  claims = [];
  auth_method = "fake";
}

abbrev no_identity : Identity
no_identity = record { subject = ""; tenant_id = ""; groups = []; claims = []; auth_method = "" }

unfoldable pub fake_authenticate :
    AuthenticateRequest → FakeAuthenticator → Result Error AuthenticateResponse × FakeAuthenticator
fake_authenticate req a = (
  ok (
      if a.allow
      then record { allow = true; identity = test_identity; deny_reason = ""; diagnostics = [] }
      else record {
        allow = false;
        identity = no_identity;
        deny_reason = "invalid credentials";
        diagnostics = [];
      }),
  record a { calls = suc a.calls },
)

pub record FakeRouter : Type 0 where
  pub calls : ℕ

-- The loop over the candidates, from the index `i` on.
unfoldable pub fake_routes : ℕ → List RouteCandidate → List SelectedRoute
fake_routes i [] = []
fake_routes i (c ∷ cs) =
    record {
      provider_instance = c.provider_instance;
      provider_model = c.provider_model;
      priority = pos i;
      properties = [];
    }
    ∷ fake_routes (suc i) cs

unfoldable pub fake_route : RouteRequest → FakeRouter → Result Error RouteResponse × FakeRouter
unfolding fake_routes
fake_route req r = (
  ok (record { routes = fake_routes 0 req.candidates; reason = "fake"; diagnostics = [] }),
  record r { calls = suc r.calls },
)

pub record FakeUpstream : Type 0 where
  pub calls : ℕ
  pub fail_first : Bool
  pub stream_error_after_first : Bool
  pub text : String

abbrev temporary : UpstreamError
temporary = record {
  code = "upstream_5xx";
  message = "temporary";
  http_status = pos 503;
  retryable = true;
  rate_limited = false;
}

abbrev interrupted : UpstreamError
interrupted = record {
  code = "stream_interrupted";
  message = "boom";
  http_status = pos 502;
  retryable = true;
  rate_limited = false;
}

abbrev error_chunk : UpstreamError → ResponseChunk
error_chunk e = record { chunk = none; usage = none; error = some e }

abbrev usage_chunk : InvokeRequest → ResponseChunk
usage_chunk req = record {
  chunk = none;
  usage = some (record zero_usage {
    provider_instance = req.context.plugin_instance;
    provider_model = req.provider_model;
    input_tokens = pos 1;
    output_tokens = pos 1;
    total_tokens = pos 2;
  });
  error = none;
}

abbrev choice_chunk : String → ℕ → InvokeRequest → ChatChoice → ResponseChunk
choice_chunk id now req choice = record {
  chunk = some (record {
    id = id;
    object = "chat.completion.chunk";
    created = pos now;
    model = req.provider_model;
    choices = choice ∷ [];
  });
  usage = none;
  error = none;
}

-- A part of the text in the delta of a choice.
abbrev delta_choice : String → ChatChoice
delta_choice part = record {
  index = pos 0;
  message = zero_message;
  delta = record zero_message { role = "assistant"; content = str part };
  finish_reason = "";
}

-- The two parts of a text that are sent.
abbrev first_part : String → String
first_part String.[] = ""
first_part (String.◌∷◌ c s) = String.◌∷◌ c String.[]

abbrev last_part : String → String
last_part String.[] = ""
last_part (String.◌∷◌ c s) = s

-- The loop over the parts, and what follows it.
unfoldable pub fake_parts : Bool → String → ℕ → InvokeRequest → List String → List ResponseChunk
fake_parts interrupts id now req [] = usage_chunk req ∷ []
fake_parts interrupts id now req (part ∷ parts) =
    let rest = fake_parts interrupts id now req parts in
    if part == ""
    then rest
    else choice_chunk id now req (delta_choice part)
      ∷ (if interrupts then error_chunk interrupted ∷ [] else rest)

-- The goroutine of Invoke.
unfoldable pub fake_chunks : FakeUpstream → String → ℕ → InvokeRequest → List ResponseChunk
unfolding fake_parts
fake_chunks u uuid now req =
    let text = if u.text == "" then "hello" else u.text in
    let id = "chatcmpl_" <> uuid in
    if req.request.stream
    then fake_parts u.stream_error_after_first id now req (first_part text ∷ last_part text ∷ [])
    else choice_chunk id now req (assistant_choice text "") ∷ usage_chunk req ∷ []

unfoldable pub fake_invoke :
    String → ℕ → InvokeRequest → FakeUpstream → Result Error (List ResponseChunk) × FakeUpstream
unfolding fake_chunks
fake_invoke uuid now req u =
    let counted = record u { calls = suc u.calls } in
    if u.fail_first
    then (ok (error_chunk temporary ∷ []), record counted { fail_first = false })
    else (ok (fake_chunks u uuid now req), counted)

abbrev pub fake_model : ModelInfo
fake_model = record {
  id = "fake";
  object = "model";
  owned_by = "fake";
  provider_instance = "";
  provider_model = "";
  context_window = pos 0;
  supports_streaming = false;
  supports_tools = false;
  supports_json_mode = false;
  supports_vision = false;
  region = "";
  healthy = true;
  properties = [];
}
