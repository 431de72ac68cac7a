-- ===== src/Pipeline/Served.antt =====
-- A reply without an error names the route that served it.
use vulpes_core.Base.{
  ℕ, zero, suc, ◌+◌, ◌<◌, ◌≡◌, ◌≢◌, refl, ◌∙◌, Option, none, some, List, [], ◌∷◌, take, arith, ok,
  err, inl, inr, Option-cases,
}
use vulpes_core.Base.Text.{sprint}
use vulpes_core.Base.Dict.{lookup, lookup-insert}
use vulpes_core.Capabilities.{Error, SelectedRoute, upstream, UpstreamProvider}
use vulpes_core.Pipeline.Platform.{Platform}
use vulpes_core.Pipeline.State.{Pipeline, ChatResult, Reply}
use vulpes_core.Pipeline.Exec.{Exec}
use vulpes_core.Pipeline.Post.{Returns, Returns-pure, Returns-call, Returns-bind, Returns-weaken}
use vulpes_core.Pipeline.Attempts.{
  Attempt, try_routes, try_streams, route_result, failure, success, attempt_failed,
}
use vulpes_core.Pipeline.Props.{route_event_props}
use vulpes_core.Pipeline.Outcomes.{
  Replies, Returns-elapsed, Returns-give_up, Returns-attempt_failed, Returns-collect_response,
  Returns-after_success,
}

-- The route of an index, if there is one.
abbrev pub nth : ℕ → List SelectedRoute → Option SelectedRoute
nth n [] = none
nth zero (r ∷ rs) = some r
nth (suc n) (r ∷ rs) = nth n rs

module _ {W : Type 0} (p : Pipeline W) where
  -- The result says that route `r`, of the given index, served it; the provider is configured.
  pub record ServedBy (result : ChatResult) (index : ℕ) (r : SelectedRoute) : Type 0 where
    pub index_told : result.fallback_index ≡ index
    pub provider_told : lookup "X-Gateway-Route-Provider" result.headers ≡ some r.provider_instance
    pub model_told : lookup "X-Gateway-Route-Model" result.headers ≡ some r.provider_model
    pub configured : lookup r.provider_instance p.upstreams ≢ none

  -- A reply without an error is served by one of these routes, whose indices start at `i`.
  pub record Served (routes : List SelectedRoute) (i : ℕ) (reply : Reply) : Type 0 where
    pub at :
        reply.error ≡ none
        → (k : ℕ) × (r : SelectedRoute) × (nth k routes ≡ some r) × ServedBy reply.result (i + k) r

  failure-Served :
      (routes : List SelectedRoute) (i : ℕ) (result : ChatResult) (e : Error)
      → Served routes i (failure result e)
  failure-Served routes i result e = record { at = λ fine. ground (arith, fine) }

  Served-cons :
      (r : SelectedRoute) (routes : List SelectedRoute) (i : ℕ) (reply : Reply)
      → Served routes (suc i) reply
      → Served (r ∷ routes) i reply
  Served-cons r routes i reply h = record {
    at = λ fine.
        let (k, r', there, served) = h.at fine in
        (
          suc k,
          r',
          there,
          record {
            index_told = ground (arith, served.index_told);
            provider_told = served.provider_told;
            model_told = served.model_told;
            configured = served.configured;
          },
        );
  }

  route_result-ServedBy :
      (r : SelectedRoute) (i : ℕ) (result : ChatResult)
      → lookup r.provider_instance p.upstreams ≢ none
      → ServedBy (route_result r i result) i r
  route_result-ServedBy r i result there = record {
    index_told = refl;
    provider_told =
        lookup-insert "X-Gateway-Route-Provider" "X-Gateway-Fallback-Index" (sprint i) _
        ∙ lookup-insert "X-Gateway-Route-Provider" "X-Gateway-Route-Model" r.provider_model _
        ∙ lookup-insert "X-Gateway-Route-Provider" "X-Gateway-Route-Provider" r.provider_instance
            result.headers;
    model_told =
        lookup-insert "X-Gateway-Route-Model" "X-Gateway-Fallback-Index" (sprint i) _
        ∙ lookup-insert "X-Gateway-Route-Model" "X-Gateway-Route-Model" r.provider_model _;
    configured = there;
  }

  ServedBy-record :
      (r : SelectedRoute) (i : ℕ) (result : ChatResult) (up : UpstreamProvider W)
      → lookup r.provider_instance p.upstreams ≡ some up
      → ServedBy (route_result r i result) i r
  ServedBy-record r i result up e =
      route_result-ServedBy r i result (λ gone. ground (arith, e, gone))

  first-Served :
      (r : SelectedRoute) (routes : List SelectedRoute) (i : ℕ) (result : ChatResult)
      → ServedBy result i r
      → Served (r ∷ routes) i (success result)
  first-Served r routes i result h = record {
    at = λ fine. (
      0,
      r,
      refl,
      record {
        index_told = ground (arith, h.index_told);
        provider_told = h.provider_told;
        model_told = h.model_told;
        configured = h.configured;
      },
    );
  }

  Returns-Served :
      {m : Exec W Reply Reply} (r : SelectedRoute) (routes : List SelectedRoute) (i : ℕ)
      → Returns (Served routes (suc i)) (Served routes (suc i)) m
      → Returns (Served (r ∷ routes) i) (Served (r ∷ routes) i) m
  Returns-Served r routes i h =
      Returns-weaken h (λ reply. Served-cons r routes i reply)
        (λ reply. Served-cons r routes i reply)

module _ {W : Type 0} (P : Platform W) (p : Pipeline W) where
  abbrev ServedFrom : List SelectedRoute → ℕ → Exec W Reply Reply → Type 0
  ServedFrom routes i m = Replies P p (Served p routes i) m

  pub Served-try_routes :
      (a : Attempt) (routes : List SelectedRoute) (i : ℕ) (last : Option Error)
      (result : ChatResult)
      → ServedFrom routes i (try_routes P p a routes i last result)
  unfolding try_routes
  Served-try_routes a [] i last result =
      Returns-give_up P p (Served p [] i) a last result (failure-Served p [] i result)
  Served-try_routes a (r ∷ routes) i last result =
      let D = Served p (r ∷ routes) i in
      let result' = route_result r i result in
      let failed : (t : ℕ) (e : Error)
          → ServedFrom (r ∷ routes) i (
              attempt_failed P p a (route_event_props a.props r i t) result' e
                (try_routes P p a routes (suc i) (some e) result')) =
        λ t. λ e.
          Returns-attempt_failed P p D a _ result' e _ (failure-Served p (r ∷ routes) i result')
            (Returns-Served p r routes i (Served-try_routes a routes (suc i) (some e) result')) in
      elim (Option-cases (lookup r.provider_instance p.upstreams)) [
        | inl e ↦
            rw (e, try_routes)
              (Returns-Served p r routes i (Served-try_routes a routes (suc i) _ result))
        | inr (up, e) ↦
            rw (e, try_routes)
              (Returns-bind (Returns-elapsed P p D _) λ t _.
                Returns-bind (Returns-call _ (λ a. tt)) (elim [
                  | err e ↦ λ _. failed t e
                  | ok chunks ↦ λ _. Returns-bind (Returns-collect_response P p D _ _) (elim [
                    | err e ↦ λ _. failed t (upstream e)
                    | ok c ↦ λ _.
                        let by = ServedBy-record p r i result up e in
                        let done : ChatResult = record result' {
                          response = c.resp;
                          usage = c.usage;
                        } in
                        let by_done : ServedBy p done i r = record {
                          index_told = by.index_told;
                          provider_told = by.provider_told;
                          model_told = by.model_told;
                          configured = by.configured;
                        } in
                        Returns-bind
                          (Returns-after_success P p D a _ done
                            (failure-Served p (r ∷ routes) i done))
                          λ _ _. Returns-pure _ (first-Served p r routes i done by_done)
                  ])
                ]))
      ]

  pub Served-try_streams :
      (a : Attempt) (routes : List SelectedRoute) (i : ℕ) (last : Option Error)
      (result : ChatResult)
      → ServedFrom routes i (try_streams P p a routes i last result)
  unfolding try_streams
  Served-try_streams a [] i last result =
      Returns-give_up P p (Served p [] i) a last result (failure-Served p [] i result)
  Served-try_streams a (r ∷ routes) i last result =
      let D = Served p (r ∷ routes) i in
      let result' = route_result r i result in
      elim (Option-cases (lookup r.provider_instance p.upstreams)) [
        | inl e ↦
            rw (e, try_streams)
              (Returns-Served p r routes i (Served-try_streams a routes (suc i) _ result))
        | inr (up, e) ↦
            rw (e, try_streams)
              (Returns-bind (Returns-elapsed P p D _) λ t _.
                Returns-bind (Returns-call _ (λ a. tt)) (elim [
                  | err e ↦ λ _.
                      Returns-attempt_failed P p D a _ result' e _
                        (failure-Served p (r ∷ routes) i result')
                        (Returns-Served p r routes i
                          (Served-try_streams a routes (suc i) (some e) result'))
                  | ok chunks ↦ λ _.
                      let by = ServedBy-record p r i result up e in
                      Returns-pure _ (
                        first-Served p r routes i _ (record {
                          index_told = by.index_told;
                          provider_told = by.provider_told;
                          model_told = by.model_told;
                          configured = by.configured;
                        }))
                ]))
      ]

pub nth-take :
    (k n : ℕ) (routes : List SelectedRoute) {r : SelectedRoute}
    → nth k (take n routes) ≡ some r
    → (k < n) × (nth k routes ≡ some r)
nth-take k zero routes h = ground (arith, h)
nth-take k (suc n) [] h = ground (arith, h)
nth-take zero (suc n) (x ∷ routes) h = (omega arith, h)
nth-take (suc k) (suc n) (x ∷ routes) h =
    let (below, there) = nth-take k n routes h in (omega arith, there)
