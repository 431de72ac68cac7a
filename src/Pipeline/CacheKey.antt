-- ===== src/Pipeline/CacheKey.antt =====
-- The keys of the response cache: the one that ExecuteChat looks up, and the one under which
-- afterSuccess stores.
use text.Mathlib.TextLemmas.{append_cancel_left}
use vulpes_core.Base.{
  ℕ, String, ◌<>◌, ◌≡◌, ◌≢◌, refl, sym, ◌∙◌, Option, none, some, [], ◌∷◌, arith, ◌==◌,
  if◌then◌else◌, eq_refl, inl, inr, Bool-cases,
}
use vulpes_core.Base.Dict.{Dict, lookup, insert, merge, lookup-insert, lookup-merge, last_or}
use vulpes_core.Capabilities.{
  ChatCompletionRequest, ChatCompletionResponse, Identity, SelectedRoute,
}
use vulpes_core.Pipeline.Platform.{Platform}
use vulpes_core.Pipeline.State.{Pipeline}
use vulpes_core.Pipeline.Props.{
  insert_marshalled, encoded, add_timing, route_event_props, with_transcript_props, cache_key,
}

-- The map has the key.
pub record HasKey (j : String) (m : Dict String) : Type 0 where
  pub found : lookup j m ≢ none

HasKey-insert : (j k v : String) (m : Dict String) → HasKey j m → HasKey j (insert k v m)
HasKey-insert j k v m h = record {
  found = λ gone. ground (arith, lookup-insert j k v m, h.found, gone);
}

insert-HasKey : (k v : String) (m : Dict String) → HasKey k (insert k v m)
insert-HasKey k v m = record {
  found = λ gone. ground (arith, lookup-insert k k v m, eq_refl k, gone);
}

last_or-found :
    (j : String) (old : Option String) (src : Dict String) → old ≢ none → last_or j old src ≢ none
unfolding last_or
last_or-found j old [] h = h
last_or-found j old ((k, w) ∷ src) h =
    last_or-found j (if k == j then some w else old) src (λ gone. ground (arith, h, gone))

HasKey-merge : (j : String) (dst src : Dict String) → HasKey j dst → HasKey j (merge dst src)
HasKey-merge j dst src h = record {
  found = λ gone. last_or-found j (lookup j dst) src h.found (sym (lookup-merge j dst src) ∙ gone);
}

last_or-lookup :
    (j : String) (src : Dict String) (old : Option String)
    → lookup j src ≢ none
    → last_or j old src ≢ none
unfolding last_or lookup
last_or-lookup j [] old h = absurd (h refl)
last_or-lookup j ((k, w) ∷ src) old h = elim (Bool-cases (k == j)) [
  | inl e ↦ last_or-found j _ src (λ gone. ground (arith, e, gone))
  | inr e ↦ last_or-lookup j src (if k == j then some w else old) (λ gone. h (rw (e, gone) refl))
]

-- `maps.Copy` into an empty map, as the loops write it out.
HasKey-merge_copy : (j : String) (src : Dict String) → HasKey j src → HasKey j (merge [] src)
HasKey-merge_copy j src h = record {
  found = λ gone. last_or-lookup j src _ h.found (sym (lookup-merge j [] src) ∙ gone);
}

HasKey-insert_marshalled :
    (j k : String) (v : Option String) (m : Dict String)
    → HasKey j m
    → HasKey j (insert_marshalled k v m)
HasKey-insert_marshalled j k none m h = h
HasKey-insert_marshalled j k (some v) m h = HasKey-insert j k v m h

route_event_props-HasKey :
    (base : Dict String) (r : SelectedRoute) (i t : ℕ)
    → HasKey "duration_ms" (route_event_props base r i t)
unfolding route_event_props add_timing
route_event_props-HasKey base r i t = HasKey-merge "duration_ms" _ r.properties (
    HasKey-insert "duration_ms" "fallback_index" _ _ (
      HasKey-insert "duration_ms" "route_model" _ _
        (HasKey-insert "duration_ms" "route_provider" _ _ (insert-HasKey "duration_ms" _ _))))

module _ {W : Type 0} (P : Platform W) (p : Pipeline W) where
  HasKey-with_transcript_props :
      (base : Dict String) (req : ChatCompletionRequest) (resp : ChatCompletionResponse)
      → HasKey "duration_ms" base
      → HasKey "duration_ms" (with_transcript_props P p base req resp)
  unfolding with_transcript_props
  HasKey-with_transcript_props base req resp h =
      elim (Bool-cases p.cfg.observability.capture_payloads) [
        | inl e ↦
            rw (e, with_transcript_props)
              (HasKey-insert "duration_ms" "payloads_captured" "true" _ (
                HasKey-insert_marshalled "duration_ms" "response_json" (P.marshal_response resp) _ (
                  HasKey-insert_marshalled "duration_ms" "request_json" (P.marshal_request req) _
                    (HasKey-merge_copy "duration_ms" base h))))
        | inr e ↦ rw (e, with_transcript_props) h
      ]

  -- The properties that execute_non_stream hands to after_success, whose key it stores under.
  abbrev pub stored_props :
      Dict String
      → SelectedRoute
      → ℕ
      → ℕ
      → ChatCompletionRequest
      → ChatCompletionResponse
      → Dict String
  stored_props props r i t req resp =
      with_transcript_props P p (route_event_props props r i t) req resp

  -- Where equal encodings come from property maps that both have the key duration_ms or both lack
  -- it, and the caller gives no property of that name, the key that a request looks up in the cache
  -- and the key under which its response is stored are the SHA-256 of two different texts: whatever
  -- the route, the index, the time and the response, a stored response is not found again.
  pub cache_key-stored :
      ((m m' : Dict String)
        → P.marshal_properties m ≡ P.marshal_properties m'
        → lookup "duration_ms" m ≡ none
        → lookup "duration_ms" m' ≡ none)
      → (req : ChatCompletionRequest) (id : Identity) (props : Dict String)
      → (r : SelectedRoute) (i t : ℕ) (resp : ChatCompletionResponse)
      → lookup "duration_ms" props ≡ none
      → (looked_up stored : String) × (cache_key P req id props ≡ P.sha256_hex looked_up)
        × (cache_key P req id (stored_props props r i t req resp) ≡ P.sha256_hex stored)
        × (looked_up ≢ stored)
  unfolding cache_key
  cache_key-stored shows req id props r i t resp absent =
      let stored = stored_props props r i t req resp in
      let before = encoded (P.marshal_request req) in
      let key =
        HasKey-with_transcript_props (route_event_props props r i t) req resp
          (route_event_props-HasKey props r i t) in
      (
        before <> id.tenant_id <> P.marshal_properties props,
        before <> id.tenant_id <> P.marshal_properties stored,
        refl,
        refl,
        (λ equal.
            let texts = append_cancel_left id.tenant_id _ _ (append_cancel_left before _ _ equal) in
            key.found (shows props stored texts absent)),
      )
