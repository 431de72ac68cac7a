-- ===== src/Pipeline/Protocol.antt =====
-- Which events a request sends, in which order.
use vulpes_core.Base.{String, ◌≡◌, refl, Bool, true, false, Option, none, some, List, [], ◌∷◌}
use vulpes_core.Base.Dict.{Dict}
use vulpes_core.Capabilities.{Error, Usage}
use vulpes_core.Pipeline.Platform.{Platform}
use vulpes_core.Pipeline.State.{Reply}
use vulpes_core.Pipeline.Exec.{Exec, ◌>>=◌}
use vulpes_core.Pipeline.Events.{emit, emit_error}
use vulpes_core.Pipeline.Trace.{Label, Emits}
use vulpes_core.Pipeline.TraceRules.{Silent, Emits-enqueue_event, Emits-bind, Emits-call_bind}

-- How a request ends: with an error, with a whole answer, or with the chunks of a stream.
pub data Outcome : Type 0 where
  failed : Outcome
  answered : Outcome
  streaming : Outcome

abbrev pub outcome : Reply → Outcome
outcome r = elim r.error [
  | some e ↦ failed
  | none ↦ elim r.result.stream [ some job ↦ streaming | none ↦ answered ]
]

-- The events of the attempts at a request that asks for a stream, or not. A blocking observer may fail after the event of success.
pub data Attempted (id : String) (stream : Bool) : Outcome → List Label → Type 0 where
  completed : stream ≡ false → Attempted id stream answered ((id, "request.completed") ∷ [])
  unobserved : Attempted id stream failed ((id, "request.completed") ∷ [])
  gave_up : Attempted id stream failed ((id, "request.failed") ∷ [])
  handed_over : stream ≡ true → Attempted id stream streaming []
  retried :
      {o : Outcome} {ls : List Label}
      → Attempted id stream o ls
      → Attempted id stream o ((id, "upstream.error") ∷ ls)

-- The events behind the start of a request.
pub data Begun (id : String) (stream : Bool) : Outcome → List Label → Type 0 where
  denied : Begun id stream failed []
  hit : stream ≡ false → Begun id stream answered ((id, "cache.hit") ∷ [])
  routed :
      {o : Outcome} {ls : List Label}
      → Attempted id stream o ls
      → Begun id stream o ((id, "route.selected") ∷ ls)

-- The events of a whole request.
pub data Protocol (id : String) (stream : Bool) : Outcome → List Label → Type 0 where
  not_begun : Protocol id stream failed []
  begun :
      {o : Outcome} {ls : List Label}
      → Begun id stream o ls
      → Protocol id stream o ((id, "request.started") ∷ ls)

abbrev pub Any : {A : Type 0} → A → Type 0
Any a = Unit

-- The reply is an error.
abbrev pub Fails : Reply → Type 0
Fails r = outcome r ≡ failed

-- An action that sends nothing, and does not end a request.
abbrev pub Steady : {W A : Type 0} → Exec W Reply A → Type 0
Steady m = Emits (Silent Any) (λ r ls. ⊥) m

-- A stage that sends nothing, and ends a request with an error only.
abbrev pub Quiet : {W A : Type 0} → Exec W Reply A → Type 0
Quiet m = Emits (Silent Any) (Silent Fails) m

module _ {W A B : Type 0} {N : B → List Label → Type 0} {D : Reply → List Label → Type 0} where
  pub Emits-step :
      {m : Exec W Reply A} {f : A → Exec W Reply B}
      → Steady m
      → ((a : A) → Emits N D (f a))
      → Emits N D (m >>= f)
  Emits-step h follows = Emits-bind h (λ r ls never. absurd never) (λ a ls s. rw s.0 (follows a))

module _ {W R : Type 0} {N : Unit {0} → List Label → Type 0} {D : R → List Label → Type 0}
    (P : Platform W) where
  pub Emits-emit :
      (event id tenant : String) (props : Dict String) (usage : Option Usage)
      → N tt ((id, event) ∷ [])
      → Emits N D (emit P event id tenant props usage)
  unfolding emit
  Emits-emit event id tenant props usage h =
      Emits-call_bind P.new_uuid λ event_id. Emits-call_bind P.now λ now. Emits-enqueue_event _ h

  pub Emits-emit_error :
      (event id tenant : String) (props : Dict String) (cause : Error)
      → N tt ((id, event) ∷ [])
      → Emits N D (emit_error P event id tenant props cause)
  unfolding emit_error
  Emits-emit_error event id tenant props cause h =
      Emits-call_bind P.new_uuid λ event_id. Emits-call_bind P.now λ now. Emits-enqueue_event _ h

module _ {W R A : Type 0} {N : A → List Label → Type 0} {D : R → List Label → Type 0}
    (P : Platform W) where
  pub Emits-emit_bind :
      (event id tenant : String) (props : Dict String) (usage : Option Usage)
      (k : Unit {0} → Exec W R A)
      → Emits (λ a ls. N a ((id, event) ∷ ls)) (λ r ls. D r ((id, event) ∷ ls)) (k tt)
      → Emits N D (emit P event id tenant props usage >>= k)
  Emits-emit_bind event id tenant props usage k h =
      Emits-bind {M = λ u ls. ls ≡ (id, event) ∷ []} {E = D}
        (Emits-emit P event id tenant props usage refl) (λ r ls d. d) (λ u ls e. rw e h)

  pub Emits-emit_error_bind :
      (event id tenant : String) (props : Dict String) (cause : Error) (k : Unit {0} → Exec W R A)
      → Emits (λ a ls. N a ((id, event) ∷ ls)) (λ r ls. D r ((id, event) ∷ ls)) (k tt)
      → Emits N D (emit_error P event id tenant props cause >>= k)
  Emits-emit_error_bind event id tenant props cause k h =
      Emits-bind {M = λ u ls. ls ≡ (id, event) ∷ []} {E = D}
        (Emits-emit_error P event id tenant props cause refl) (λ r ls d. d) (λ u ls e. rw e h)
