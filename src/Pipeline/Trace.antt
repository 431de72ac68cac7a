-- ===== src/Pipeline/Trace.antt =====
-- What an action sends to the event queue. An action is described by its exit, by the operations on
-- the queue that it asks for, and by the world that it leaves, none of which may depend on the queue.
use vulpes_core.Base.{String, ◌≡◌, refl, ap, List, [], ◌∷◌, ◌++◌, map}
use vulpes_core.Base.Dict.{Dict}
use vulpes_core.Capabilities.{GatewayEvent}
use vulpes_core.Queue.{Queue, enqueue}
use vulpes_core.Pipeline.Exec.{Exit, next, done, panic, Exec}
use vulpes_core.Pipeline.Events.{share_properties}

-- An operation on the queue.
pub data Action : Type 0 where
  send : GatewayEvent → Action
  share : String → Dict String → Action

-- The request of an event, and its type.
abbrev pub Label : Type 0
Label = String × String

abbrev pub labels : List Action → List Label
labels [] = []
labels (send ev ∷ acts) = (ev.request_id, ev.event_type) ∷ labels acts
labels (share id props ∷ acts) = labels acts

pub labels-append : (acts more : List Action) → labels (acts ++ more) ≡ labels acts ++ labels more
labels-append [] more = refl
labels-append (send ev ∷ acts) more =
    ap (λ ls. (ev.request_id, ev.event_type) ∷ ls) (labels-append acts more)
labels-append (share id props ∷ acts) more = labels-append acts more

module _ {W : Type 0} where
  unfoldable pub act : Action → Queue W → Queue W
  unfolding share_properties
  act (send ev) q = (enqueue ev q).0
  act (share id props) q = record q { events = map (share_properties id props) q.events }

  unfoldable pub replay : List Action → Queue W → Queue W
  unfolding act
  replay [] q = q
  replay (a ∷ acts) q = replay acts (act a q)

  pub replay-append :
      (acts more : List Action) (q : Queue W)
      → replay (acts ++ more) q ≡ replay more (replay acts q)
  unfolding replay
  replay-append [] more q = refl
  replay-append (a ∷ acts) more q = replay-append acts more (act a q)

-- What an exit and the labels of the events before it meet.
abbrev pub Says :
    {R A : Type 0}
    → (A → List Label → Type 0)
    → (R → List Label → Type 0)
    → Exit R A
    → List Label
    → Type 0
Says N D (next a) ls = N a ls
Says N D (done r) ls = D r ls
Says N D panic ls = Unit

-- One run from the world `w`, whatever the queue is.
pub record Run {W R A : Type 0} (N : A → List Label → Type 0) (D : R → List Label → Type 0)
    (m : Exec W R A) (w : W) : Type 0 where
  pub exit : Exit R A
  pub acts : List Action
  pub after : W
  pub runs :
      (q : Queue W)
      → m (record { events = q; world = w })
        ≡ (exit, record { events = replay acts q; world = after })
  pub says : Says N D exit (labels acts)

pub record Emits {W R A : Type 0} (N : A → List Label → Type 0) (D : R → List Label → Type 0)
    (m : Exec W R A) : Type 0 where
  pub at : (w : W) → Run N D m w
