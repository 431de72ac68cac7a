-- ===== src/Pipeline/Holds.antt =====
-- What an action leaves of the world: one rule for each way to build an action.
use vulpes_core.Base.{Bool, true, false, if◌then◌else◌}
use vulpes_core.Pipeline.Exec.{
  Gateway, Exit, next, done, panic, Exec, pure, finish, fault, call, ◌>>=◌, go_on,
}
use vulpes_core.Pipeline.Post.{Meets, Returns}
use vulpes_core.Capabilities.{GatewayEvent}
use vulpes_core.Base.{String}
use vulpes_core.Base.Dict.{Dict}
use vulpes_core.Pipeline.Events.{enqueue_event, update_shared}

-- A value meets `N` with the world, a reply `D`.
abbrev pub Leaves : {W R A : Type 0} → (A → W → Type 0) → (R → W → Type 0) → Exit R A → W → Type 0
Leaves N D (next a) w = N a w
Leaves N D (done r) w = D r w
Leaves N D panic w = Unit

-- From a world with `Q`.
pub record Holds {W R A : Type 0} (Q : W → Type 0) (N : A → W → Type 0) (D : R → W → Type 0)
    (m : Exec W R A) : Type 0 where
  pub at : (g : Gateway W) → Q g.world → Leaves N D (m g).0 (m g).1.world

module _ {W R A : Type 0} (N : A → W → Type 0) (D : R → W → Type 0) where
  Leaves-Meets :
      (M : A → Type 0) (E : R → Type 0) (e : Exit R A) (w : W)
      → Meets M E e
      → ((a : A) → M a → N a w)
      → ((r : R) → E r → D r w)
      → Leaves N D e w
  Leaves-Meets M E (next a) w h goes_on ends = goes_on a h
  Leaves-Meets M E (done r) w h goes_on ends = ends r h
  Leaves-Meets M E panic w h goes_on ends = tt

module _ {W R A : Type 0} {Q : W → Type 0} {N : A → W → Type 0} {D : R → W → Type 0} where
  pub Holds-pure : (a : A) → ((w : W) → Q w → N a w) → Holds Q N D (pure a)
  unfolding pure
  Holds-pure a h = record { at = λ g q. h g.world q }

  pub Holds-finish : (r : R) → ((w : W) → Q w → D r w) → Holds Q N D (finish r)
  unfolding finish
  Holds-finish r h = record { at = λ g q. h g.world q }

  pub Holds-fault : Holds Q N D fault
  unfolding fault
  Holds-fault = record { at = λ g q. tt }

  pub Holds-call : (f : W → A × W) → ((w : W) → Q w → N (f w).0 (f w).1) → Holds Q N D (call f)
  unfolding call
  Holds-call f h = record { at = λ g q. h g.world q }

  pub Holds-if :
      (b : Bool) {m n : Exec W R A}
      → Holds Q N D m
      → Holds Q N D n
      → Holds Q N D (if b then m else n)
  Holds-if true hm hn = hm
  Holds-if false hm hn = hn

  -- What holds of the exit alone.
  pub Holds-Returns :
      {M : A → Type 0} {E : R → Type 0} {m : Exec W R A}
      → Returns M E m
      → ((a : A) (w : W) → M a → N a w)
      → ((r : R) (w : W) → E r → D r w)
      → Holds Q N D m
  Holds-Returns {M} {E} {m} h goes_on ends = record {
    at = λ g q.
        Leaves-Meets N D M E (m g).0 (m g).1.world (h.at g) (λ a. goes_on a (m g).1.world)
          (λ r. ends r (m g).1.world);
  }

module _ {W R : Type 0} {Q : W → Type 0} {N : Unit {0} → W → Type 0} {D : R → W → Type 0} where
  pub Holds-enqueue_event :
      (ev : GatewayEvent) → ((w : W) → Q w → N tt w) → Holds Q N D (enqueue_event ev)
  unfolding enqueue_event
  Holds-enqueue_event ev h = record { at = λ g q. h g.world q }

  pub Holds-update_shared :
      (id : String) (props : Dict String)
      → ((w : W) → Q w → N tt w)
      → Holds Q N D (update_shared id props)
  unfolding update_shared
  Holds-update_shared id props h = record { at = λ g q. h g.world q }

module _ {W R A B : Type 0} {M : A → W → Type 0} {N : B → W → Type 0} {D : R → W → Type 0} where
  Leaves-go_on :
      (e : Exit R A) (f : A → Exec W R B) (g : Gateway W)
      → Leaves M D e g.world
      → ((a : A) → Holds (M a) N D (f a))
      → Leaves N D (go_on e f g).0 (go_on e f g).1.world
  Leaves-go_on (next a) f g h k = (k a).at g h
  Leaves-go_on (done r) f g h k = h
  Leaves-go_on panic f g h k = h

module _ {W R A B : Type 0} {Q : W → Type 0} {M : A → W → Type 0} {N : B → W → Type 0}
    {D : R → W → Type 0} where
  pub Holds-bind :
      {m : Exec W R A} {f : A → Exec W R B}
      → Holds Q M D m
      → ((a : A) → Holds (M a) N D (f a))
      → Holds Q N D (m >>= f)
  unfolding ◌>>=◌
  Holds-bind {m} {f} h k = record { at = λ g q. Leaves-go_on (m g).0 f (m g).1 (h.at g q) k }
