-- ===== src/Pipeline/Exec.antt =====
-- The code of a request as actions on the queue of events and on the world outside the gateway. An
-- action goes on with a value, ends the request with a reply, or panics.
use vulpes_core.Queue.{Queue}

pub record Gateway (W : Type 0) : Type 0 where
  pub events : Queue W
  pub world : W

pub data Exit (R A : Type 0) : Type 0 where
  next : A → Exit R A
  done : R → Exit R A
  panic : Exit R A

abbrev pub Exec : Type 0 → Type 0 → Type 0 → Type 0
Exec W R A = Gateway W → Exit R A × Gateway W

module _ {W R A : Type 0} where
  unfoldable pub pure : A → Exec W R A
  pure a g = (next a, g)

  -- An early `return`.
  unfoldable pub finish : R → Exec W R A
  finish r g = (done r, g)

  -- A nil pointer is used.
  unfoldable pub fault : Exec W R A
  fault g = (panic, g)

  -- A call of something outside the gateway.
  unfoldable pub call : (W → A × W) → Exec W R A
  call f g = let (a, w) = f g.world in (next a, record g { world = w })

module _ {W R A B : Type 0} where
  abbrev pub go_on : Exit R A → (A → Exec W R B) → Exec W R B
  go_on (next a) f g = f a g
  go_on (done r) f g = (done r, g)
  go_on panic f g = (panic, g)

  infixl 5 ◌>>=◌ ◌>>◌
  -- To open this is to open the actions above.
  unfoldable pub ◌>>=◌ : Exec W R A → (A → Exec W R B) → Exec W R B
  unfolding pure finish fault call
  ◌>>=◌ m f g = go_on (m g).0 f (m g).1

  abbrev pub ◌>>◌ : Exec W R A → Exec W R B → Exec W R B
  m >> n = m >>= λ _. n
