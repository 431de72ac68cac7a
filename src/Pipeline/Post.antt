-- ===== src/Pipeline/Post.antt =====
-- Postconditions of actions, one rule for each way to build an action. None of them panics.
use vulpes_core.Base.{◌≡◌, refl, Bool, true, false, if◌then◌else◌}
use vulpes_core.Pipeline.Exec.{
  Gateway, Exit, next, done, panic, Exec, pure, finish, call, ◌>>=◌, go_on,
}

-- A value meets `N`, a reply `D`.
abbrev pub Meets : {R A : Type 0} → (A → Type 0) → (R → Type 0) → Exit R A → Type 0
Meets N D (next a) = N a
Meets N D (done r) = D r
Meets N D panic = ⊥

pub record Returns {W R A : Type 0} (N : A → Type 0) (D : R → Type 0) (m : Exec W R A)
    : Type 0 where
  pub at : (g : Gateway W) → Meets N D (m g).0

module _ {W R A : Type 0} {N : A → Type 0} {D : R → Type 0} where
  pub Returns-pure : (a : A) → N a → Returns {W = W} N D (pure a)
  unfolding pure
  Returns-pure a h = record { at = λ g. h }

  pub Returns-finish : (r : R) → D r → Returns {W = W} {A = A} N D (finish r)
  unfolding finish
  Returns-finish r h = record { at = λ g. h }

  pub Returns-call : (f : W → A × W) → ((a : A) → N a) → Returns {W = W} N D (call f)
  unfolding call
  Returns-call f h = record { at = λ g. h (f g.world).0 }

  pub Returns-if :
      (b : Bool) {m n : Exec W R A}
      → (b ≡ true → Returns N D m)
      → (b ≡ false → Returns N D n)
      → Returns N D (if b then m else n)
  Returns-if true hm hn = hm refl
  Returns-if false hm hn = hn refl

module _ {W R A B : Type 0} {M : A → Type 0} {N : B → Type 0} {D : R → Type 0} where
  Returns-go_on :
      (e : Exit R A) (f : A → Exec W R B) (g : Gateway W)
      → Meets M D e
      → ((a : A) → M a → Returns N D (f a))
      → Meets N D (go_on e f g).0
  Returns-go_on (next a) f g h k = (k a h).at g
  Returns-go_on (done r) f g h k = h
  Returns-go_on panic f g h k = h

  pub Returns-bind :
      {m : Exec W R A} {f : A → Exec W R B}
      → Returns M D m
      → ((a : A) → M a → Returns N D (f a))
      → Returns N D (m >>= f)
  unfolding ◌>>=◌
  Returns-bind {m} {f} h k = record { at = λ g. Returns-go_on (m g).0 f (m g).1 (h.at g) k }

module _ {R A : Type 0} {M N : A → Type 0} {D E : R → Type 0} where
  Meets-weaken :
      (e : Exit R A) → Meets M D e → ((a : A) → M a → N a) → ((r : R) → D r → E r) → Meets N E e
  Meets-weaken (next a) h f k = f a h
  Meets-weaken (done r) h f k = k r h
  Meets-weaken panic h f k = h

  pub Returns-weaken :
      {W : Type 0} {m : Exec W R A}
      → Returns M D m
      → ((a : A) → M a → N a)
      → ((r : R) → D r → E r)
      → Returns N E m
  Returns-weaken {m} h f k = record { at = λ g. Meets-weaken (m g).0 (h.at g) f k }
