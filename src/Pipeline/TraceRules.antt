-- ===== src/Pipeline/TraceRules.antt =====
-- One rule for each way to build an action: what it sends.
use vulpes_core.Base.{
  String, ◌≡◌, refl, ◌∙◌, ap, Bool, true, false, if◌then◌else◌, List, [], ◌∷◌, ◌++◌,
}
use vulpes_core.Base.Dict.{Dict}
use vulpes_core.Capabilities.{GatewayEvent}
use vulpes_core.Queue.{Queue}
use vulpes_core.Pipeline.Exec.{
  Exit, next, done, panic, Exec, pure, finish, fault, call, ◌>>=◌, go_on,
}
use vulpes_core.Pipeline.Events.{enqueue_event, update_shared}
use vulpes_core.Pipeline.Trace.{
  Action, send, share, Label, labels, labels-append, act, replay, replay-append, Says, Run, Emits,
}

-- Nothing is sent.
abbrev pub Silent : {A : Type 0} → (A → Type 0) → A → List Label → Type 0
Silent N a ls = (ls ≡ []) × N a

module _ {W R A : Type 0} {N : A → List Label → Type 0} {D : R → List Label → Type 0} where
  pub Emits-pure : (a : A) → N a [] → Emits {W = W} N D (pure a)
  unfolding pure replay
  Emits-pure a h = record {
    at = λ w. record { exit = next a; acts = []; after = w; runs = λ q. refl; says = h };
  }

  pub Emits-finish : (r : R) → D r [] → Emits {W = W} N D (finish r)
  unfolding finish replay
  Emits-finish r h = record {
    at = λ w. record { exit = done r; acts = []; after = w; runs = λ q. refl; says = h };
  }

  pub Emits-fault : Emits {W = W} N D fault
  unfolding fault replay
  Emits-fault = record {
    at = λ w. record { exit = panic; acts = []; after = w; runs = λ q. refl; says = tt };
  }

  pub Emits-call : (f : W → A × W) → ((a : A) → N a []) → Emits {W = W} N D (call f)
  unfolding call replay
  Emits-call f h = record {
    at = λ w. record {
      exit = next (f w).0;
      acts = [];
      after = (f w).1;
      runs = λ q. refl;
      says = h (f w).0;
    };
  }

  pub Emits-if :
      (b : Bool) {m n : Exec W R A} → Emits N D m → Emits N D n → Emits N D (if b then m else n)
  Emits-if true hm hn = hm
  Emits-if false hm hn = hn

  -- Each branch may use what is known of the test there.
  pub Emits-if_known :
      (b : Bool) {m n : Exec W R A}
      → (b ≡ true → Emits N D m)
      → (b ≡ false → Emits N D n)
      → Emits N D (if b then m else n)
  Emits-if_known true hm hn = hm refl
  Emits-if_known false hm hn = hn refl

module _ {W R : Type 0} {N : Unit {0} → List Label → Type 0} {D : R → List Label → Type 0} where
  pub Emits-enqueue_event :
      (ev : GatewayEvent)
      → N tt ((ev.request_id, ev.event_type) ∷ [])
      → Emits {W = W} N D (enqueue_event ev)
  unfolding enqueue_event replay act
  Emits-enqueue_event ev h = record {
    at = λ w. record { exit = next tt; acts = send ev ∷ []; after = w; runs = λ q. refl; says = h };
  }

  pub Emits-update_shared :
      (id : String) (props : Dict String) → N tt [] → Emits {W = W} N D (update_shared id props)
  unfolding update_shared replay act
  Emits-update_shared id props h = record {
    at = λ w. record {
      exit = next tt;
      acts = share id props ∷ [];
      after = w;
      runs = λ q. refl;
      says = h;
    };
  }

module _ {R B : Type 0} (N : B → List Label → Type 0) (D : R → List Label → Type 0) where
  -- What an action that follows `ls` must meet.
  abbrev pub Follows : {W : Type 0} → List Label → Exec W R B → Type 0
  Follows ls m = Emits (λ b more. N b (ls ++ more)) (λ r more. D r (ls ++ more)) m

  Says-append :
      (e : Exit R B) (acts more : List Action)
      → Says (λ b ls. N b (labels acts ++ ls)) (λ r ls. D r (labels acts ++ ls)) e (labels more)
      → Says N D e (labels (acts ++ more))
  Says-append (next b) acts more h = rw labels-append h
  Says-append (done r) acts more h = rw labels-append h
  Says-append panic acts more h = tt

module _ {W R A B : Type 0} {N : B → List Label → Type 0} {D : R → List Label → Type 0} where
  Run-next :
      (m : Exec W R A) (f : A → Exec W R B) (w w' : W) (a : A) (acts : List Action)
      → ((q : Queue W)
          → m (record { events = q; world = w })
            ≡ (next a, record { events = replay acts q; world = w' }))
      → Run (λ b more. N b (labels acts ++ more)) (λ r more. D r (labels acts ++ more)) (f a) w'
      → Run N D (m >>= f) w
  unfolding ◌>>=◌
  Run-next m f w w' a acts runs rest = record {
    exit = rest.exit;
    acts = acts ++ rest.acts;
    after = rest.after;
    runs = λ q. ap (λ x. go_on x.0 f x.1) (runs q) ∙ rw replay-append (rest.runs (replay acts q));
    says = Says-append N D rest.exit acts rest.acts rest.says;
  }

  Run-bind :
      {M : A → List Label → Type 0} {E : R → List Label → Type 0} (m : Exec W R A)
      (f : A → Exec W R B) (w w' : W) (e : Exit R A) (acts : List Action)
      → ((q : Queue W)
          → m (record { events = q; world = w })
            ≡ (e, record { events = replay acts q; world = w' }))
      → Says M E e (labels acts)
      → ((r : R) (ls : List Label) → E r ls → D r ls)
      → ((a : A) (ls : List Label) → M a ls → Follows N D ls (f a))
      → Run N D (m >>= f) w
  unfolding ◌>>=◌
  Run-bind {M} {E} m f w w' (next a) acts runs says ends follows =
      Run-next m f w w' a acts runs ((follows a (labels acts) says).at w')
  Run-bind {M} {E} m f w w' (done r) acts runs says ends follows = record {
    exit = done r;
    acts = acts;
    after = w';
    runs = λ q. ap (λ x. go_on x.0 f x.1) (runs q);
    says = ends r (labels acts) says;
  }
  Run-bind {M} {E} m f w w' panic acts runs says ends follows = record {
    exit = panic;
    acts = acts;
    after = w';
    runs = λ q. ap (λ x. go_on x.0 f x.1) (runs q);
    says = tt;
  }

  pub Emits-bind :
      {M : A → List Label → Type 0} {E : R → List Label → Type 0} {m : Exec W R A}
      {f : A → Exec W R B}
      → Emits M E m
      → ((r : R) (ls : List Label) → E r ls → D r ls)
      → ((a : A) (ls : List Label) → M a ls → Follows N D ls (f a))
      → Emits N D (m >>= f)
  Emits-bind {M} {E} {m} {f} h ends follows = record {
    at = λ w.
        let r = h.at w in
        Run-bind {M = M} {E = E} m f w r.after r.exit r.acts r.runs r.says ends follows;
  }

  -- An action that sends nothing leaves to the next one what is to be met.
  pub Emits-skip :
      {M : A → Type 0} {E : R → Type 0} {m : Exec W R A} {f : A → Exec W R B}
      → Emits (Silent M) (Silent E) m
      → ((r : R) → E r → D r [])
      → ((a : A) → M a → Emits N D (f a))
      → Emits N D (m >>= f)
  Emits-skip h ends follows =
      Emits-bind h (λ r ls s. rw s.0 (ends r s.1)) (λ a ls s. rw s.0 (follows a s.1))

  pub Emits-call_bind :
      (g : W → A × W) {f : A → Exec W R B} → ((a : A) → Emits N D (f a)) → Emits N D (call g >>= f)
  Emits-call_bind g follows =
      Emits-bind {M = Silent (λ a. Unit)} {E = D} (Emits-call g (λ a. (refl, tt))) (λ r ls h. h)
        (λ a ls s. rw s.0 (follows a))

module _ {R A : Type 0} (M N : A → List Label → Type 0) (E D : R → List Label → Type 0) where
  Says-weaken :
      (e : Exit R A) (ls : List Label)
      → Says M E e ls
      → ((r : R) → E r ls → D r ls)
      → ((a : A) → M a ls → N a ls)
      → Says N D e ls
  Says-weaken (next a) ls h ends goes_on = goes_on a h
  Says-weaken (done r) ls h ends goes_on = ends r h
  Says-weaken panic ls h ends goes_on = tt

module _ {R A : Type 0} {M N : A → List Label → Type 0} {E D : R → List Label → Type 0} where
  pub Emits-weaken :
      {W : Type 0} {m : Exec W R A}
      → Emits M E m
      → ((r : R) (ls : List Label) → E r ls → D r ls)
      → ((a : A) (ls : List Label) → M a ls → N a ls)
      → Emits N D m
  Emits-weaken {W} {m} h ends goes_on = record {
    at = λ w.
        let r = h.at w in
        record {
          exit = r.exit;
          acts = r.acts;
          after = r.after;
          runs = r.runs;
          says =
              Says-weaken M N E D r.exit (labels r.acts) r.says (λ x. ends x (labels r.acts))
                (λ x. goes_on x (labels r.acts));
        };
  }
