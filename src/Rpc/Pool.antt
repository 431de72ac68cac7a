-- ===== src/Rpc/Pool.antt =====
-- Callers that reconnect at the same time: the connections of one client, before its Close. The two
-- parts of `reconnect` that hold the lock are steps, which other callers may come between.
use vulpes_core.Base.{
  suc, ◌≡◌, ◌≢◌, ◌<◌, ◌⊎◌, inl, inr, refl, Bool, true, false, Option, none, some, Result, ok, eqb,
  if◌then◌else◌, arith, Bool-cases,
}
use vulpes_core.Rpc.Wire.{Method, CallError, Conn, Transport}
use vulpes_core.Rpc.Client.{swap}

pub record Pool : Type 0 where
  pub client : Conn
  -- Whether a connection is open.
  pub opened : Conn → Bool
  -- The number of the next connection.
  pub fresh : Conn
  -- The callers between the two parts of `reconnect`: by the new connection that each holds, the
  -- one that it found stale.
  pub waiting : Conn → Option Conn

-- A function changed at one argument.
abbrev pub at : {A : Type 0} → Conn → A → (Conn → A) → Conn → A
at c a f d = if eqb d c then a else f d

-- After DialRPCPlugin.
abbrev pub dialed_pool : Pool
dialed_pool = record { client = 0; opened = λ c. eqb c 0; fresh = 1; waiting = λ c. none }

-- The connections as a transport; what a call answers is an argument.
abbrev pub pool_transport :
    ((Req Resp : Type 0) → Method Req Resp → Conn → Req → Pool → Result CallError Resp)
    → Transport Pool
pool_transport answers = record {
  call_on = λ method conn req p. (answers _ _ method conn req p, p);
  dial = λ p. (ok p.fresh, record p { opened = at p.fresh true p.opened; fresh = suc p.fresh });
  close = λ conn p. record p { opened = at conn false p.opened };
  client = λ p. p.client;
  set_client = λ conn p. record p { client = conn };
}

module _
    (answers : (Req Resp : Type 0)
      → Method Req Resp
      → Conn
      → Req
      → Pool
      → Result CallError Resp) where
  abbrev pub pool : Transport Pool
  pool = pool_transport answers

  -- A caller that found a connection stale dials, outside the lock; another one ends its wait.
  pub data Step : Pool → Pool → Type 0 where
    dials :
        (p : Pool) (stale : Conn)
        → Step p (record (pool.dial p).1 { waiting = at p.fresh (some stale) p.waiting })
    swaps :
        (p : Pool) (stale fresh : Conn)
        → p.waiting fresh ≡ some stale
        → Step p (record (swap pool stale fresh p).1 { waiting = at fresh none p.waiting })

  pub data Run : Pool → Pool → Type 0 where
    stop : (p : Pool) → Run p p
    next : (p q r : Pool) → Step p q → Run q r → Run p r

  -- The client's connection is open, and so is that of each waiting caller; no other one is.
  pub record IsTight (p : Pool) : Type 0 where
    pub current : p.opened p.client ≡ true
    pub old : p.client < p.fresh
    pub accounted :
        (c : Conn) → p.opened c ≡ true → (c ≡ p.client) ⊎ ((s : Conn) × (p.waiting c ≡ some s))
    pub held :
        (c s : Conn) → p.waiting c ≡ some s → (p.opened c ≡ true) × (c ≢ p.client) × (c < p.fresh)

  dialed_pool-IsTight : IsTight dialed_pool
  dialed_pool-IsTight = record {
    current = refl;
    old = ground arith;
    accounted = λ c. λ h. inl (ground (arith, h));
    held = λ c. λ s. λ h. ground (arith, h);
  }

  dials-IsTight :
      (p : Pool) (stale : Conn)
      → IsTight p
      → IsTight (record (pool.dial p).1 { waiting = at p.fresh (some stale) p.waiting })
  dials-IsTight p stale h = record {
    current = ground (arith, h.current, h.old);
    old = ground (arith, h.old);
    accounted = λ c. λ e. elim (Bool-cases (eqb c p.fresh)) [
      | inl new ↦ inr (stale, ground (arith, new))
      | inr known ↦ elim (h.accounted c (ground (arith, e, known))) [
        | inl same ↦ inl same
        | inr (s, held) ↦ inr (s, ground (arith, held, known))
      ]
    ];
    held = λ c. λ s. λ e. ground (arith, h.old, h.held c s, e);
  }

  -- The caller that is first, and one that is not.
  first-IsTight :
      (p : Pool) (stale fresh : Conn)
      → p.client ≡ stale
      → p.waiting fresh ≡ some stale
      → IsTight p
      → IsTight (record p {
        client = fresh;
        opened = at stale false p.opened;
        waiting = at fresh none p.waiting;
      })
  first-IsTight p stale fresh first waits h = record {
    current = ground (arith, first, h.held fresh stale waits);
    old = ground (arith, first, h.held fresh stale waits);
    accounted = λ c. λ e. elim (Bool-cases (eqb c fresh)) [
      | inl new ↦ inl (ground (arith, new))
      | inr other ↦ elim (h.accounted c (ground (arith, e))) [
        | inl same ↦ ground (arith, e, same, first)
        | inr (s, held) ↦ inr (s, ground (arith, held, other))
      ]
    ];
    held = λ c. λ s. λ e. ground (arith, h.held c s, e, first);
  }

  late-IsTight :
      (p : Pool) (stale fresh : Conn)
      → p.waiting fresh ≡ some stale
      → IsTight p
      → IsTight (record p { opened = at fresh false p.opened; waiting = at fresh none p.waiting })
  late-IsTight p stale fresh waits h = record {
    current = ground (arith, h.current, h.held fresh stale waits);
    old = h.old;
    accounted = λ c. λ e. elim (Bool-cases (eqb c fresh)) [
      | inl new ↦ ground (arith, e, new)
      | inr other ↦ elim (h.accounted c (ground (arith, e, other))) [
        | inl same ↦ inl same
        | inr (s, held) ↦ inr (s, ground (arith, held, other))
      ]
    ];
    held = λ c. λ s. λ e. ground (arith, h.held c s, e);
  }

  Step-IsTight : (p q : Pool) → Step p q → IsTight p → IsTight q
  unfolding swap
  Step-IsTight _ _ (dials p stale) h = dials-IsTight p stale h
  Step-IsTight _ _ (swaps p stale fresh waits) h = elim (Bool-cases (eqb p.client stale)) [
    | inl same ↦ rw same (first-IsTight p stale fresh (ground (arith, same)) waits h)
    | inr other ↦ rw other (late-IsTight p stale fresh waits h)
  ]

  Run-IsTight : (p q : Pool) → Run p q → IsTight p → IsTight q
  Run-IsTight _ _ (stop p) h = h
  Run-IsTight _ _ (next p q r s run) h = Run-IsTight q r run (Step-IsTight p q s h)

  -- However many callers reconnect, and in whatever order: the client's connection is an open one,
  -- and when no caller is between the two parts of `reconnect`, every other connection that was
  -- dialed is closed.
  pub no_connection_left :
      (p : Pool)
      → Run dialed_pool p
      → (p.opened p.client ≡ true)
        × (((c : Conn) → p.waiting c ≡ none) → (c : Conn) → p.opened c ≡ true → c ≡ p.client)
  no_connection_left p run =
      let h = Run-IsTight dialed_pool p run dialed_pool-IsTight in
      (
        h.current,
        λ idle c e. elim (h.accounted c e) [
          | inl same ↦ same
          | inr (s, held) ↦ ground (arith, held, idle c)
        ],
      )
