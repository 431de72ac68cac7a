-- ===== src/Rpc/Attempts.antt =====
-- How often a call goes to the plugin, and what its errors are to the pipeline.
use vulpes_core.Base.{
  ℕ, ◌≡◌, ◌⊎◌, inl, inr, refl, ap, ◌∙◌, true, List, ◌∷◌, none, Result, ok, err, eqb, arith,
  Bool-cases, Result-cases,
}
use vulpes_core.Capabilities.{Error, as_upstream, InvokeRequest}
use vulpes_core.Pipeline.Collect.{retryable}
use vulpes_core.Rpc.Wire.{Method, CallError, shutdown, failed, invoke_start, Conn, Transport}
use vulpes_core.Rpc.Client.{swap, reconnect, answer, again, recover, call}
use vulpes_core.Rpc.Methods.{Reader, invoke}

-- The same connections, with a list of those that calls went to, the last one first.
abbrev pub logged : {W : Type 0} → Transport W → Transport (W × List Conn)
logged t = record {
  call_on = λ method conn req (w, log).
      (let (r, w') = t.call_on method conn req w in (r, (w', conn ∷ log)));
  dial = λ (w, log). (let (r, w') = t.dial w in (r, (w', log)));
  close = λ conn (w, log). (t.close conn w, log);
  client = λ (w, log). t.client w;
  set_client = λ conn (w, log). (t.set_client conn w, log);
}

module _ {W : Type 0} (t : Transport W) where
  swap-logged :
      (stale fresh : Conn) (w : W) (log : List Conn)
      → swap (logged t) stale fresh (w, log)
        ≡ ((swap t stale fresh w).0, ((swap t stale fresh w).1, log))
  unfolding swap
  swap-logged stale fresh w log = elim (Bool-cases (eqb (t.client w) stale)) [
    | inl same ↦ rw same refl
    | inr other ↦ rw other refl
  ]

  reconnect-logged :
      (stale : Conn) (w : W) (log : List Conn)
      → reconnect (logged t) stale (w, log)
        ≡ ((reconnect t stale w).0, ((reconnect t stale w).1, log))
  unfolding reconnect
  reconnect-logged stale w log = elim (Bool-cases (eqb (t.client w) stale)) [
    | inr other ↦ rw other refl
    | inl same ↦ elim (Result-cases (t.dial w).0) [
      | inl (e, bad) ↦ rw (same, bad) refl
      | inr (fresh, good) ↦
          rw (same, good) (ap (λ (c, v). (ok c, v)) (swap-logged stale fresh (t.dial w).1 log))
    ]
  ]

  answer-logged :
      {Resp : Type 0} (out : Result CallError Resp × W) (log : List Conn)
      → answer (logged t) (out.0, (out.1, log)) ≡ ((answer t out).0, ((answer t out).1, log))
  answer-logged (ok resp, w) log = refl
  answer-logged (err e, w) log = refl

  -- What the list is after the second attempt.
  abbrev log_after : Result Error Conn → List Conn → List Conn
  log_after (ok conn) log = conn ∷ log
  log_after (err e) log = log

  again-logged :
      {Req Resp : Type 0} (method : Method Req Resp) (req : Req) (out : Result Error Conn × W)
      (log : List Conn)
      → again (logged t) method req (out.0, (out.1, log))
        ≡ ((again t method req out).0, ((again t method req out).1, log_after out.0 log))
  unfolding again
  again-logged method req (ok conn, w) log =
      answer-logged (t.call_on method conn req w) (conn ∷ log)
  again-logged method req (err e, w) log = refl

  -- How the list grows by a call whose first attempt went to a connection.
  abbrev pub AtMostTwice :
      {Resp : Type 0} → Conn → Result CallError Resp × W → List Conn → List Conn → Type 0
  AtMostTwice conn first log log' =
      (log' ≡ conn ∷ log)
      ⊎ ((next : Conn) × (log' ≡ next ∷ conn ∷ log)
          × (first.0 ≡ err shutdown)
          × ((reconnect t conn first.1).0 ≡ ok next))

  recover-logged :
      {Req Resp : Type 0} (method : Method Req Resp) (req : Req) (conn : Conn)
      (first : Result CallError Resp × W) (log : List Conn)
      → let out = recover (logged t) method req conn (first.0, (first.1, conn ∷ log)) in
        (out.0 ≡ (recover t method req conn first).0)
        × (out.1.0 ≡ (recover t method req conn first).1)
        × AtMostTwice conn first log out.1.1
  unfolding recover
  recover-logged method req conn (ok resp, w) log = (refl, refl, inl refl)
  recover-logged method req conn (err (failed text), w) log = (refl, refl, inl refl)
  recover-logged method req conn (err shutdown, w) log =
      let found = reconnect t conn w in
      let same : again (logged t) method req (reconnect (logged t) conn (w, conn ∷ log)) ≡ (
        (again t method req found).0,
        ((again t method req found).1, log_after found.0 (conn ∷ log)),
      ) =
        ap (λ out. again (logged t) method req out) (reconnect-logged conn w (conn ∷ log))
        ∙ again-logged method req found (conn ∷ log) in
      (
        ap (λ o. o.0) same,
        ap (λ o. o.1.0) same,
        elim (Result-cases found.0) [
          | inl (e, bad) ↦ inl (ap (λ o. o.1.1) same ∙ ap (λ o. log_after o (conn ∷ log)) bad)
          | inr (next, good) ↦
              inr (next, ap (λ o. o.1.1) same ∙ ap (λ o. log_after o (conn ∷ log)) good, refl, good)
        ],
      )

  -- A call goes to the plugin once, on the client's connection, or twice; twice only if the first
  -- attempt ended with ErrShutdown, and then on a connection that `reconnect` gave. Its answer and
  -- what it does are not changed by the counting.
  pub call_attempts :
      {Req Resp : Type 0} (method : Method Req Resp) (req : Req) (w : W) (log : List Conn)
      → let out = call (logged t) method req (w, log) in
        (out.0 ≡ (call t method req w).0)
        × (out.1.0 ≡ (call t method req w).1)
        × AtMostTwice (t.client w) (t.call_on method (t.client w) req w) log out.1.1
  unfolding call
  call_attempts method req w log =
      recover-logged method req (t.client w) (t.call_on method (t.client w) req w) log

  as_upstream-answer :
      {Resp : Type 0} (out : Result CallError Resp × W) (e : Error)
      → (answer t out).0 ≡ err e
      → as_upstream e ≡ none
  unfolding as_upstream
  as_upstream-answer (ok resp, w) e h = ground (arith, h)
  as_upstream-answer (err shutdown, w) e h = ground (arith, h)
  as_upstream-answer (err (failed text), w) e h = ground (arith, h)

  as_upstream-again :
      {Req Resp : Type 0} (method : Method Req Resp) (req : Req) (out : Result Error Conn × W)
      (e : Error)
      → (again t method req out).0 ≡ err e
      → as_upstream e ≡ none
  unfolding again as_upstream
  as_upstream-again method req (ok conn, w) e h =
      as_upstream-answer (t.call_on method conn req w) e h
  as_upstream-again method req (err d, w) e h = ground (arith, h)

  as_upstream-recover :
      {Req Resp : Type 0} (method : Method Req Resp) (req : Req) (conn : Conn)
      (first : Result CallError Resp × W) (e : Error)
      → (recover t method req conn first).0 ≡ err e
      → as_upstream e ≡ none
  unfolding recover as_upstream
  as_upstream-recover method req conn (ok resp, w) e h = ground (arith, h)
  as_upstream-recover method req conn (err (failed text), w) e h = ground (arith, h)
  as_upstream-recover method req conn (err shutdown, w) e h =
      as_upstream-again method req (reconnect t conn w) e h

  -- An error of a call is not an UpstreamError, also where it wraps another one.
  pub as_upstream-call :
      {Req Resp : Type 0} (method : Method Req Resp) (req : Req) (w : W) (e : Error)
      → (call t method req w).0 ≡ err e
      → as_upstream e ≡ none
  unfolding call
  as_upstream-call method req w e h =
      as_upstream-recover method req (t.client w) (t.call_on method (t.client w) req w) e h

  -- Whatever makes Invoke fail at a plugin over RPC, the pipeline takes its error for one that may
  -- be tried again on the next route.
  pub retryable-invoke :
      (reader : Reader W) (rounds : ℕ) (req : InvokeRequest) (w : W) (e : Error)
      → (invoke t reader rounds req w).0 ≡ err e
      → retryable e ≡ true
  unfolding retryable invoke
  retryable-invoke reader rounds req w e h = elim (Result-cases (call t invoke_start req w).0) [
    | inr (start, good) ↦ ground (arith, h, good)
    | inl (e', bad) ↦
        let same : e' ≡ e = ground (arith, h, bad) in
        ground (arith, as_upstream-call invoke_start req w e (bad ∙ ap err same))
  ]
