-- ===== src/Rpc/Client.antt =====
-- `call` and `reconnect` of rpc.go.
use vulpes_core.Base.{◌<>◌, Result, ok, err, eqb, not, if◌then◌else◌}
use vulpes_core.Capabilities.{Error, wrap, error_text}
use vulpes_core.Rpc.Wire.{Method, CallError, shutdown, failed, call_error, Conn, Transport}

module _ {W : Type 0} (t : Transport W) where
  -- The second part of `reconnect`, under the lock: the new connection takes the place of the stale
  -- one, or is closed if another caller was first.
  unfoldable pub swap : Conn → Conn → W → Conn × W
  swap stale fresh w =
      if eqb (t.client w) stale
      then (fresh, t.set_client fresh (t.close stale w))
      else (t.client w, t.close fresh w)

  unfoldable pub reconnect : Conn → W → Result Error Conn × W
  unfolding swap
  reconnect stale w =
      if not (eqb (t.client w) stale)
      then (ok (t.client w), w)
      else (let (dialed, w1) = t.dial w in
          elim dialed [
            | err e ↦ (err e, w1)
            | ok fresh ↦ let (conn, w2) = swap stale fresh w1 in (ok conn, w2)
          ])

  -- The answer of a call, or its error as the caller gets it.
  abbrev pub answer : {Resp : Type 0} → Result CallError Resp × W → Result Error Resp × W
  answer (ok resp, w) = (ok resp, w)
  answer (err e, w) = (err (call_error e), w)

  -- The second attempt, on the connection that `reconnect` gives.
  unfoldable pub again :
      {Req Resp : Type 0} → Method Req Resp → Req → Result Error Conn × W → Result Error Resp × W
  again method req (err e, w) =
      (err (wrap "" (call_error shutdown) (" (reconnect failed: " <> error_text e <> ")")), w)
  again method req (ok conn, w) = answer (t.call_on method conn req w)

  -- What follows the first attempt, which was on a connection.
  unfoldable pub recover :
      {Req Resp : Type 0}
      → Method Req Resp
      → Req
      → Conn
      → Result CallError Resp × W
      → Result Error Resp × W
  unfolding again reconnect
  recover method req conn (ok resp, w) = (ok resp, w)
  recover method req conn (err (failed text), w) = (err (call_error (failed text)), w)
  recover method req conn (err shutdown, w) = again method req (reconnect conn w)

  unfoldable pub call : {Req Resp : Type 0} → Method Req Resp → Req → W → Result Error Resp × W
  unfolding recover
  call method req w = recover method req (t.client w) (t.call_on method (t.client w) req w)
