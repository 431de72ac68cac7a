-- ===== src/Rpc/Streams.antt =====
-- What Invoke delivers of a stream that a plugin has.
use vulpes_core.Base.{
  ℕ, zero, suc, String, ◌≡◌, ◌<◌, inl, inr, refl, ap, sym, ◌∙◌, Bool, true, false, Option, none,
  some, List, [], ◌∷◌, ◌++◌, ok, err, arith, Bool-cases, List-cases, Option-cases, subst, length,
}
use vulpes_core.Capabilities.{plain, ResponseChunk, InvokeRequest}
use vulpes_core.Rpc.Wire.{Transport, Conn, failed, InvokeNextResponse, invoke_start, invoke_next}
use vulpes_core.Rpc.Client.{call}
use vulpes_core.Rpc.Methods.{Reader, offer, relay_next, stream, stream_failed, watched, invoke}

-- The chunk behind the last one, where the stream breaks off with a text instead of ending.
abbrev pub broken_off : Option String → List ResponseChunk
broken_off none = []
broken_off (some text) = stream_failed (plain text) ∷ []

-- A plugin that has the chunks `left` of the stream `id`: it hands them over one by one, on any
-- connection; behind the last one it tells the end, or, if there is a `fate`, the call fails with
-- this text. The reader does not touch them.
module _ {W : Type 0} (t : Transport W) (reader : Reader W) (id : ℕ) (left : W → List ResponseChunk)
    (fate : Option String)
    (gives : (conn : Conn) (w : W) (chunk : ResponseChunk) (chunks : List ResponseChunk)
      → left w ≡ chunk ∷ chunks
      → (w' : W) × (t.call_on invoke_next conn (record { stream_id = id }) w
          ≡ (ok (record { chunk = chunk; eof = false }), w'))
        × (left w' ≡ chunks))
    (ends : (conn : Conn) (w : W)
      → left w ≡ []
      → fate ≡ none
      → (w' : W) × (last : InvokeNextResponse) × (t.call_on invoke_next conn
            (record { stream_id = id })
            w
          ≡ (ok last, w'))
        × (last.eof ≡ true))
    (breaks : (conn : Conn) (w : W) (text : String)
      → left w ≡ []
      → fate ≡ some text
      → (w' : W) × (t.call_on invoke_next conn (record { stream_id = id }) w
          ≡ (err (failed text), w')))
    (apart : (w : W) → left (reader.takes w).1 ≡ left w) where
  -- What was got of `whole`: a part from its front, and all of it if the reader takes everything.
  abbrev Front : List ResponseChunk → List ResponseChunk → Type 0
  Front got whole =
      (rest : List ResponseChunk) × (got ++ rest ≡ whole)
      × (((v : W) → (reader.takes v).0 ≡ true) → rest ≡ [])

  call_start :
      (req : InvokeRequest) (w w1 : W)
      → t.call_on invoke_start (t.client w) req w ≡ (ok (record { stream_id = id }), w1)
      → call t invoke_start req w ≡ (ok (record { stream_id = id }), w1)
  unfolding call
  call_start req w w1 e = rw (e, call) refl

  -- The watcher leaves the chunks as they are.
  watched_chunks : (out : List ResponseChunk × W) → (watched t reader id out).0 ≡ out.0
  unfolding watched
  watched_chunks (chunks, w) = elim (Bool-cases (reader.cancelled w)) [
    | inl e ↦ rw (e, watched) refl
    | inr e ↦ rw (e, watched) refl
  ]

  invoke_opened :
      (rounds : ℕ) (req : InvokeRequest) (w w1 : W)
      → t.call_on invoke_start (t.client w) req w ≡ (ok (record { stream_id = id }), w1)
      → (invoke t reader rounds req w).0 ≡ ok (stream t reader id rounds w1).0
  unfolding invoke
  invoke_opened rounds req w w1 e =
      rw (call_start req w w1 e, invoke)
        (ap (λ cs. ok cs) (watched_chunks (stream t reader id rounds w1)))

  Front-offer :
      (chunk : ResponseChunk) (rest : W → List ResponseChunk × W) (whole : List ResponseChunk)
      (w : W)
      → Front (rest (reader.takes w).1).0 whole
      → Front (offer t reader id chunk rest (reader.takes w)).0 (chunk ∷ whole)
  Front-offer chunk rest whole w h = offered (reader.takes w) (λ all. all w) h
    where
      offered :
          (took : Bool × W)
          → (((v : W) → (reader.takes v).0 ≡ true) → took.0 ≡ true)
          → Front (rest took.1).0 whole
          → Front (offer t reader id chunk rest took).0 (chunk ∷ whole)
      offered (true, v) seen (more, e, all) = (more, ap (λ cs. chunk ∷ cs) e, all)
      offered (false, v) seen h' = (chunk ∷ whole, refl, λ all. ground (arith, seen all))

  -- The answer of InvokeNext on the connection of the client is that of the call.
  call_next :
      (w w' : W) (next : InvokeNextResponse)
      → t.call_on invoke_next (t.client w) (record { stream_id = id }) w ≡ (ok next, w')
      → call t invoke_next (record { stream_id = id }) w ≡ (ok next, w')
  unfolding call
  call_next w w' next e = rw (e, call) refl

  call_failed :
      (w w' : W) (text : String)
      → t.call_on invoke_next (t.client w) (record { stream_id = id }) w ≡ (err (failed text), w')
      → call t invoke_next (record { stream_id = id }) w ≡ (err (plain text), w')
  unfolding call
  call_failed w w' text e = rw (e, call) refl

  Front-end :
      (n : ℕ) (w : W) → left w ≡ [] → Front (stream t reader id (suc n) w).0 (broken_off fate)
  unfolding stream relay_next
  Front-end n w e = elim (Option-cases fate) [
    | inl none_there ↦
        let (w', last, answer, eof) = ends (t.client w) w e none_there in
        rw (none_there, call_next w w' last answer, eof) ([], refl, λ all. refl)
    | inr (text, there) ↦
        let (w', answer) = breaks (t.client w) w text e there in
        rw (there, call_failed w w' text answer)
          (Front-offer (stream_failed (plain text)) (λ v. ([], v)) [] w' ([], refl, λ all. refl))
  ]

  Front-stream :
      (n : ℕ) (w : W)
      → length (left w) < n
      → Front (stream t reader id n w).0 (left w ++ broken_off fate)
  unfolding stream relay_next
  Front-stream zero w h = absurd (omega arith)
  Front-stream (suc n) w h = elim (List-cases (left w)) [
    | inl e ↦ rw e (Front-end n w e)
    | inr r ↦
        let (w', answer, remain) = gives (t.client w) w r.head r.tail r.eq in
        let v = (reader.takes w').1 in
        let same : left v ≡ r.tail = apart w' ∙ remain in
        let fewer : suc (length (left v)) ≡ length (left w) =
          ap (λ cs. suc (length cs)) same ∙ sym (ap length r.eq) in
        let ih : Front (stream t reader id n v).0 (r.tail ++ broken_off fate) =
          subst (λ cs. Front (stream t reader id n v).0 (cs ++ broken_off fate)) same
            (Front-stream n v (omega arith)) in
        rw (r.eq, call_next w w' _ answer)
          (Front-offer r.head (stream t reader id n) (r.tail ++ broken_off fate) w' ih)
  ]

  -- Let the plugin have the chunks of a stream: it hands them over one by one to InvokeNext, and
  -- behind the last one it tells the end, or the call fails (not by ErrShutdown) with a text; and let
  -- the reader of the channel not touch them. If Invoke's first call opens this stream, and Invoke may
  -- make more rounds than there are chunks, then it gives no error, and its channel delivers the
  -- chunks unchanged and in order, followed by one error chunk if the stream broke off; or so many of
  -- them from the front as are taken, and all if the reader takes everything.
  pub invoke_delivers :
      (rounds : ℕ) (req : InvokeRequest) (w w1 : W)
      → t.call_on invoke_start (t.client w) req w ≡ (ok (record { stream_id = id }), w1)
      → length (left w1) < rounds
      → (chunks : List ResponseChunk) × (rest : List ResponseChunk) × ((invoke t reader rounds req
            w).0
          ≡ ok chunks)
        × (chunks ++ rest ≡ left w1 ++ broken_off fate)
        × (((v : W) → (reader.takes v).0 ≡ true) → rest ≡ [])
  invoke_delivers rounds req w w1 opened enough =
      let (rest, whole, all) = Front-stream rounds w1 enough in
      ((stream t reader id rounds w1).0, rest, invoke_opened rounds req w w1 opened, whole, all)
