-- ===== src/Queue/Life.antt =====
-- The life of a queue: `run`, the goroutine that NewQueue starts, and Close, interleaved with the
-- goroutines that send events. Each operation that holds the lock is one step.
use mathlib.Core.List.{append-nil}
use vulpes_core.Base.{
  ◌<◌, ◌≡◌, refl, ap, sym, ◌∙◌, Bool, true, false, List, [], ◌∷◌, ◌++◌, arith, length,
}
use vulpes_core.Capabilities.{GatewayEvent}
use vulpes_core.Queue.Defs.{Queue, take_batch}
use vulpes_core.Queue.Overflow.{refuses}
use vulpes_core.Queue.Steps.{
  History, after_send, after_take, start, IsValid, start-IsValid, after_send-IsValid,
  after_take-IsValid,
}
use vulpes_core.Queue.Flush.{nil_of_length, length-take_batch, take_batch-append}

-- Where `run` is: at its select, in the flush of a tick, in the last flush, or behind its return.
pub data Phase : Type 0 where
  waiting flushing last_flush stopped : Phase

abbrev pub is_flushing : Phase → Bool
is_flushing flushing = true
is_flushing last_flush = true
is_flushing _ = false

-- Whether `q.closed` is closed, and the events that were accepted when `q.done` was.
pub record Life (W : Type 0) : Type 0 where
  pub history : History W
  pub phase : Phase
  pub closed : Bool
  pub before : List GatewayEvent

module _ {W : Type 0} where
  -- What a flush does behind its last round.
  abbrev pub after_flush : Phase → Life W → Life W
  after_flush flushing l = record l { phase = waiting }
  after_flush last_flush l = record l { phase = stopped; before = l.history.accepted }
  after_flush _ l = l

  -- Whether the loop of a flush goes on, by the batch that was taken.
  abbrev pub after_batch : List GatewayEvent → Life W → Life W
  after_batch [] l = after_flush l.phase l
  after_batch (ev ∷ batch) l = l

  -- A round of a flush, without the observers' part.
  unfoldable pub flush_round : Life W → Life W
  unfolding take_batch after_take
  flush_round l =
      after_batch (take_batch l.history.queue).0 (record l { history = after_take l.history })

  pub data LifeStep : Life W → Life W → Type 0 where
    sends :
        (l : Life W) (ev : GatewayEvent)
        → LifeStep l (record l { history = after_send ev l.history })
    -- A second Close would panic.
    closes : (l : Life W) → l.closed ≡ false → LifeStep l (record l { closed = true })
    ticks : (l : Life W) → l.phase ≡ waiting → LifeStep l (record l { phase = flushing })
    sees_closed :
        (l : Life W)
        → l.phase ≡ waiting
        → l.closed ≡ true
        → LifeStep l (record l { phase = last_flush })
    rounds : (l : Life W) → is_flushing l.phase ≡ true → LifeStep l (flush_round l)

  pub data Lives (s : Life W) : Life W → Type 0 where
    born : Lives s s
    then : {l m : Life W} → Lives s l → LifeStep l m → Lives s m

  abbrev pub new_life : Queue W → Life W
  new_life q = record { history = start q; phase = waiting; closed = false; before = [] }

  pub record IsSound (q : Queue W) (l : Life W) : Type 0 where
    pub valid : IsValid q l.history
    pub closing : l.phase ≡ last_flush → l.closed ≡ true
    pub ended : l.phase ≡ stopped → l.closed ≡ true
    pub kept : refuses q.overflow ≡ true → l.phase ≡ stopped → l.history.taken ≡ l.before

  -- An empty batch is that of an empty queue.
  empty_batch : (q : Queue W) → 0 < q.batch → (take_batch q).0 ≡ [] → (take_batch q).1.events ≡ []
  empty_batch q h e =
      let counted = length-take_batch q in
      let none_taken : length (take_batch q).0 ≡ 0 = ap length e in
      sym (ap (λ b. b ++ (take_batch q).1.events) e)
      ∙ take_batch-append q
      ∙ nil_of_length q.events (omega arith)

  sends-IsSound :
      (q : Queue W) (l : Life W) (ev : GatewayEvent)
      → IsSound q l
      → IsSound q (record l { history = after_send ev l.history })
  unfolding after_send
  sends-IsSound q l ev h = record {
    valid = after_send-IsValid q ev l.history h.valid;
    closing = h.closing;
    ended = h.ended;
    kept = h.kept;
  }

  after_flush-IsSound :
      (q : Queue W) (p : Phase) (l : Life W)
      → l.phase ≡ p
      → is_flushing p ≡ true
      → l.history.queue.events ≡ []
      → IsSound q l
      → IsSound q (after_flush p l)
  after_flush-IsSound q waiting l e on empty h = ground (arith, on)
  after_flush-IsSound q stopped l e on empty h = ground (arith, on)
  after_flush-IsSound q flushing l e on empty h = record {
    valid = h.valid;
    closing = λ x. ground (arith, x);
    ended = λ x. ground (arith, x);
    kept = λ m x. ground (arith, x);
  }
  after_flush-IsSound q last_flush l e on empty h = record {
    valid = h.valid;
    closing = λ x. h.closing e;
    ended = λ x. h.closing e;
    kept = λ m x.
        sym (append-nil l.history.taken)
        ∙ ap (λ es. l.history.taken ++ es) (sym empty)
        ∙ h.valid.fifo m;
  }

  after_batch-IsSound :
      (q : Queue W) (batch : List GatewayEvent) (l : Life W)
      → is_flushing l.phase ≡ true
      → (batch ≡ [] → l.history.queue.events ≡ [])
      → IsSound q l
      → IsSound q (after_batch batch l)
  after_batch-IsSound q [] l on empty h = after_flush-IsSound q l.phase l refl on (empty refl) h
  after_batch-IsSound q (ev ∷ batch) l on empty h = h

  flush_round-IsSound :
      (q : Queue W) (l : Life W)
      → 0 < q.batch
      → is_flushing l.phase ≡ true
      → IsSound q l
      → IsSound q (flush_round l)
  unfolding flush_round after_take
  flush_round-IsSound q l positive on h =
      let own : 0 < l.history.queue.batch = rw h.valid.same.batch positive in
      after_batch-IsSound q (take_batch l.history.queue).0
        (record l { history = after_take l.history }) on (empty_batch l.history.queue own)
        (record {
          valid = after_take-IsValid q l.history h.valid;
          closing = h.closing;
          ended = h.ended;
          kept = λ m x. ground (arith, on, x);
        })

  LifeStep-IsSound :
      (q : Queue W) {l m : Life W} → 0 < q.batch → LifeStep l m → IsSound q l → IsSound q m
  LifeStep-IsSound q positive (sends l ev) h = sends-IsSound q l ev h
  LifeStep-IsSound q positive (closes l e) h = record {
    valid = h.valid;
    closing = λ x. refl;
    ended = λ x. refl;
    kept = h.kept;
  }
  LifeStep-IsSound q positive (ticks l e) h = record {
    valid = h.valid;
    closing = λ x. ground (arith, x);
    ended = λ x. ground (arith, x);
    kept = λ m x. ground (arith, x);
  }
  LifeStep-IsSound q positive (sees_closed l e closed) h = record {
    valid = h.valid;
    closing = λ x. closed;
    ended = λ x. closed;
    kept = λ m x. ground (arith, x);
  }
  LifeStep-IsSound q positive (rounds l on) h = flush_round-IsSound q l positive on h

  Lives-IsSound : (q : Queue W) {l : Life W} → 0 < q.batch → Lives (new_life q) l → IsSound q l
  Lives-IsSound q positive born = record {
    valid = start-IsValid q;
    closing = λ x. ground (arith, x);
    ended = λ x. ground (arith, x);
    kept = λ m x. ground (arith, x);
  }
  Lives-IsSound q positive (then lives s) =
      LifeStep-IsSound q positive s (Lives-IsSound q positive lives)

  -- With a positive batch size, however sends, ticks, the rounds of flushes and Close are
  -- interleaved: `run` returns only after Close; and in the modes block and fail it has then taken
  -- for the observers exactly the events that were accepted before it returned, in their order, and
  -- what is accepted later stays in the queue.
  pub stopped_delivered :
      (q : Queue W) {l : Life W}
      → 0 < q.batch
      → Lives (new_life q) l
      → l.phase ≡ stopped
      → (l.closed ≡ true)
        × (refuses q.overflow ≡ true
            → (l.history.taken ≡ l.before)
              × (l.before ++ l.history.queue.events ≡ l.history.accepted))
  stopped_delivered q {l} positive lives end_reached =
      let h = Lives-IsSound q positive lives in
      (
        h.ended end_reached,
        λ m.
            let same = h.kept m end_reached in
            (same, ap (λ t. t ++ l.history.queue.events) (sym same) ∙ h.valid.fifo m),
      )
