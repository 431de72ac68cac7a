-- ===== src/Queue/Defs.antt =====
-- The operations of internal/observability/queue.go.
use vulpes_core.Base.{
  ℕ, min, String, Bool, true, false, ◌||◌, ◌==◌, List, [], ◌∷◌, ◌++◌, leb, if◌then◌else◌, length,
  take, drop,
}
use vulpes_core.Base.Int.{ℤ, is_positive, to_ℕ}
use vulpes_core.Capabilities.{GatewayEvent, Observer}

pub record Queue (W : Type 0) : Type 0 where
  pub events : List GatewayEvent
  pub cap : ℕ
  pub batch : ℕ
  pub interval : ℕ
  pub overflow : String
  pub observers : List (Observer W)

-- A length or a duration, with what stands in for one that is not positive.
abbrev pub positive_or : ℕ → ℤ → ℕ
positive_or fallback n = if is_positive n then to_ℕ n else fallback

-- `append(events[1:], ev)` in place: the elements move down by one, and the last place gets `ev`.
-- Go panics where there is no last place; a queue that is full has one, as its `cap` is positive.
unfoldable pub replace_oldest : List GatewayEvent → GatewayEvent → List GatewayEvent
replace_oldest [] ev = []
replace_oldest (oldest ∷ events) ev = events ++ ev ∷ []

module _ {W : Type 0} where
  unfoldable pub new_queue : ℤ → ℤ → ℤ → String → List (Observer W) → Queue W
  new_queue size batch interval overflow observers = record {
    events = [];
    cap = positive_or 10000 size;
    batch = positive_or 100 batch;
    interval = positive_or 1_000_000_000 interval;
    overflow = overflow;
    observers = observers;
  }

  -- The new queue, and whether the event was taken in.
  unfoldable pub enqueue : GatewayEvent → Queue W → Queue W × Bool
  unfolding replace_oldest
  enqueue ev q =
      if leb q.cap (length q.events)
      then (if q.overflow == "block" || q.overflow == "fail"
          then (q, false)
          else (record q { events = replace_oldest q.events ev }, true))
      else (record q { events = q.events ++ ev ∷ [] }, true)

  unfoldable pub take_batch : Queue W → List GatewayEvent × Queue W
  take_batch q =
      let n = min q.batch (length q.events) in
      (take n q.events, record q { events = drop n q.events })

  -- The loop over the observers in `flush`.
  unfoldable pub emit_all : List (Observer W) → List GatewayEvent → W → W
  emit_all [] batch w = w
  emit_all (obs ∷ rest) batch w = emit_all rest batch (obs.emit batch w).1

  -- The events are sent one after the other, with no batch taken between them.
  unfoldable pub enqueue_all : List GatewayEvent → Queue W → Queue W
  enqueue_all [] q = q
  enqueue_all (ev ∷ evs) q = enqueue_all evs (enqueue ev q).0

  -- `flush`. The lock is free between its rounds: an element of `rounds` holds the events that other
  -- goroutines send between the takeBatch of a round and the next one. Where `rounds` has no more,
  -- the loop has not ended. Beside the queue and the world it gives the batches that were taken.
  unfoldable pub flush :
      List (List GatewayEvent) → Queue W → W → List (List GatewayEvent) × Queue W × W
  unfolding emit_all enqueue_all
  flush [] q w = ([], q, w)
  flush (sent ∷ rounds) q w = elim (take_batch q).0 [
    | [] ↦ ([], (take_batch q).1, w)
    | ev ∷ batch ↦
        let (batches, q', w') =
          flush rounds (enqueue_all sent (take_batch q).1) (emit_all q.observers (ev ∷ batch) w) in
        ((ev ∷ batch) ∷ batches, q', w')
  ]
