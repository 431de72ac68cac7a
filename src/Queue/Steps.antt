-- ===== src/Queue/Steps.antt =====
-- Any interleaving of goroutines that send events with the one that takes batches.
use mathlib.Core.List.{append_assoc, Sublist, sublist-append_left}
use mathlib.Core.List.Sublist
use vulpes_core.Base.{
  min, ◌≤◌, ◌≡◌, refl, ◌∙◌, ap, inl, inr, true, List, [], ◌∷◌, ◌++◌, arith, length, take, drop,
  take-append-drop, length-append, length-drop, if◌then◌else◌,
}
use vulpes_core.Capabilities.{GatewayEvent}
use vulpes_core.Queue.Defs.{Queue, enqueue, take_batch, replace_oldest}
use vulpes_core.Queue.Overflow.{SameSettings, refuses, enqueue-SameSettings, enqueue_cases}

length-replace_oldest :
    (events : List GatewayEvent) (ev : GatewayEvent)
    → length (replace_oldest events ev) ≡ length events
unfolding replace_oldest
length-replace_oldest [] ev = refl
length-replace_oldest (x ∷ events) ev = omega (arith, length-append {0} events (ev ∷ []))

sublist-replace_oldest :
    (taken events : List GatewayEvent) (ev : GatewayEvent) {sent : List GatewayEvent}
    → Sublist (taken ++ events) sent
    → Sublist (taken ++ replace_oldest events ev) (sent ++ ev ∷ [])
unfolding replace_oldest
sublist-replace_oldest taken [] ev {sent} h = Sublist.trans h (sublist-append_left sent (ev ∷ []))
sublist-replace_oldest taken (x ∷ events) ev h = rw (← append_assoc) (
    Sublist.append
      (Sublist.trans (Sublist.append (Sublist.refl taken) (Sublist.cons x (Sublist.refl events))) h)
      (Sublist.refl (ev ∷ [])))

-- The queue, the events that Enqueue was called with, those for which it returned true, and those
-- that were taken in batches, each in the order of the calls.
pub record History (W : Type 0) : Type 0 where
  pub queue : Queue W
  pub sent : List GatewayEvent
  pub accepted : List GatewayEvent
  pub taken : List GatewayEvent

module _ {W : Type 0} where
  unfoldable pub after_send : GatewayEvent → History W → History W
  after_send ev t = record {
    queue = (enqueue ev t.queue).0;
    sent = t.sent ++ ev ∷ [];
    accepted = if (enqueue ev t.queue).1 then t.accepted ++ ev ∷ [] else t.accepted;
    taken = t.taken;
  }

  unfoldable pub after_take : History W → History W
  after_take t = record t {
    queue = (take_batch t.queue).1;
    taken = t.taken ++ (take_batch t.queue).0;
  }

  pub data Step : History W → History W → Type 0 where
    send : (t : History W) (ev : GatewayEvent) → Step t (after_send ev t)
    take_one : (t : History W) → Step t (after_take t)

  pub data Reach (s : History W) : History W → Type 0 where
    here : Reach s s
    next : {t u : History W} → Reach s t → Step t u → Reach s u

  -- A history that begins with an empty queue.
  abbrev pub start : Queue W → History W
  start q = record { queue = record q { events = [] }; sent = []; accepted = []; taken = [] }

  -- What holds after any steps from `start q`.
  pub record IsValid (q : Queue W) (t : History W) : Type 0 where
    pub same : SameSettings t.queue q
    pub fits : length t.queue.events ≤ q.cap
    pub fifo : refuses q.overflow ≡ true → t.taken ++ t.queue.events ≡ t.accepted
    pub in_order : Sublist (t.taken ++ t.queue.events) t.sent

  pub length-enqueue :
      (ev : GatewayEvent) (q : Queue W)
      → length q.events ≤ q.cap
      → length (enqueue ev q).0.events ≤ q.cap
  unfolding enqueue
  length-enqueue ev q h =
      ground (arith, length-append {0} q.events (ev ∷ []), length-replace_oldest q.events ev)

  fifo-enqueue :
      (ev : GatewayEvent) (q : Queue W) (taken accepted : List GatewayEvent)
      → refuses q.overflow ≡ true
      → taken ++ q.events ≡ accepted
      → taken ++ (enqueue ev q).0.events
        ≡ (if (enqueue ev q).1 then accepted ++ ev ∷ [] else accepted)
  unfolding enqueue
  fifo-enqueue ev q taken accepted m h = ground (arith, append_assoc taken q.events (ev ∷ []))

  pub sublist-enqueue :
      (ev : GatewayEvent) (q : Queue W) (taken sent : List GatewayEvent)
      → Sublist (taken ++ q.events) sent
      → Sublist (taken ++ (enqueue ev q).0.events) (sent ++ ev ∷ [])
  sublist-enqueue ev q taken sent h = elim (enqueue_cases ev q) [
    | inl same ↦ rw same (Sublist.trans h (sublist-append_left sent (ev ∷ [])))
    | inr (inl dropped) ↦ rw dropped (sublist-replace_oldest taken q.events ev h)
    | inr (inr added) ↦ rw (added, ← append_assoc) (Sublist.append h (Sublist.refl (ev ∷ [])))
  ]

  pub after_send-IsValid :
      (q : Queue W) (ev : GatewayEvent) (t : History W) → IsValid q t → IsValid q (after_send ev t)
  unfolding after_send
  after_send-IsValid q ev t b =
      let s = enqueue-SameSettings ev t.queue in
      record {
        same = record {
          cap = s.cap ∙ b.same.cap;
          batch = s.batch ∙ b.same.batch;
          overflow = s.overflow ∙ b.same.overflow;
          observers = s.observers ∙ b.same.observers;
        };
        fits = omega (arith, length-enqueue ev t.queue, b.same.cap);
        fifo = λ m. fifo-enqueue ev t.queue t.taken t.accepted (rw b.same.overflow m) (b.fifo m);
        in_order = sublist-enqueue ev t.queue t.taken t.sent b.in_order;
      }

  pub after_take-IsValid : (q : Queue W) (t : History W) → IsValid q t → IsValid q (after_take t)
  unfolding after_take take_batch
  after_take-IsValid q t b =
      let n = min t.queue.batch (length t.queue.events) in
      let whole : (t.taken ++ take n t.queue.events) ++ drop n t.queue.events
          ≡ t.taken ++ t.queue.events =
        append_assoc t.taken (take n t.queue.events) (drop n t.queue.events)
        ∙ ap (λ es. t.taken ++ es) (take-append-drop n t.queue.events) in
      record {
        same = record {
          cap = b.same.cap;
          batch = b.same.batch;
          overflow = b.same.overflow;
          observers = b.same.observers;
        };
        fits = omega (arith, length-drop {0} n t.queue.events, b.fits);
        fifo = λ m. whole ∙ b.fifo m;
        in_order = rw whole b.in_order;
      }

  pub start-IsValid : (q : Queue W) → IsValid q (start q)
  start-IsValid q = record {
    same = record { cap = refl; batch = refl; overflow = refl; observers = refl };
    fits = omega arith;
    fifo = λ m. refl;
    in_order = Sublist.refl [];
  }

  pub Reach-IsValid : (q : Queue W) {t : History W} → Reach (start q) t → IsValid q t
  Reach-IsValid q here = start-IsValid q
  Reach-IsValid q (next r (send t ev)) = after_send-IsValid q ev t (Reach-IsValid q r)
  Reach-IsValid q (next r (take_one t)) = after_take-IsValid q t (Reach-IsValid q r)

  -- However sends and takes are interleaved, a queue that was empty never holds more events than its
  -- capacity, and the events taken in batches, followed by those still held, are among those sent,
  -- in the order in which they were sent, each at most as often.
  pub interleaving_in_order :
      (q : Queue W) {t : History W}
      → Reach (start q) t
      → (length t.queue.events ≤ q.cap) × Sublist (t.taken ++ t.queue.events) t.sent
  interleaving_in_order q r = let v = Reach-IsValid q r in (v.fits, v.in_order)

  -- In the modes block and fail nothing that Enqueue accepted is lost or moved, however sends and
  -- takes are interleaved: the events taken, followed by those still held, are the accepted ones.
  pub interleaving_fifo :
      (q : Queue W) {t : History W}
      → refuses q.overflow ≡ true
      → Reach (start q) t
      → t.taken ++ t.queue.events ≡ t.accepted
  interleaving_fifo q m r = (Reach-IsValid q r).fifo m
