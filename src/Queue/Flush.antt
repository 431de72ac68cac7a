-- ===== src/Queue/Flush.antt =====
-- The loop of `flush`, with what other goroutines send between its rounds.
use mathlib.Core.List.{append-nil, append_assoc, Sublist, sublist-append_left}
use mathlib.Core.List.Sublist
use vulpes_core.Base.{
  ℕ, zero, suc, min, ◌≤◌, ◌<◌, ◌≡◌, refl, ◌∙◌, sym, ap, inl, inr, List, [], ◌∷◌, ◌++◌, arith,
  length, take-append-drop, length-take, length-append, ◌+◌, flatten, All, true, Bool-cases,
  List-cases, subst, leb, leb→le, leb→gt,
}
use vulpes_core.Capabilities.{GatewayEvent, Observer}
use vulpes_core.Queue.Defs.{Queue, enqueue, enqueue_all, take_batch, flush, emit_all}
use vulpes_core.Queue.Overflow.{
  SameSettings, refuses, enqueue_refused, enqueue_room, enqueue-SameSettings,
}
use vulpes_core.Queue.Steps.{length-enqueue, sublist-enqueue}

pub nil_of_length {ℓ} : {A : Type ℓ} (xs : List A) → length xs ≡ 0 → xs ≡ []
nil_of_length [] h = refl
nil_of_length (x ∷ xs) h = absurd (omega arith)

-- So many rounds in which nothing is sent.
abbrev pub quiet : ℕ → List (List GatewayEvent)
quiet zero = []
quiet (suc n) = [] ∷ quiet n

module _ {W : Type 0} where
  -- The observers get the batches one after the other.
  abbrev pub emit_batches : List (Observer W) → List (List GatewayEvent) → W → W
  emit_batches observers [] w = w
  emit_batches observers (b ∷ batches) w = emit_batches observers batches (emit_all observers b w)

  -- What the observers got and what is left, after a flush of `q` from the world `w`, while `sent` was
  -- sent.
  pub record Flushed (q : Queue W) (sent : List GatewayEvent) (w : W)
      (batches : List (List GatewayEvent)) (q' : Queue W) (w' : W) : Type 0 where
    pub emptied : q'.events ≡ []
    pub told : w' ≡ emit_batches q.observers batches w
    pub sized : All (λ b. (0 < length b) × (length b ≤ q.batch)) batches
    pub in_order : Sublist (flatten batches) (q.events ++ sent)
    pub kept :
        refuses q.overflow ≡ true
        → (more : List GatewayEvent) × (flatten batches ≡ q.events ++ more)

  pub take_batch-append : (q : Queue W) → (take_batch q).0 ++ (take_batch q).1.events ≡ q.events
  unfolding take_batch
  take_batch-append q = take-append-drop (min q.batch (length q.events)) q.events

  pub length-take_batch : (q : Queue W) → length (take_batch q).0 ≡ min q.batch (length q.events)
  unfolding take_batch
  length-take_batch q = omega (arith, length-take {0} (min q.batch (length q.events)) q.events)

  take_batch-SameSettings : (q : Queue W) → SameSettings (take_batch q).1 q
  unfolding take_batch
  take_batch-SameSettings q = record { cap = refl; batch = refl; overflow = refl; observers = refl }

  flush-nil :
      (sent : List GatewayEvent) (rounds : List (List GatewayEvent)) (q : Queue W) (w : W)
      → (take_batch q).0 ≡ []
      → flush (sent ∷ rounds) q w ≡ ([], (take_batch q).1, w)
  unfolding flush
  flush-nil sent rounds q w e = rw (e, flush)

  flush-cons :
      (sent : List GatewayEvent) (rounds : List (List GatewayEvent)) (q : Queue W) (w : W)
      {ev : GatewayEvent} {rest : List GatewayEvent}
      → (take_batch q).0 ≡ ev ∷ rest
      → let r =
          flush rounds (enqueue_all sent (take_batch q).1) (emit_all q.observers (ev ∷ rest) w) in
        flush (sent ∷ rounds) q w ≡ ((ev ∷ rest) ∷ r.0, r.1, r.2)
  unfolding flush
  flush-cons sent rounds q w e = rw (e, flush)

  enqueue-behind :
      (ev : GatewayEvent) (q : Queue W)
      → refuses q.overflow ≡ true
      → (more : List GatewayEvent) × ((enqueue ev q).0.events ≡ q.events ++ more)
  enqueue-behind ev q m = elim (Bool-cases (leb q.cap (length q.events))) [
    | inl full ↦
        let (refused, unchanged) = enqueue_refused ev q in
        (
          [],
          ap (λ r. r.events) (unchanged (refused.1 (leb→le q.cap (length q.events) full, m)))
              ∙ sym (append-nil q.events),
        )
    | inr room ↦
        (ev ∷ [], ap (λ r. r.0.events) (enqueue_room ev q (leb→gt q.cap (length q.events) room)))
  ]

  -- What other goroutines do between two rounds.
  record Sends (q : Queue W) (sent : List GatewayEvent) (q' : Queue W) : Type 0 where
    same : SameSettings q' q
    fits : length q.events ≤ q.cap → length q'.events ≤ q.cap
    among : Sublist q'.events (q.events ++ sent)
    behind : refuses q.overflow ≡ true → (more : List GatewayEvent) × (q'.events ≡ q.events ++ more)

  enqueue_all-Sends : (sent : List GatewayEvent) (q : Queue W) → Sends q sent (enqueue_all sent q)
  unfolding enqueue_all
  enqueue_all-Sends [] q = record {
    same = record { cap = refl; batch = refl; overflow = refl; observers = refl };
    fits = λ h. h;
    among = sublist-append_left q.events [];
    behind = λ m. ([], sym (append-nil q.events));
  }
  enqueue_all-Sends (ev ∷ sent) q =
      let q1 = (enqueue ev q).0 in
      let first = enqueue-SameSettings ev q in
      let rest = enqueue_all-Sends sent q1 in
      record {
        same = record {
          cap = rest.same.cap ∙ first.cap;
          batch = rest.same.batch ∙ first.batch;
          overflow = rest.same.overflow ∙ first.overflow;
          observers = rest.same.observers ∙ first.observers;
        };
        fits = λ h.
            omega (arith, rest.fits (omega (arith, length-enqueue ev q h, first.cap)), first.cap);
        among = rw (← append_assoc q.events (ev ∷ []) sent) (
            Sublist.trans rest.among (
              Sublist.append (sublist-enqueue ev q [] q.events (Sublist.refl q.events))
                (Sublist.refl sent)));
        behind = λ m.
            let (more, e) = rest.behind (rw first.overflow m) in
            let (one, e1) = enqueue-behind ev q m in
            (one ++ more, e ∙ ap (λ es. es ++ more) e1 ∙ append_assoc q.events one more);
      }

  Flushed-nil :
      (q : Queue W) (sent : List GatewayEvent) (w : W)
      → 0 < q.batch
      → (take_batch q).0 ≡ []
      → Flushed q sent w [] (take_batch q).1 w
  Flushed-nil q sent w h e =
      let counted = length-take_batch q in
      let none_taken : length (take_batch q).0 ≡ 0 = ap length e in
      let empty : q.events ≡ [] = nil_of_length q.events (omega arith) in
      record {
        emptied = sym (ap (λ b. b ++ (take_batch q).1.events) e) ∙ take_batch-append q ∙ empty;
        told = refl;
        sized = tt;
        in_order = sublist-append_left [] (q.events ++ sent);
        kept = λ m. ([], sym (append-nil q.events ∙ empty));
      }

  Flushed-cons :
      (q q1 : Queue W) (sent later : List GatewayEvent) (w : W) {ev : GatewayEvent}
      {rest : List GatewayEvent} (batches : List (List GatewayEvent)) (q' : Queue W) (w' : W)
      → (take_batch q).0 ≡ ev ∷ rest
      → Sends (take_batch q).1 sent q1
      → Flushed q1 later (emit_all q.observers (ev ∷ rest) w) batches q' w'
      → Flushed q (sent ++ later) w ((ev ∷ rest) ∷ batches) q' w'
  Flushed-cons q q1 sent later w {ev} {rest} batches q' w' e s f =
      let split = take_batch-append q in
      let settings = take_batch-SameSettings q in
      let left = (take_batch q).1.events in
      let counted : length (ev ∷ rest) ≡ min q.batch (length q.events) =
        sym (ap length e) ∙ length-take_batch q in
      let whole : (ev ∷ rest) ++ left ≡ q.events = ap (λ b. b ++ left) (sym e) ∙ split in
      let same_batch : q1.batch ≡ q.batch = s.same.batch ∙ settings.batch in
      record {
        emptied = f.emptied;
        told =
            f.told
            ∙ ap (λ obs. emit_batches obs batches (emit_all q.observers (ev ∷ rest) w))
                (s.same.observers ∙ settings.observers);
        sized = ((omega arith, omega arith), rw same_batch at f.sized);
        in_order =
            subst (λ es. Sublist ((ev ∷ rest) ++ flatten batches) es)
              (ap (λ es. (ev ∷ rest) ++ es) (append_assoc left sent later)
                ∙ sym (append_assoc (ev ∷ rest) left (sent ++ later))
                ∙ ap (λ es. es ++ (sent ++ later)) whole)
              (Sublist.append (Sublist.refl (ev ∷ rest))
                (Sublist.trans f.in_order (Sublist.append s.among (Sublist.refl later))));
        kept = λ m.
            let (more, e1) = s.behind (rw settings.overflow m) in
            let (more', e2) = f.kept (rw (s.same.overflow, settings.overflow) m) in
            (
              more ++ more',
              ap (λ es. (ev ∷ rest) ++ es)
                    (e2 ∙ ap (λ es. es ++ more') e1 ∙ append_assoc left more more')
                  ∙ sym (append_assoc (ev ∷ rest) left (more ++ more'))
                  ∙ ap (λ es. es ++ (more ++ more')) whole,
            );
      }

  length-left :
      (q : Queue W) → length (take_batch q).0 + length (take_batch q).1.events ≡ length q.events
  length-left q =
      sym (length-append (take_batch q).0 (take_batch q).1.events) ∙ ap length (take_batch-append q)

  -- Nothing is sent any more.
  flush-quiet :
      (n : ℕ) (q : Queue W) (w : W)
      → 0 < q.batch
      → length q.events < n
      → let r = flush (quiet n) q w in Flushed q [] w r.0 r.1 r.2
  unfolding enqueue_all
  flush-quiet zero q w h enough = absurd (omega arith)
  flush-quiet (suc n) q w h enough = elim (List-cases (take_batch q).0) [
    | inl e ↦ rw (flush-nil [] (quiet n) q w e) (Flushed-nil q [] w h e)
    | inr r ↦
        let q1 = (take_batch q).1 in
        let settings = take_batch-SameSettings q in
        let some_taken : length (take_batch q).0 ≡ suc (length r.tail) = ap length r.eq in
        let total = length-left q in
        rw (flush-cons [] (quiet n) q w r.eq) (
          Flushed-cons q q1 [] [] w _ _ _ r.eq (enqueue_all-Sends [] q1) (
            flush-quiet n q1 (emit_all q.observers (r.head ∷ r.tail) w) (rw settings.batch h)
              (omega arith)))
  ]

  -- For a positive batch size and a queue that is not over its capacity: let other goroutines send
  -- any events between the rounds of a flush, for any number of rounds, and then be quiet for more
  -- rounds than the capacity. Then the flush leaves the queue empty. The observers have got, one
  -- batch after the other, events that were in the queue or sent to it, in this order and each at
  -- most once; no batch is empty or longer than the configured batch. In the modes block and fail
  -- they have got first everything that was in the queue.
  pub flush-Flushed :
      (rounds : List (List GatewayEvent)) (n : ℕ) (q : Queue W) (w : W)
      → 0 < q.batch
      → length q.events ≤ q.cap
      → q.cap < n
      → let r = flush (rounds ++ quiet n) q w in Flushed q (flatten rounds) w r.0 r.1 r.2
  flush-Flushed [] n q w h fits enough = flush-quiet n q w h (omega arith)
  flush-Flushed (sent ∷ rounds) n q w h fits enough = elim (List-cases (take_batch q).0) [
    | inl e ↦
        rw (flush-nil sent (rounds ++ quiet n) q w e) (Flushed-nil q (sent ++ flatten rounds) w h e)
    | inr r ↦
        let q1 = (take_batch q).1 in
        let settings = take_batch-SameSettings q in
        let s = enqueue_all-Sends sent q1 in
        let total = length-left q in
        let below = s.fits (omega (arith, settings.cap)) in
        rw (flush-cons sent (rounds ++ quiet n) q w r.eq) (
          Flushed-cons q _ sent (flatten rounds) w _ _ _ r.eq s (
            flush-Flushed rounds n (enqueue_all sent q1) (emit_all q.observers (r.head ∷ r.tail) w)
              (rw (s.same.batch, settings.batch) h) (omega (arith, s.same.cap, settings.cap))
              (omega (arith, s.same.cap, settings.cap))))
  ]
