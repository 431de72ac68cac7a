-- ===== src/Queue/Kept.antt =====
-- Which of the events that were sent a queue holds, while no batch is taken.
use mathlib.Core.List.{append-nil, append_assoc}
use vulpes_core.Base.{
  ℕ, ◌≤◌, ◌<◌, String, ◌≡◌, sym, ◌∙◌, min, ap, inl, inr, true, List, [], ◌∷◌, ◌++◌, arith, leb,
  if◌then◌else◌, length, take, take-append, take_all, drop_none, ◌-◌, length-append, length-take,
  Bool-cases, leb→le, leb→gt,
}
use vulpes_core.Base.Int.{ℤ, pos, negsuc}
use vulpes_core.Capabilities.{GatewayEvent, Observer}
use vulpes_core.Queue.Defs.{Queue, new_queue, enqueue, enqueue_all, positive_or}
use vulpes_core.Queue.Overflow.{
  refuses, newest, enqueue_refused, enqueue_room, enqueue-SameSettings, enqueue_all-newest,
}

positive_or-pos : (fallback : ℕ) (n : ℤ) → 0 < fallback → 0 < positive_or fallback n
positive_or-pos fallback (pos n) h = ground arith
positive_or-pos fallback (negsuc n) h = h

module _ {W : Type 0} where
  -- In a mode that refuses, the events that came first stay.
  enqueue-take :
      (q : Queue W) (sent : List GatewayEvent) (ev : GatewayEvent)
      → refuses q.overflow ≡ true
      → q.events ≡ take q.cap sent
      → (enqueue ev q).0.events ≡ take q.cap (sent ++ ev ∷ [])
  enqueue-take q sent ev m e =
      let counted : length q.events ≡ min q.cap (length sent) =
        ap length e ∙ length-take q.cap sent in
      elim (Bool-cases (leb q.cap (length sent))) [
        | inl full ↦
            let fits : q.cap ≤ length sent = leb→le q.cap (length sent) full in
            let (refused, unchanged) = enqueue_refused ev q in
            ap (λ r. r.events) (unchanged (refused.1 (omega arith, m)))
            ∙ e
            ∙ sym (take-append q.cap sent (ev ∷ []) fits)
        | inr room ↦
            let fits : length sent < q.cap = leb→gt q.cap (length sent) room in
            ap (λ r. r.0.events) (enqueue_room ev q (omega arith))
            ∙ ap (λ es. es ++ ev ∷ []) (e ∙ take_all q.cap sent (omega arith))
            ∙ sym
                (take_all q.cap (sent ++ ev ∷ []) (omega (arith, length-append {0} sent (ev ∷ []))))
      ]

  enqueue_all-take :
      (q : Queue W) (sent evs : List GatewayEvent)
      → refuses q.overflow ≡ true
      → q.events ≡ take q.cap sent
      → (enqueue_all evs q).events ≡ take q.cap (sent ++ evs)
  unfolding enqueue_all
  enqueue_all-take q sent [] m e = rw append-nil e
  enqueue_all-take q sent (ev ∷ evs) m e =
      let same = enqueue-SameSettings ev q in
      let rest : (enqueue_all evs (enqueue ev q).0).events
          ≡ take (enqueue ev q).0.cap ((sent ++ ev ∷ []) ++ evs) =
        enqueue_all-take (enqueue ev q).0 (sent ++ ev ∷ []) evs (rw same.overflow m)
          (rw same.cap (enqueue-take q sent ev m e)) in
      rest ∙ rw (same.cap, append_assoc)

  -- A new queue that is sent any events, with no batch taken, holds the first ones up to its
  -- capacity if its overflow mode is block or fail, and the last ones up to its capacity in every
  -- other mode. A configured size that is not positive stands for a capacity of 10000.
  pub enqueue_all-new_queue :
      (size batch interval : ℤ) (overflow : String) (observers : List (Observer W))
      (evs : List GatewayEvent)
      → let room = positive_or 10000 size in
        (enqueue_all evs (new_queue size batch interval overflow observers)).events
        ≡ (if refuses overflow then take room evs else newest room evs)
  unfolding new_queue
  enqueue_all-new_queue size batch interval overflow observers evs =
      let q : Queue W = new_queue size batch interval overflow observers in
      let room : ℕ = positive_or 10000 size in
      elim (Bool-cases (refuses overflow)) [
        | inl m ↦ rw m (enqueue_all-take q [] evs m (sym (take_all room [] (omega arith))))
        | inr m ↦ rw m (
            enqueue_all-newest q [] evs (positive_or-pos 10000 size (omega arith)) m
              (sym (drop_none (0 - room) [] (omega arith))))
      ]
