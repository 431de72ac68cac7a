-- ===== src/Queue/Overflow.antt =====
-- What Enqueue keeps and what it refuses when the queue is full.
use vulpes_core.Base.{
  ℕ, suc, ◌-◌, ◌≤◌, ◌<◌, String, ◌≡◌, refl, sym, ◌∙◌, min, ap, ◌↔◌, ◌⊎◌, inl, inr, Bool, true,
  false, ◌||◌, ◌==◌, List, [], ◌∷◌, ◌++◌, arith, leb, length, drop, drop-append, drop_none,
  drop-drop_one, length-append, length-drop, Bool-cases, leb→le, le→leb, gt→leb, leb→gt,
}
use mathlib.Core.List.{append-nil, append_assoc}
use vulpes_core.Capabilities.{GatewayEvent}
use vulpes_core.Queue.Defs.{Queue, enqueue, enqueue_all, replace_oldest}

-- The configured overflow is one of those that refuse.
abbrev pub refuses : String → Bool
refuses overflow = overflow == "block" || overflow == "fail"

pub replace_oldest-eq-drop :
    (events : List GatewayEvent) (ev : GatewayEvent)
    → 0 < length events
    → replace_oldest events ev ≡ drop 1 (events ++ ev ∷ [])
unfolding replace_oldest
replace_oldest-eq-drop [] ev h = absurd (omega arith)
replace_oldest-eq-drop (x ∷ events) ev h = refl

-- The last `size` events of those sent, or all of them.
abbrev pub newest : ℕ → List GatewayEvent → List GatewayEvent
newest size sent = drop (length sent - size) sent

newest-append :
    (size : ℕ) (sent : List GatewayEvent) (ev : GatewayEvent)
    → size ≤ length sent
    → drop 1 (newest size sent ++ ev ∷ []) ≡ newest size (sent ++ ev ∷ [])
newest-append size sent ev full =
    let k : ℕ = length sent - size in
    ap (drop 1) (sym (drop-append k sent (ev ∷ []) (omega arith)))
    ∙ drop-drop_one k (sent ++ ev ∷ [])
    ∙ ap (λ (n : ℕ). drop n (sent ++ ev ∷ [])) {x = suc k}
        (omega (arith, length-append {0} sent (ev ∷ [])))

newest_of_few : (size : ℕ) (sent : List GatewayEvent) → length sent ≤ size → newest size sent ≡ sent
newest_of_few size sent few = drop_none (length sent - size) sent (omega arith)

length-newest :
    (size : ℕ) (sent : List GatewayEvent) → length (newest size sent) ≡ min size (length sent)
length-newest size sent = omega (arith, length-drop {0} (length sent - size) sent)

module _ {W : Type 0} where
  -- Everything but the events stays as it was.
  pub record SameSettings (p q : Queue W) : Type 0 where
    pub cap : p.cap ≡ q.cap
    pub batch : p.batch ≡ q.batch
    pub overflow : p.overflow ≡ q.overflow
    pub observers : p.observers ≡ q.observers

  pub enqueue-SameSettings : (ev : GatewayEvent) (q : Queue W) → SameSettings (enqueue ev q).0 q
  unfolding enqueue
  enqueue-SameSettings ev q = ground arith

  -- An event is refused exactly when the queue is full and its overflow mode is block or fail, and
  -- then the queue is left as it was.
  pub enqueue_refused :
      (ev : GatewayEvent) (q : Queue W)
      → (((enqueue ev q).1 ≡ false) ↔ ((q.cap ≤ length q.events) × (refuses q.overflow ≡ true)))
        × ((enqueue ev q).1 ≡ false → (enqueue ev q).0 ≡ q)
  unfolding enqueue
  enqueue_refused ev q = ((λ h. ground arith, λ h. ground arith), λ h. ground arith)

  -- What an enqueue does to the events.
  pub enqueue_cases :
      (ev : GatewayEvent) (q : Queue W)
      → ((enqueue ev q).0.events ≡ q.events)
        ⊎ ((enqueue ev q).0.events ≡ replace_oldest q.events ev)
        ⊎ ((enqueue ev q).0.events ≡ q.events ++ ev ∷ [])
  unfolding enqueue
  enqueue_cases ev q = ground arith

  pub enqueue_room :
      (ev : GatewayEvent) (q : Queue W)
      → length q.events < q.cap
      → enqueue ev q ≡ (record q { events = q.events ++ ev ∷ [] }, true)
  unfolding enqueue
  enqueue_room ev q h = rw (gt→leb q.cap (length q.events) h)

  pub enqueue_full :
      (ev : GatewayEvent) (q : Queue W)
      → q.cap ≤ length q.events
      → refuses q.overflow ≡ false
      → enqueue ev q ≡ (record q { events = replace_oldest q.events ev }, true)
  unfolding enqueue
  enqueue_full ev q h m = rw (le→leb q.cap (length q.events) h) (rw m)

  -- One more event, sent to a queue that holds the newest ones of those sent before.
  enqueue-newest :
      (q : Queue W) (sent : List GatewayEvent) (ev : GatewayEvent)
      → 0 < q.cap
      → refuses q.overflow ≡ false
      → q.events ≡ newest q.cap sent
      → (enqueue ev q).0.events ≡ newest q.cap (sent ++ ev ∷ [])
  enqueue-newest q sent ev h m e =
      let counted : length q.events ≡ min q.cap (length sent) =
        ap length e ∙ length-newest q.cap sent in
      elim (Bool-cases (leb q.cap (length sent))) [
        | inl full ↦
            let fits : q.cap ≤ length sent = leb→le q.cap (length sent) full in
            ap (λ r. r.0.events) (enqueue_full ev q (omega arith) m)
            ∙ replace_oldest-eq-drop q.events ev (omega arith)
            ∙ ap (λ es. drop 1 (es ++ ev ∷ [])) e
            ∙ newest-append q.cap sent ev fits
        | inr room ↦
            let fits : length sent < q.cap = leb→gt q.cap (length sent) room in
            ap (λ r. r.0.events) (enqueue_room ev q (omega arith))
            ∙ ap (λ es. es ++ ev ∷ []) (e ∙ newest_of_few q.cap sent (omega arith))
            ∙ sym (
                newest_of_few q.cap (sent ++ ev ∷ [])
                  (omega (arith, length-append {0} sent (ev ∷ []))))
      ]

  pub enqueue_all-newest :
      (q : Queue W) (sent evs : List GatewayEvent)
      → 0 < q.cap
      → refuses q.overflow ≡ false
      → q.events ≡ newest q.cap sent
      → (enqueue_all evs q).events ≡ newest q.cap (sent ++ evs)
  unfolding enqueue_all
  enqueue_all-newest q sent [] h m e = rw append-nil e
  enqueue_all-newest q sent (ev ∷ evs) h m e =
      let same = enqueue-SameSettings ev q in
      let rest : (enqueue_all evs (enqueue ev q).0).events
          ≡ newest (enqueue ev q).0.cap ((sent ++ ev ∷ []) ++ evs) =
        enqueue_all-newest (enqueue ev q).0 (sent ++ ev ∷ []) evs (rw same.cap h)
          (rw same.overflow m) (rw same.cap (enqueue-newest q sent ev h m e)) in
      rest ∙ rw (same.cap, append_assoc)
