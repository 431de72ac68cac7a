-- ===== src/Manager/Await.antt =====
-- The wait for a plugin's socket comes to an end.
use vulpes_core.Base.{
  ℕ, zero, suc, ◌+◌, ◌*◌, ◌≤◌, String, ◌≡◌, refl, Bool, true, false, Option, none, ltb, arith,
  Bool-cases, Option-cases, inl, inr,
}
use vulpes_core.Capabilities.{Error}
use vulpes_core.Manager.Process.{Os, Process, round, await_socket}

-- The clock: a dial does not set it back, and a pause that the context does not cut short takes
-- 50 ms at least.
pub record Clock {W : Type 0} (os : Os W) : Type 0 where
  pub dial : (socket : String) (w : W) → os.now w ≤ os.now (os.dial_unix socket w).1
  pub pause : (w : W) → (os.pause w).0 ≡ none → os.now w + 50000000 ≤ os.now (os.pause w).1

module _ {W : Type 0} (os : Os W) (clock : Clock os) (p : Process) (deadline : ℕ) where
  -- Two waits that agree once a pause of 50 ms is over agree in the round before.
  round-same :
      (n : ℕ) (w : W) (rest other : W → Option Error × W) (out : Bool × W)
      → os.now w ≤ os.now out.1
      → deadline ≤ os.now w + 50000000 * suc n
      → ((w' : W) → deadline ≤ os.now w' + 50000000 * n → rest w' ≡ other w')
      → round os rest out ≡ round os other out
  round-same n w rest other (true, w1) later h same = refl
  round-same n w rest other (false, w1) later h same = elim (Option-cases (os.pause w1).0) [
    | inr (e, cut) ↦ rw (cut, round) refl
    | inl full ↦
        rw (full, round) (same (os.pause w1).1 (ground (arith, h, later, clock.pause w1 full)))
  ]

  -- The wait for the socket comes to an end: with as many rounds as there are pauses of 50 ms up to
  -- the deadline, by the clock, its result is the same as with any larger number of rounds.
  pub await_socket_ends :
      (n m : ℕ) (w : W)
      → deadline ≤ os.now w + 50000000 * n
      → n ≤ m
      → await_socket os p deadline n w ≡ await_socket os p deadline m w
  unfolding await_socket
  await_socket_ends zero zero w h le = refl
  await_socket_ends zero (suc m) w h le = ground (arith, h)
  await_socket_ends (suc n) zero w h le = ground (arith, le)
  await_socket_ends (suc n) (suc m) w h le = elim (Bool-cases (ltb (os.now w) deadline)) [
    | inr late ↦ rw late refl
    | inl early ↦ rw early (
        round-same n w (await_socket os p deadline n) (await_socket os p deadline m)
          (os.dial_unix p.socket w) (clock.dial p.socket w) h
          (λ w' near. await_socket_ends n m w' near (ground (arith, le))))
  ]
