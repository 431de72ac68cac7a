-- ===== src/Manager/Stopped.antt =====
-- Which processes Stop reaches.
use vulpes_core.Base.{
  ℕ, String, ◌≡◌, refl, sym, List, [], ◌∷◌, some, inl, inr, Option-cases, All, subst,
}
use vulpes_core.Base.Dict.{Dict}
use vulpes_core.Capabilities.{Error}
use vulpes_core.Manager.Process.{
  Os, Process, Ending, cancelled, timed_out, exited, after_wait, stop_process,
}
use vulpes_core.Manager.Start.{Env, Manager, close_clients, stop_processes, stop_error, stop}

-- A record of the interrupts that the system delivered: an interrupt is noted, and what Stop calls
-- takes nothing out of it.
pub record Notes {W : Type 0} (os : Os W) (Noted : ℕ → W → Type 0) : Type 0 where
  pub noted : (pid : ℕ) (w : W) → Noted pid (os.interrupt pid w)
  pub interrupt : (pid other : ℕ) (w : W) → Noted pid w → Noted pid (os.interrupt other w)
  pub kill : (pid other : ℕ) (w : W) → Noted pid w → Noted pid (os.kill other w)
  pub wait : (pid other : ℕ) (w : W) → Noted pid w → Noted pid (os.wait other w).1

module _ {W : Type 0} (env : Env W) (Noted : ℕ → W → Type 0) (notes : Notes env.os Noted) where
  after_wait-Noted :
      (pid other : ℕ) (out : Ending × W)
      → Noted pid out.1
      → Noted pid (after_wait env.os other out).1
  after_wait-Noted pid other (cancelled e, w) h = notes.kill pid other w h
  after_wait-Noted pid other (timed_out, w) h = notes.kill pid other w h
  after_wait-Noted pid other (exited e, w) h = h

  -- A stop keeps the notes, and adds that of its own process.
  stop_process-Noted :
      (p : Process) (pid : ℕ) (w : W) → Noted pid w → Noted pid (stop_process env.os p w).1
  unfolding stop_process
  stop_process-Noted p pid w h = elim (Option-cases p.cmd) [
    | inl idle ↦ rw (idle, stop_process) h
    | inr (other, runs) ↦
        rw (runs, stop_process)
          (after_wait-Noted pid other (env.os.wait other (env.os.interrupt other w))
            (notes.wait pid other (env.os.interrupt other w) (notes.interrupt pid other w h)))
  ]

  stop_process-own :
      (p : Process) (pid : ℕ) (w : W) → p.cmd ≡ some pid → Noted pid (stop_process env.os p w).1
  unfolding stop_process
  stop_process-own p pid w e =
      rw (e, stop_process)
        (after_wait-Noted pid pid (env.os.wait pid (env.os.interrupt pid w))
          (notes.wait pid pid (env.os.interrupt pid w) (notes.noted pid w)))

  -- The world behind a stop of several processes.
  world-cons :
      (name : String) (p : Process) (processes : Dict Process) (w : W)
      → (stop_processes env ((name, p) ∷ processes) w).1
        ≡ (stop_processes env processes (stop_process env.os p w).1).1
  unfolding stop_processes
  world-cons name p processes w = elim (Option-cases (stop_process env.os p w).0) [
    | inl fine ↦ rw (fine, stop_processes) refl
    | inr (e, failed) ↦ rw (failed, stop_processes) refl
  ]

  stop_processes-Noted :
      (processes : Dict Process) (pid : ℕ) (w : W)
      → Noted pid w
      → Noted pid (stop_processes env processes w).1
  unfolding stop_processes
  stop_processes-Noted [] pid w h = h
  stop_processes-Noted ((name, p) ∷ processes) pid w h =
      subst (Noted pid) (sym (world-cons name p processes w)) (
        stop_processes-Noted processes pid (stop_process env.os p w).1
          (stop_process-Noted p pid w h))

  -- A process that was started has a note.
  abbrev pub IsNoted : W → String × Process → Type 0
  IsNoted w (name, p) = (pid : ℕ) → p.cmd ≡ some pid → Noted pid w

  stop_processes-All :
      (processes : Dict Process) (w : W)
      → All (IsNoted (stop_processes env processes w).1) processes
  stop_processes-All [] w = tt
  stop_processes-All ((name, p) ∷ processes) w =
      let w1 = (stop_process env.os p w).1 in
      subst (λ v. All (IsNoted v) ((name, p) ∷ processes)) (sym (world-cons name p processes w))
        (
          (λ pid e. stop_processes-Noted processes pid w1 (stop_process-own p pid w e)),
          stop_processes-All processes w1,
        )

  stop_error-world : (out : List Error × W) → (stop_error env out).1 ≡ out.1
  stop_error-world ([], w) = refl
  stop_error-world (e ∷ errors, w) = refl

  -- Stop sends an interrupt to every process of the manager that was started, also where the stop
  -- of another one fails, if the interrupts that were sent stay sent.
  pub stop-IsNoted : (m : Manager W) (w : W) → All (IsNoted (stop env m w).1) m.processes
  unfolding stop
  stop-IsNoted m w =
      let closed = close_clients env m.clients w in
      subst (λ v. All (IsNoted v) m.processes)
        (sym (stop_error-world (stop_processes env m.processes closed)))
        (stop_processes-All m.processes closed)
