-- ===== src/Manager/Process.antt =====
-- internal/plugins/process.go: the process of a plugin. The operating system is an argument, and
-- the clock is part of the world.
use vulpes_core.Base.{
  ℕ, zero, suc, ◌+◌, String, ◌<>◌, Bool, true, false, List, [], ◌∷◌, Option, none, some, Result, ok,
  err, ltb, if◌then◌else◌,
}
use vulpes_core.Base.Text.{sprint}
use vulpes_core.Capabilities.{Error, plain, wrap}
use vulpes_core.FilePath.{join, join_all}

-- `exec.Cmd`, as far as it is set.
pub record Command : Type 0 where
  pub path : String
  pub env : List String

-- What ends the wait in Stop: the context, the three seconds, or the process.
pub data Ending : Type 0 where
  cancelled : Error → Ending
  timed_out : Ending
  exited : Option Error → Ending

pub record Os (W : Type 0) : Type 0 where
  pub temp_dir : String
  -- `time.Now`, in nanoseconds
  pub now : W → ℕ
  pub path_variable : W → String
  pub mkdir_all : String → ℕ → W → Option Error × W
  pub remove : String → W → W
  -- `cmd.Start`: the number of the process
  pub start_command : Command → W → Result Error ℕ × W
  -- whether the socket takes a connection within 50 ms
  pub dial_unix : String → W → Bool × W
  -- the error of the context, or nothing after 50 ms
  pub pause : W → Option Error × W
  pub interrupt : ℕ → W → W
  pub kill : ℕ → W → W
  pub wait : ℕ → W → Ending × W

pub record Process : Type 0 where
  pub name : String
  pub path : String
  pub socket : String
  -- the process that was started, if any
  pub cmd : Option ℕ
  pub launches : ℕ

abbrev pub new_process : String → String → Process
new_process name path = record { name = name; path = path; socket = ""; cmd = none; launches = 0 }

-- The names of the environment that a plugin gets, with their values.
abbrev pub plugin_env : String → String → String → List String
plugin_env path_variable socket name =
    ("PATH=" <> path_variable)
    ∷ ("GATEWAY_PLUGIN_SOCKET=" <> socket)
    ∷ ("GATEWAY_PLUGIN_INSTANCE=" <> name)
    ∷ "GATEWAY_PLUGIN_PROTOCOL_VERSION=1"
    ∷ []

abbrev pub no_socket : Process → Error
no_socket p = plain ("plugin " <> p.name <> " did not create socket " <> p.socket)

module _ {W : Type 0} (os : Os W) where
  -- What a round does with the result of its dial.
  abbrev pub round : (W → Option Error × W) → Bool × W → Option Error × W
  round rest (true, w) = (none, w)
  round rest (false, w) =
      let (cut, w') = os.pause w in elim cut [ some e ↦ (some e, w') | none ↦ rest w' ]

  -- The loop of Start, for a number of rounds.
  unfoldable pub await_socket : Process → ℕ → ℕ → W → Option Error × W
  await_socket p deadline zero w = (some (no_socket p), w)
  await_socket p deadline (suc n) w =
      if ltb (os.now w) deadline
      then round (await_socket p deadline n) (os.dial_unix p.socket w)
      else (some (no_socket p), w)

  -- The deadline of the context, or five seconds.
  abbrev pub deadline_of : Option ℕ → W → ℕ
  deadline_of (some deadline) w = deadline
  deadline_of none w = os.now w + 5000000000

  -- `Start`: the error, the process as it is then, and the world.
  unfoldable pub start_process : Option ℕ → ℕ → Process → W → Option Error × Process × W
  unfolding await_socket join join_all
  start_process deadline rounds p w =
      let dir = join_all (os.temp_dir ∷ "llm-gateway" ∷ "plugins" ∷ []) in
      made dir (os.mkdir_all dir 493 w)
    where
      waited : Process → Option Error × W → Option Error × Process × W
      waited p' (e, w') = (e, p', w')

      started : Process → Result Error ℕ × W → Option Error × Process × W
      started p' (err e, w') = (some (wrap ("start plugin " <> p.name <> ": ") e ""), p', w')
      started p' (ok pid, w') =
          let running = record p' { cmd = some pid; launches = suc p.launches } in
          waited running (await_socket running (deadline_of deadline w') rounds w')

      made : String → Option Error × W → Option Error × Process × W
      made dir (some e, w') = (some e, p, w')
      made dir (none, w') =
          let socket = join dir (p.name <> "-" <> sprint (os.now w') <> ".sock") in
          let w'' = os.remove socket w' in
          started (record p { socket = socket })
            (os.start_command
              (record { path = p.path; env = plugin_env (os.path_variable w'') socket p.name }) w'')

  -- What follows the wait of Stop.
  abbrev pub after_wait : ℕ → Ending × W → Option Error × W
  after_wait pid (cancelled e, w) = (some e, os.kill pid w)
  after_wait pid (timed_out, w) = (none, os.kill pid w)
  after_wait pid (exited e, w) = (e, w)

  -- `Stop`
  unfoldable pub stop_process : Process → W → Option Error × W
  stop_process p w = elim p.cmd [
    | none ↦ (none, w)
    | some pid ↦ after_wait pid (os.wait pid (os.interrupt pid w))
  ]
