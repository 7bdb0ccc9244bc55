-- ===== src/Upstream/Lifecycle.antt =====
-- internal/upstream/server.go: Start and Stop as the steps between which the two goroutines and the
-- process interleave. Start is called once, and Stop once; the fields of Server are read and written
-- under its lock, one step for each time that it is held.
pub mod Invariant
pub mod Outcomes
pub mod Progress
pub mod Race
use thrust_oauth2id_server.Prelude.{
  ℕ, ◌≡◌, ◌≢◌, Bool, true, false, Option, none, some, if◌then◌else◌,
}

-- How a process ended: with the code 0, or as exec.ExitError with another or a signal.
pub data Exit : Type 0 where
  success : Exit
  code : ℕ → Exit

-- cmd.Process: nil until cmd.Start has made it.
pub data Process : Type 0 where
  not_started : Process
  running : Process
  exited : Exit → Process

pub data StartError : Type 0 where
  start_failed wait_failed : StartError
  exited_with : ℕ → StartError

pub data StopError : Type 0 where
  signal_failed kill_failed : StopError

-- Where Start is: before it holds the lock; before cmd.Start; in cmd.Wait; before it reads
-- `stopping`; before the deferred close of `done`; before the deferred reset; returned.
pub data StartAt : Type 0 where
  entered registered waiting : StartAt
  exit_seen : ℕ → StartAt
  leaving closing returned : Option StartError → StartAt

-- Where Stop is: not yet called; behind its lock, with whether `cmd` was set; waiting for `done`
-- behind the signal, or behind the kill; returned, with whether the signal was sent.
pub data StopAt : Type 0 where
  not_called : StopAt
  took : Bool → StopAt
  signalled killed : StopAt
  stopped : Bool → Option StopError → StopAt

-- The fields of Server, the process, and the two calls. `cmd` is whether the field is set, and
-- `done` whether the channel is closed.
pub record Server : Type 0 where
  pub cmd : Bool
  pub stopping : Bool
  pub done : Bool
  pub process : Process
  pub start : StartAt
  pub stop : StopAt

-- NewServer
unfoldable pub new_server : Server
new_server = record {
  cmd = false;
  stopping = false;
  done = false;
  process = not_started;
  start = entered;
  stop = not_called;
}

-- What Start makes of an exit code, given `stopping`.
abbrev pub exit_result : Bool → ℕ → Option StartError
exit_result stopping c = if stopping then none else some (exited_with c)

pub data StartStep : Server → Server → Type 0 where
  register :
      (s : Server)
      → s.start ≡ entered
      → StartStep s (record s { cmd = true; stopping = false; start = registered })
  launch :
      (s : Server)
      → s.start ≡ registered
      → StartStep s (record s { process = running; start = waiting })
  launch_failed :
      (s : Server)
      → s.start ≡ registered
      → StartStep s (record s { start = leaving (some start_failed) })
  wait_success :
      (s : Server)
      → s.start ≡ waiting
      → s.process ≡ exited success
      → StartStep s (record s { start = leaving none })
  wait_code :
      (s : Server) (c : ℕ)
      → s.start ≡ waiting
      → s.process ≡ exited (code c)
      → StartStep s (record s { start = exit_seen c })
  wait_error :
      (s : Server)
      → s.start ≡ waiting
      → StartStep s (record s { start = leaving (some wait_failed) })
  decide :
      (s : Server) (c : ℕ)
      → s.start ≡ exit_seen c
      → StartStep s (record s { start = leaving (exit_result s.stopping c) })
  close_done :
      (s : Server) (r : Option StartError)
      → s.start ≡ leaving r
      → StartStep s (record s { done = true; start = closing r })
  reset :
      (s : Server) (r : Option StartError)
      → s.start ≡ closing r
      → StartStep s (record s { cmd = false; start = returned r })

pub data StopStep : Server → Server → Type 0 where
  take :
      (s : Server)
      → s.stop ≡ not_called
      → StopStep s (record s { stopping = true; stop = took s.cmd })
  no_command :
      (s : Server) → s.stop ≡ took false → StopStep s (record s { stop = stopped false none })
  no_process :
      (s : Server)
      → s.stop ≡ took true
      → s.process ≡ not_started
      → StopStep s (record s { stop = stopped false none })
  signal :
      (s : Server)
      → s.stop ≡ took true
      → s.process ≢ not_started
      → StopStep s (record s { stop = signalled })
  signal_refused :
      (s : Server)
      → s.stop ≡ took true
      → s.process ≢ not_started
      → StopStep s (record s { stop = stopped true (some signal_failed) })
  done_closed :
      (s : Server)
      → s.stop ≡ signalled
      → s.done ≡ true
      → StopStep s (record s { stop = stopped true none })
  timeout_kill : (s : Server) → s.stop ≡ signalled → StopStep s (record s { stop = killed })
  kill_refused :
      (s : Server)
      → s.stop ≡ signalled
      → StopStep s (record s { stop = stopped true (some kill_failed) })
  done_after_kill :
      (s : Server)
      → s.stop ≡ killed
      → s.done ≡ true
      → StopStep s (record s { stop = stopped true none })

-- A process may exit at any time, by itself or by a signal.
pub data Step : Server → Server → Type 0 where
  start : {s t : Server} → StartStep s t → Step s t
  stop : {s t : Server} → StopStep s t → Step s t
  exit : (s : Server) (e : Exit) → s.process ≡ running → Step s (record s { process = exited e })

pub data Reach (s : Server) : Server → Type 0 where
  here : Reach s s
  next : {t u : Server} → Reach s t → Step t u → Reach s u

pub Reach-trans : {s t u : Server} → Reach s t → Reach t u → Reach s u
Reach-trans r here = r
Reach-trans r (next q st) = next (Reach-trans r q) st
