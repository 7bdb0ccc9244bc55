-- ===== src/Upstream/Lifecycle/Progress.antt =====
-- internal/upstream/server.go: Start and Stop never block each other for good.
use thrust_oauth2id_server.Prelude.{
  ◌≡◌, ◌≢◌, ◌⊎◌, inl, inr, refl, ◌∙◌, Bool, true, false, Option, none,
}
use thrust_oauth2id_server.Upstream.Lifecycle.{
  Exit, success, code, Process, not_started, running, exited, StartError, StopError, StartAt,
  entered, registered, waiting, exit_seen, leaving, closing, returned, StopAt, not_called, took,
  signalled, killed, stopped, Server, new_server, register, launch, wait_success, wait_code, decide,
  close_done, reset, take, no_command, no_process, signal, done_closed, done_after_kill, Step,
  start, stop, exit, Reach, here, next, Reach-trans,
}
use thrust_oauth2id_server.Upstream.Lifecycle.Invariant.{
  Started, Inv, new_server-Inv, known_start, Reach-Inv,
}

-- Start can return from here, without a step of Stop.
abbrev Finishes : Server → Type 0
Finishes s =
    (t : Server) × Reach s t
    × ((r : Option StartError) × (t.start ≡ returned r))
    × (t.stop ≡ s.stop)

before : {s t : Server} → Step s t → t.stop ≡ s.stop → Finishes t → Finishes s
before st e (u, r, end, q) = (u, Reach-trans (next here st) r, end, q ∙ e)

from_closing : (s : Server) (r : Option StartError) → s.start ≡ closing r → Finishes s
from_closing s r e = (_, next here (start (reset s r e)), (r, refl), refl)

from_leaving : (s : Server) (r : Option StartError) → s.start ≡ leaving r → Finishes s
from_leaving s r e = before (start (close_done s r e)) refl (from_closing _ r refl)

from_exited : (s : Server) (e : Exit) → s.start ≡ waiting → s.process ≡ exited e → Finishes s
from_exited s success w p = before (start (wait_success s w p)) refl (from_leaving _ none refl)
from_exited s (code c) w p =
    before (start (wait_code s c w p)) refl
      (before (start (decide _ c refl)) refl (from_leaving _ _ refl))

from_waiting :
    (s : Server) (p : Process) → s.start ≡ waiting → s.process ≡ p → Started p → Finishes s
from_waiting s not_started w e st = absurd st
from_waiting s running w e st = before (exit s success e) refl (from_exited _ success w refl)
from_waiting s (exited x) w e st = from_exited s x w e

from_registered : (s : Server) → s.start ≡ registered → Finishes s
from_registered s e = before (start (launch s e)) refl (from_waiting _ running refl refl tt)

start_finishes : (s : Server) (x : StartAt) → s.start ≡ x → Inv s → Finishes s
start_finishes s entered e i = before (start (register s e)) refl (from_registered _ refl)
start_finishes s registered e i = from_registered s e
start_finishes s waiting e i = from_waiting s s.process e refl (known_start waiting e i).0
start_finishes s (exit_seen c) e i = before (start (decide s c e)) refl (from_leaving _ _ refl)
start_finishes s (leaving r) e i = from_leaving s r e
start_finishes s (closing r) e i = from_closing s r e
start_finishes s (returned r) e i = (s, here, (r, e), refl)

not_started-cases : (p : Process) → (p ≡ not_started) ⊎ (p ≢ not_started)
not_started-cases not_started = inl refl
not_started-cases running = inr (λ e. cc)
not_started-cases (exited x) = inr (λ e. cc)

-- Stop can return from here, without a step of Start.
abbrev Stops : Server → Type 0
Stops s =
    (t : Server) × Reach s t
    × ((b : Bool) × (x : Option StopError) × (t.stop ≡ stopped b x))
    × (t.start ≡ s.start)

then-Stops : {s t : Server} → Step s t → t.start ≡ s.start → Stops t → Stops s
then-Stops st e (u, r, end, q) = (u, Reach-trans (next here st) r, end, q ∙ e)

from_signalled : (s : Server) → s.stop ≡ signalled → s.done ≡ true → Stops s
from_signalled s e d = (_, next here (stop (done_closed s e d)), (true, none, refl), refl)

from_took : (s : Server) (b : Bool) → s.stop ≡ took b → s.done ≡ true → Stops s
from_took s false e d = (_, next here (stop (no_command s e)), (false, none, refl), refl)
from_took s true e d = elim (not_started-cases s.process) [
  | inl p ↦ (_, next here (stop (no_process s e p)), (false, none, refl), refl)
  | inr p ↦ then-Stops (stop (signal s e p)) refl (from_signalled _ refl d)
]

stop-Stops : (s : Server) (x : StopAt) → s.stop ≡ x → s.done ≡ true → Stops s
stop-Stops s not_called e d = then-Stops (stop (take s e)) refl (from_took _ s.cmd refl d)
stop-Stops s (took b) e d = from_took s b e d
stop-Stops s signalled e d = from_signalled s e d
stop-Stops s killed e d = (_, next here (stop (done_after_kill s e d)), (true, none, refl), refl)
stop-Stops s (stopped b x) e d = (s, here, (b, x, e), refl)

-- From every state that Start, Stop and the process can come to, there are steps after which Start
-- and Stop have both returned: neither waits for the other in vain.
pub both_return :
    {s : Server}
    → Reach new_server s
    → (t : Server) × Reach s t
      × ((r : Option StartError) × (t.start ≡ returned r))
      × ((b : Bool) × (x : Option StopError) × (t.stop ≡ stopped b x))
both_return {s} reached =
    let i = Reach-Inv reached new_server-Inv in
    let (t, r, (x, left), q) = start_finishes s s.start refl i in
    let (p, d, k) = known_start (returned x) left (Reach-Inv r i) in
    let (u, r', end, q') = stop-Stops t t.stop refl d in (u, Reach-trans r r', (x, q' ∙ left), end)
