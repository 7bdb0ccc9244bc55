-- ===== src/Upstream/Lifecycle/Invariant.antt =====
-- internal/upstream/server.go: what holds between any two steps of Start, Stop and the process.
use thrust_oauth2id_server.Prelude.{
  ℕ, ◌≡◌, ◌≢◌, ◌⊎◌, inl, inr, refl, sym, ◌∙◌, Bool, true, false, Option, none, some,
}
use mathlib.Core.Path.{subst}
use thrust_oauth2id_server.Upstream.Lifecycle.{
  Exit, success, code, Process, not_started, running, exited, StartError, start_failed, wait_failed,
  exited_with, StartAt, entered, registered, waiting, exit_seen, leaving, closing, returned, StopAt,
  not_called, took, signalled, killed, stopped, Server, new_server, StartStep, register, launch,
  launch_failed, wait_success, wait_code, wait_error, decide, close_done, reset, StopStep, take,
  no_command, no_process, signal, signal_refused, done_closed, timeout_kill, kill_refused,
  done_after_kill, Step, start, stop, exit, Reach, here, next, exit_result,
}

abbrev pub Started : Process → Type 0
Started not_started = ⊥
Started running = Unit
Started (exited e) = Unit

-- What a result of Start says of the process, and of whether Stop was called.
abbrev pub Result : Option StartError → Server → Type 0
Result none s =
    (s.process ≡ exited success) ⊎ ((c : ℕ) × (s.process ≡ exited (code c)) × (s.stopping ≡ true))
Result (some start_failed) s = s.process ≡ not_started
Result (some wait_failed) s = Started s.process
Result (some (exited_with c)) s = s.process ≡ exited (code c)

abbrev pub AtStart : StartAt → Server → Type 0
AtStart entered s = (s.process ≡ not_started) × (s.done ≡ false) × (s.cmd ≡ false)
AtStart registered s = (s.process ≡ not_started) × (s.done ≡ false) × (s.cmd ≡ true)
AtStart waiting s = Started s.process × (s.done ≡ false) × (s.cmd ≡ true)
AtStart (exit_seen c) s = (s.process ≡ exited (code c)) × (s.done ≡ false) × (s.cmd ≡ true)
AtStart (leaving r) s = Result r s × (s.done ≡ false) × (s.cmd ≡ true)
AtStart (closing r) s = Result r s × (s.done ≡ true) × (s.cmd ≡ true)
AtStart (returned r) s = Result r s × (s.done ≡ true) × (s.cmd ≡ false)

abbrev pub AtStop : StopAt → Server → Type 0
AtStop not_called s = Unit
AtStop (took b) s = Unit
AtStop signalled s = Started s.process
AtStop killed s = Started s.process
AtStop (stopped false e) s = e ≡ none
AtStop (stopped true none) s = Started s.process × (s.done ≡ true)
AtStop (stopped true (some e)) s = Started s.process

pub record Inv (s : Server) : Type 0 where
  pub at_start : AtStart s.start s
  pub at_stop : AtStop s.stop s

pub new_server-Inv : Inv new_server
unfolding new_server
new_server-Inv = record { at_start = (refl, refl, refl); at_stop = tt }

pub known_start : {s : Server} (x : StartAt) → s.start ≡ x → Inv s → AtStart x s
known_start {s} x e i = subst (λ (y : StartAt). AtStart y s) e i.at_start

pub known_stop : {s : Server} (x : StopAt) → s.stop ≡ x → Inv s → AtStop x s
known_stop {s} x e i = subst (λ (y : StopAt). AtStop y s) e i.at_stop

-- What is said of Stop stays true while the process has started and `done` is closed.
AtStop-keep :
    (x : StopAt) (s t : Server)
    → (Started s.process → Started t.process)
    → (s.done ≡ true → t.done ≡ true)
    → AtStop x s
    → AtStop x t
AtStop-keep not_called s t p d h = tt
AtStop-keep (took b) s t p d h = tt
AtStop-keep signalled s t p d h = p h
AtStop-keep killed s t p d h = p h
AtStop-keep (stopped false e) s t p d h = h
AtStop-keep (stopped true none) s t p d h = (p h.0, d h.1)
AtStop-keep (stopped true (some e)) s t p d h = p h

-- What is said of Start stays true while Stop moves.
module _ (s t : Server) (process : s.process ≡ t.process)
    (stopping : s.stopping ≡ true → t.stopping ≡ true) where
  Result-keep : (r : Option StartError) → Result r s → Result r t
  Result-keep none (inl e) = inl (sym process ∙ e)
  Result-keep none (inr (c, e, asked)) = inr (c, sym process ∙ e, stopping asked)
  Result-keep (some start_failed) h = sym process ∙ h
  Result-keep (some wait_failed) h = subst (λ (p : Process). Started p) process h
  Result-keep (some (exited_with c)) h = sym process ∙ h

module _ (s t : Server) (process : s.process ≡ t.process) (done : s.done ≡ t.done)
    (cmd : s.cmd ≡ t.cmd) (stopping : s.stopping ≡ true → t.stopping ≡ true) where
  AtStart-keep : (x : StartAt) → AtStart x s → AtStart x t
  AtStart-keep entered (p, d, k) = (sym process ∙ p, sym done ∙ d, sym cmd ∙ k)
  AtStart-keep registered (p, d, k) = (sym process ∙ p, sym done ∙ d, sym cmd ∙ k)
  AtStart-keep waiting (p, d, k) =
      (subst (λ (q : Process). Started q) process p, sym done ∙ d, sym cmd ∙ k)
  AtStart-keep (exit_seen c) (p, d, k) = (sym process ∙ p, sym done ∙ d, sym cmd ∙ k)
  AtStart-keep (leaving r) (p, d, k) =
      (Result-keep s t process stopping r p, sym done ∙ d, sym cmd ∙ k)
  AtStart-keep (closing r) (p, d, k) =
      (Result-keep s t process stopping r p, sym done ∙ d, sym cmd ∙ k)
  AtStart-keep (returned r) (p, d, k) =
      (Result-keep s t process stopping r p, sym done ∙ d, sym cmd ∙ k)

Started-ne : (p : Process) → p ≢ not_started → Started p
Started-ne not_started h = h refl
Started-ne running h = tt
Started-ne (exited e) h = tt

Started-of : {p : Process} (e : Exit) → p ≡ exited e → Started p
Started-of e h = subst (λ (q : Process). Started q) (sym h) tt

pub not_started-absurd : {A : Type 0} {p : Process} → p ≡ not_started → Started p → A
not_started-absurd h st = absurd (subst (λ (q : Process). Started q) h st)

-- The result that Start decides on for an exit code.
exit_result-Result :
    (s : Server) (c : ℕ) (b : Bool)
    → s.stopping ≡ b
    → s.process ≡ exited (code c)
    → Result (exit_result b c) s
exit_result-Result s c true asked e = inr (c, e, asked)
exit_result-Result s c false asked e = e

StartStep-Inv : {s t : Server} → StartStep s t → Inv s → Inv t
StartStep-Inv (register s e) i =
    let (p, d, k) = known_start entered e i in
    record { at_start = (p, d, refl); at_stop = AtStop-keep s.stop s _ (λ h. h) (λ h. h) i.at_stop }
StartStep-Inv (launch s e) i =
    let (p, d, k) = known_start registered e i in
    record { at_start = (tt, d, k); at_stop = AtStop-keep s.stop s _ (λ h. tt) (λ h. h) i.at_stop }
StartStep-Inv (launch_failed s e) i =
    let (p, d, k) = known_start registered e i in
    record { at_start = (p, d, k); at_stop = AtStop-keep s.stop s _ (λ h. h) (λ h. h) i.at_stop }
StartStep-Inv (wait_success s e x) i =
    let (p, d, k) = known_start waiting e i in
    record {
      at_start = (inl x, d, k);
      at_stop = AtStop-keep s.stop s _ (λ h. h) (λ h. h) i.at_stop;
    }
StartStep-Inv (wait_code s c e x) i =
    let (p, d, k) = known_start waiting e i in
    record { at_start = (x, d, k); at_stop = AtStop-keep s.stop s _ (λ h. h) (λ h. h) i.at_stop }
StartStep-Inv (wait_error s e) i =
    let (p, d, k) = known_start waiting e i in
    record { at_start = (p, d, k); at_stop = AtStop-keep s.stop s _ (λ h. h) (λ h. h) i.at_stop }
StartStep-Inv (decide s c e) i =
    let (p, d, k) = known_start (exit_seen c) e i in
    record {
      at_start = (exit_result-Result _ c s.stopping refl p, d, k);
      at_stop = AtStop-keep s.stop s _ (λ h. h) (λ h. h) i.at_stop;
    }
StartStep-Inv (close_done s r e) i =
    let (p, d, k) = known_start (leaving r) e i in
    record {
      at_start = (Result-keep s _ refl (λ h. h) r p, refl, k);
      at_stop = AtStop-keep s.stop s _ (λ h. h) (λ h. refl) i.at_stop;
    }
StartStep-Inv (reset s r e) i =
    let (p, d, k) = known_start (closing r) e i in
    record {
      at_start = (Result-keep s _ refl (λ h. h) r p, d, refl);
      at_stop = AtStop-keep s.stop s _ (λ h. h) (λ h. h) i.at_stop;
    }

StopStep-Inv : {s t : Server} → StopStep s t → Inv s → Inv t
StopStep-Inv (take s e) i = record {
  at_start = AtStart-keep s _ refl refl refl (λ h. refl) s.start i.at_start;
  at_stop = tt;
}
StopStep-Inv (no_command s e) i = record {
  at_start = AtStart-keep s _ refl refl refl (λ h. h) s.start i.at_start;
  at_stop = refl;
}
StopStep-Inv (no_process s e p) i = record {
  at_start = AtStart-keep s _ refl refl refl (λ h. h) s.start i.at_start;
  at_stop = refl;
}
StopStep-Inv (signal s e p) i = record {
  at_start = AtStart-keep s _ refl refl refl (λ h. h) s.start i.at_start;
  at_stop = Started-ne s.process p;
}
StopStep-Inv (signal_refused s e p) i = record {
  at_start = AtStart-keep s _ refl refl refl (λ h. h) s.start i.at_start;
  at_stop = Started-ne s.process p;
}
StopStep-Inv (done_closed s e d) i = record {
  at_start = AtStart-keep s _ refl refl refl (λ h. h) s.start i.at_start;
  at_stop = (known_stop signalled e i, d);
}
StopStep-Inv (timeout_kill s e) i = record {
  at_start = AtStart-keep s _ refl refl refl (λ h. h) s.start i.at_start;
  at_stop = known_stop signalled e i;
}
StopStep-Inv (kill_refused s e) i = record {
  at_start = AtStart-keep s _ refl refl refl (λ h. h) s.start i.at_start;
  at_stop = known_stop signalled e i;
}
StopStep-Inv (done_after_kill s e d) i = record {
  at_start = AtStart-keep s _ refl refl refl (λ h. h) s.start i.at_start;
  at_stop = (known_stop killed e i, d);
}

-- A process that runs is one that Start waits for, or whose wait has failed.
Result-exit :
    (s : Server) (e : Exit) (r : Option StartError)
    → s.process ≡ running
    → Result r s
    → Result r (record s { process = exited e })
Result-exit s e none run (inl x) = cc
Result-exit s e none run (inr (c, x, asked)) = cc
Result-exit s e (some start_failed) run x = cc
Result-exit s e (some wait_failed) run x = tt
Result-exit s e (some (exited_with c)) run x = cc

AtStart-exit :
    (s : Server) (e : Exit) (x : StartAt)
    → s.process ≡ running
    → AtStart x s
    → AtStart x (record s { process = exited e })
AtStart-exit s e entered run (p, d, k) = cc
AtStart-exit s e registered run (p, d, k) = cc
AtStart-exit s e waiting run (p, d, k) = (tt, d, k)
AtStart-exit s e (exit_seen c) run (p, d, k) = cc
AtStart-exit s e (leaving r) run (p, d, k) = (Result-exit s e r run p, d, k)
AtStart-exit s e (closing r) run (p, d, k) = (Result-exit s e r run p, d, k)
AtStart-exit s e (returned r) run (p, d, k) = (Result-exit s e r run p, d, k)

pub Step-Inv : {s t : Server} → Step s t → Inv s → Inv t
Step-Inv (start st) i = StartStep-Inv st i
Step-Inv (stop st) i = StopStep-Inv st i
Step-Inv (exit s e run) i = record {
  at_start = AtStart-exit s e s.start run i.at_start;
  at_stop = AtStop-keep s.stop s _ (λ h. tt) (λ h. h) i.at_stop;
}

pub Reach-Inv : {s t : Server} → Reach s t → Inv s → Inv t
Reach-Inv here i = i
Reach-Inv (next r st) i = Step-Inv st (Reach-Inv r i)
