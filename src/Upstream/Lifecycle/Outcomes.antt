-- ===== src/Upstream/Lifecycle/Outcomes.antt =====
-- internal/upstream/server.go: what the results of Start and Stop tell of the process.
use thrust_oauth2id_server.Prelude.{ℕ, ◌≡◌, ◌⊎◌, inl, inr, refl, true, Option, none, some}
use thrust_oauth2id_server.Upstream.Lifecycle.{
  Exit, success, code, exited, StartError, start_failed, wait_failed, exited_with, StartAt, entered,
  registered, waiting, exit_seen, leaving, closing, returned, stopped, Server, new_server, Reach,
}
use thrust_oauth2id_server.Upstream.Lifecycle.Invariant.{
  Started, Result, AtStart, new_server-Inv, known_start, known_stop, not_started-absurd, Reach-Inv,
}

-- Whenever Start has returned nil, the process has exited, with the code 0 unless Stop was called.
pub returned-nil :
    {s : Server}
    → Reach new_server s
    → s.start ≡ returned none
    → (s.process ≡ exited success) ⊎ ((c : ℕ) × (s.process ≡ exited (code c)) × (s.stopping ≡ true))
returned-nil {s} r e = (known_start (returned none) e (Reach-Inv r new_server-Inv)).0

Result-exited :
    (s : Server) (r : Option StartError)
    → Started s.process
    → Result r s
    → ((e : Exit) × (s.process ≡ exited e)) ⊎ (r ≡ some wait_failed)
Result-exited s none st (inl x) = inl (success, x)
Result-exited s none st (inr (c, x, asked)) = inl (code c, x)
Result-exited s (some start_failed) st x = not_started-absurd x st
Result-exited s (some wait_failed) st x = inr refl
Result-exited s (some (exited_with c)) st x = inl (code c, x)

-- Where Start closed `done`, with its result.
abbrev pub HasLeft : Server → StartAt → Type 0
HasLeft s x = (r : Option StartError) × ((x ≡ closing r) ⊎ (x ≡ returned r)) × Result r s

has_left : (s : Server) (x : StartAt) → s.done ≡ true → AtStart x s → HasLeft s x
has_left s entered d (p, o, k) = cc
has_left s registered d (p, o, k) = cc
has_left s waiting d (p, o, k) = cc
has_left s (exit_seen c) d (p, o, k) = cc
has_left s (leaving r) d (p, o, k) = cc
has_left s (closing r) d (p, o, k) = (r, inl refl, p)
has_left s (returned r) d (p, o, k) = (r, inr refl, p)

-- Whenever Stop has sent its signal and returned nil, Start is past its wait for the process: the
-- process has exited, unless that wait itself failed.
pub stopped-nil :
    {s : Server}
    → Reach new_server s
    → s.stop ≡ stopped true none
    → (r : Option StartError) × ((s.start ≡ closing r) ⊎ (s.start ≡ returned r))
      × (((e : Exit) × (s.process ≡ exited e)) ⊎ (r ≡ some wait_failed))
stopped-nil {s} reached e =
    let i = Reach-Inv reached new_server-Inv in
    let (st, d) = known_stop (stopped true none) e i in
    let (r, left, result) = has_left s s.start d i.at_start in
    (r, left, Result-exited s r st result)
