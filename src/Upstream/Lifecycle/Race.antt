-- ===== src/Upstream/Lifecycle/Race.antt =====
-- internal/upstream/server.go: a Stop that comes before the process has started.
use thrust_oauth2id_server.Prelude.{◌≡◌, ◌⊎◌, inl, inr, refl, ap, false, none}
use thrust_oauth2id_server.Upstream.Lifecycle.{
  running, entered, registered, not_called, took, stopped, Server, new_server, register, launch,
  take, no_command, no_process, start, stop, Reach, here, next,
}
use thrust_oauth2id_server.Upstream.Lifecycle.Invariant.{new_server-Inv, known_start, Reach-Inv}

-- From every state before the launch in which Stop has not been called there are steps to one in
-- which Stop has returned nil, with no signal sent, and the process runs.
pub stop_before_launch :
    {s : Server}
    → Reach new_server s
    → (s.start ≡ entered) ⊎ (s.start ≡ registered)
    → s.stop ≡ not_called
    → (t : Server) × Reach s t × (t.process ≡ running) × (t.stop ≡ stopped false none)
stop_before_launch {s} reached (inl e) idle =
    let i = Reach-Inv reached new_server-Inv in
    let (p, d, k) = known_start entered e i in
    let r =
      next
        (next (next (next here (stop (take s idle))) (stop (no_command _ (ap took k))))
          (start (register _ e)))
        (start (launch _ refl)) in
    (_, r, refl, refl)
stop_before_launch {s} reached (inr e) idle =
    let i = Reach-Inv reached new_server-Inv in
    let (p, d, k) = known_start registered e i in
    let r =
      next (next (next here (stop (take s idle))) (stop (no_process _ (ap took k) p)))
        (start (launch _ e)) in
    (_, r, refl, refl)
