-- ===== src/Tests/LifecycleTests.antt =====
-- internal/upstream/server.go: runs of Start and Stop.
use thrust_oauth2id_server.Prelude.{ℕ, ◌≡◌, ◌⊎◌, inl, refl, true, false, none, some, Option, Bool}
use thrust_oauth2id_server.Upstream.Lifecycle.{
  Exit, success, code, running, exited, StartError, wait_failed, StopError, closing, returned,
  stopped, Server, new_server, register, launch, wait_code, decide, close_done, reset, take, signal,
  done_closed, start, stop, exit, Reach, here, next,
}
use thrust_oauth2id_server.Upstream.Lifecycle.Outcomes.{returned-nil, stopped-nil}
use thrust_oauth2id_server.Upstream.Lifecycle.Progress.{both_return}
use thrust_oauth2id_server.Upstream.Lifecycle.Race.{stop_before_launch}

-- The process is signalled, and exits with the code 143.
abbrev over : Server
over = record {
  cmd = false;
  stopping = true;
  done = true;
  process = exited (code 143);
  start = returned none;
  stop = stopped true none;
}

stopped_run : Reach new_server over
unfolding new_server
stopped_run =
    next
      (next
        (next
          (next
            (next
              (next
                (next
                  (next (next (next here (start (register _ refl))) (start (launch _ refl)))
                    (stop (take _ refl)))
                  (stop (signal _ refl (λ e. cc))))
                (exit _ (code 143) refl))
              (start (wait_code _ 143 refl refl)))
            (start (decide _ 143 refl)))
          (start (close_done _ none refl)))
        (start (reset _ none refl)))
      (stop (done_closed _ refl refl))

returned-nil_example :
    (over.process ≡ exited success)
    ⊎ ((c : ℕ) × (over.process ≡ exited (code c)) × (over.stopping ≡ true))
returned-nil_example = returned-nil stopped_run refl

stopped-nil_example :
    (r : Option StartError) × ((over.start ≡ closing r) ⊎ (over.start ≡ returned r))
    × (((e : Exit) × (over.process ≡ exited e)) ⊎ (r ≡ some wait_failed))
stopped-nil_example = stopped-nil stopped_run refl

both_return_example :
    (t : Server) × Reach new_server t
    × ((r : Option StartError) × (t.start ≡ returned r))
    × ((b : Bool) × (x : Option StopError) × (t.stop ≡ stopped b x))
both_return_example = both_return here

stop_before_launch_example :
    (t : Server) × Reach new_server t × (t.process ≡ running) × (t.stop ≡ stopped false none)
unfolding new_server
stop_before_launch_example = stop_before_launch here (inl refl) refl
