-- ===== src/Tests/Parts.antt =====
-- Logs, a shutdown and a watchdog.
use rale.Base.{ℕ, zero, suc, ◌≤◌, ◌≡◌, refl, true, false, [], ◌∷◌, none, some, arith, pos, length}
use rale.Text.{codes, str_eq}
use rale.Dlog.{Dlog, NodeLog, LogEntry, index_from, dlog_append_entry}
use rale.Dlog.Views.{IsValid, Appends}
use rale.Dlog.Append.{dlog_append_entry-Appends}
use rale.Shutdown.{
  Shutdown, librale_request_shutdown, librale_is_shutdown_requested,
  librale_wait_for_shutdown_completion, perform_all,
}
use rale.Shutdown.Completion.{reports, wait-reports}
use rale.Watchdog.{
  WatchdogConfig, mode_required, in_test, started, watchdog_init, watchdog_config_validate,
  watchdog_can_become_leader, watchdog_get_state, keepalive, disable, prepare,
}
use rale.Watchdog.{perform_all as watch_all}
use rale.Watchdog.Leadership.{can_become_leader-perform_all}

-- Node 7 stands in the map, with one entry.
abbrev old : LogEntry
old = record { term = pos 1; entry = codes "old" }

abbrev seven : NodeLog
seven = record { entries = old ∷ []; commit_index = 0 }

abbrev nothing : NodeLog
nothing = record { entries = []; commit_index = 0 }

abbrev place : ℕ → NodeLog
place zero = seven
place (suc i) = nothing

abbrev logs : Dlog
logs = record { node_logs = place; node_id_map = pos 7 ∷ [] }

logs-IsValid : IsValid logs
logs-IsValid = record { few = omega arith; short = short; fresh = fresh }
  where
    short : (i : ℕ) → length (place i).entries ≤ 4096
    short zero = omega arith
    short (suc i) = omega arith

    fresh : (i : ℕ) → 1 ≤ i → (place i).entries ≡ []
    fresh zero h = absurd (omega arith)
    fresh (suc i) h = refl

dlog_append_entry-Appends_example :
    Appends logs
      (pos 3)
      (record { term = pos 2; entry = codes "new" })
      true
      (dlog_append_entry true logs (pos 3) (pos 2) (some (codes "new")))
unfolding index_from
dlog_append_entry-Appends_example =
    dlog_append_entry-Appends true logs (pos 3) (pos 2) (codes "new") logs-IsValid

abbrev ready : Shutdown
ready = record {
  initialized = true;
  system_exit = false;
  dstore = false;
  rale = false;
  comm = false;
}

-- All have reported before the wait, and none during it; it does not wake up by itself.
wait-reports_example :
    let asked =
      (perform_all
        (librale_request_shutdown ready).0
        (reports (codes "comm" ∷ codes "rale" ∷ codes "dstore" ∷ []))).0 in
    (librale_is_shutdown_requested asked (some (codes "dstore")) ≡ false)
    × (librale_is_shutdown_requested asked (some (codes "rale")) ≡ false)
    × (librale_is_shutdown_requested asked (some (codes "comm")) ≡ false)
    × (librale_is_shutdown_requested asked none ≡ true)
    × (librale_wait_for_shutdown_completion false asked (reports []) ≡ false)
unfolding str_eq
wait-reports_example =
    wait-reports false ready (codes "comm" ∷ codes "rale" ∷ codes "dstore" ∷ []) [] refl

abbrev required : WatchdogConfig
required = record {
  device_path = codes "/dev/watchdog";
  mode = mode_required;
  timeout_seconds = 30;
  safety_margin_seconds = 5;
  keepalive_interval_seconds = 10;
  test_mode = true;
}

can_become_leader-perform_all_example :
    (watchdog_can_become_leader
        (some (watch_all ((1, disable) ∷ (2, prepare) ∷ (3, keepalive) ∷ []) (started required)))
      ≡ true)
    × (watchdog_get_state
          (some (watch_all ((1, disable) ∷ (2, prepare) ∷ (3, keepalive) ∷ []) (started required)))
        ≡ in_test)
unfolding watchdog_init watchdog_config_validate
can_become_leader-perform_all_example =
    can_become_leader-perform_all true true required (started required)
      ((1, disable) ∷ (2, prepare) ∷ (3, keepalive) ∷ []) refl refl
