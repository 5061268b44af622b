-- ===== src/Tests/Client.antt =====
-- The worker on concrete tasks.
use moe_asset_updater_client.Base.{
  ◌≤◌, ◌≡◌, refl, true, false, none, [], ◌∷◌, arith, length, Bytes, codes, equal, some, ◌^◌, ◌-◌,
}
use moe_asset_updater_client.Client.Active.{is_active, add_active, remove_active}
use moe_asset_updater_client.Base.Int.{pos}
use moe_asset_updater_client.Config.{DiagnosticsConfig, zero_config, apply_defaults}
use moe_asset_updater_client.Client.Memory.{format_bytes, configure_memory_limit}
use moe_asset_updater_client.Client.Memory.Scaled.{Fits, format_bytes-Fits}
use moe_asset_updater_client.Base.Outcome.{ok}
use moe_asset_updater_client.Tests.Unpack.{some_task}
use moe_asset_updater_client.Client.Tcp.{
  TcpWorker, Session, received, parent_done, empty_message, message_registered, message_task_push,
  run_tcp_once,
}
use moe_asset_updater_client.Client.Tcp.Closed.{IsClosed, run_tcp_once-IsClosed}
use moe_asset_updater_client.Client.Task.{
  Processing, crashed, delivered, Worker, Settings, run_task_safely,
}
use moe_asset_updater_client.Client.Task.Settled.{IsSettled, run_task_safely-IsSettled}
use moe_asset_updater_client.Client.Pool.{
  Pool, started, working, leaving, admit, begin, finish, Reach, start, later,
}
use moe_asset_updater_client.Client.Pool.Invariant.{is_working}
use moe_asset_updater_client.Client.Pool.Bounded.{Reach-slots, Reach-is_active}

abbrev first_id : Bytes
first_id = codes "t1"

abbrev keeping : Settings
keeping = record {
  cleanup = true;
  keep_failed = true;
  can_report = true;
  can_fail = true;
  fail_arrives = true;
}

abbrev crashing : Processing (Unit {0})
crashing = record { reports = 5 ∷ 30 ∷ []; task_dir = codes "work/tasks/t1"; ending = crashed }

abbrev idle_worker : Worker (Unit {0}) (Unit {0})
idle_worker = record { active = codes "t0" ∷ []; log = [] }

run_task_safely-IsSettled_example :
    IsSettled keeping first_id crashing delivered idle_worker
      (run_task_safely keeping first_id crashing delivered idle_worker)
run_task_safely-IsSettled_example =
    run_task_safely-IsSettled keeping first_id crashing delivered idle_worker

abbrev two_running : Pool
two_running = record {
  held = 2;
  active = first_id ∷ [];
  running = (codes "t2", started) ∷ (first_id, working) ∷ [];
}

two_running_reached : Reach 2 true two_running
unfolding add_active is_active equal
two_running_reached =
    later
      (later (later start (admit first_id (omega arith) (λ _. refl) refl))
        (begin [] first_id [] refl refl))
      (admit (codes "t2") (omega arith) (λ _. refl) refl)

Reach-slots_example :
    (length two_running.running ≤ 2) × (two_running.held ≡ length two_running.running)
Reach-slots_example = Reach-slots 2 true two_running_reached

Reach-is_active_example :
    is_active first_id two_running.active ≡ is_working first_id two_running.running
Reach-is_active_example = Reach-is_active 2 two_running_reached first_id

-- The same task leased twice: where the first run ends, the second is at work and is not reported.
abbrev unreported : Pool
unreported = record {
  held = 2;
  active = [];
  running = (first_id, working) ∷ (first_id, leaving) ∷ [];
}

unreported_reached :
    Reach 2 false unreported
    × (is_working first_id unreported.running ≡ true)
    × (is_active first_id unreported.active ≡ false)
unfolding add_active remove_active is_active equal
unreported_reached = (
  later
      (later
        (later
          (later (later start (admit first_id (omega arith) (λ n. ground arith) refl))
            (admit first_id (omega arith) (λ n. ground arith) refl))
          (begin [] first_id ((first_id, started) ∷ []) refl refl))
        (begin ((first_id, working) ∷ []) first_id [] refl refl))
      (finish ((first_id, working) ∷ []) first_id [] refl refl),
  refl,
  refl,
)

format_bytes-Fits_example : Fits 5000000000 (format_bytes 5000000000)
format_bytes-Fits_example = format_bytes-Fits 5000000000 (omega arith)

abbrev defaults : DiagnosticsConfig
defaults = (apply_defaults (λ _. none) none zero_config).diagnostics

-- Without a limit, an old control group gives 2^63 - 4096: the product with the percentage wraps.
wrapped_percent :
    configure_memory_limit false
      (record defaults { go_memory_limit_percent = pos 70 })
      (some (record { current = 0; limit = 2 ^ 63 - 4096 }))
    ≡ some 184467440737092648
unfolding configure_memory_limit apply_defaults zero_config
wrapped_percent = refl

-- The server registers the client, pushes two tasks and closes the connection; one task gets a slot.
abbrev short_session : Session (Unit {0})
short_session = record {
  number = 1;
  dialled = none;
  sent = λ _. none;
  answer = ok (record empty_message { type = message_registered; client_id = codes "c7" });
  incoming =
      received
        (record empty_message { type = message_task_push; tasks = some_task ∷ some_task ∷ [] })
        (some 1)
      ∷ [];
}

abbrev unregistered : TcpWorker
unregistered = record { client_id = []; conn = none; started = [] }

run_tcp_once-IsClosed_example :
    IsClosed short_session unregistered (run_tcp_once short_session zero_config [] unregistered)
run_tcp_once-IsClosed_example = run_tcp_once-IsClosed short_session zero_config [] unregistered refl

short_session_run :
    run_tcp_once short_session zero_config [] unregistered
    ≡ (record { client_id = codes "c7"; conn = none; started = some_task ∷ [] }, parent_done)
unfolding run_tcp_once
short_session_run = refl
