-- ===== src/Tests/Process.antt =====
-- Runs of the process supervisor.
use v2ray_rs.Process.LogBuffer.{LogLine, stdout_line, stderr_line}
use v2ray_rs.Process.State.{stopped, starting, running, state_changed}
use v2ray_rs.Process.State.Edges.{◌⟶◌}
use v2ray_rs.Process.Manager.{
  ProcessManager, World, Child, Exit, spawned, busy, try_spawn, start, stop, wait_and_handle_exit,
}
use v2ray_rs.Process.Manager
use v2ray_rs.Process.Manager.Spawning.{IsDecisive, verdict, try_spawn_lem}
use v2ray_rs.Process.Manager.Invariant.{IsSettled, Ends, left_by_stop, stop_lem}
use v2ray_rs.Process.Manager.Exits.{AfterExit, wait_and_handle_exit_lem}
use v2ray_rs.Process.Manager.Histories.{
  Command, call_start, call_wait, call_restart, perform_all, perform_all-IsSettled, new-IsSettled,
  IsStuck, perform_all-IsStuck,
}
use v2ray_rs.Base.{ℕ, ◌≡◌, refl, true, false, none, some, List, [], ◌∷◌, ◌==◌, if◌then◌else◌, ok}

abbrev three_lines : List LogLine
three_lines = stdout_line "a" ∷ stderr_line "b" ∷ stdout_line "c" ∷ []

abbrev child : Child
child = record { pid = some 4242; has_stdout = true; has_stderr = true }

-- the file is busy at the first attempt
abbrev world : World
world = record {
  binary_exists = true;
  config_exists = true;
  attempt = λ k. if k == 0 then busy "text file busy" else spawned child;
  pid_fault = none;
  show_error = λ e. "error";
}

abbrev fresh : ProcessManager
fresh = Manager.new "/usr/bin/xray" "/tmp/xray.json"

try_spawn_lem_example :
    (k : ℕ) × IsDecisive world k × (try_spawn world ≡ some (verdict (world.attempt k)))
try_spawn_lem_example = try_spawn_lem world

fresh-IsSettled : IsSettled fresh
fresh-IsSettled = new-IsSettled "/usr/bin/xray" "/tmp/xray.json"

-- a supervisor whose child runs
abbrev busy_manager : ProcessManager
busy_manager = record fresh {
  child = some child;
  state = record {
    state = running;
    sent = state_changed stopped starting ∷ state_changed starting running ∷ [];
  };
}

busy_manager-IsSettled : IsSettled busy_manager
busy_manager-IsSettled = record {
  agrees = tt;
  traced = (refl, ◌⟶◌.start, (refl, ◌⟶◌.started, refl));
}

stop_lem_example :
    stop false true busy_manager ≡ (ok tt, left_by_stop false true (some child) busy_manager)
stop_lem_example = stop_lem false true busy_manager busy_manager-IsSettled

abbrev clock : Exit
clock = record { now = 100; later = 100; world = world }

wait_and_handle_exit_lem_example :
    (m' : ProcessManager) × (wait_and_handle_exit (some (some 1)) true clock busy_manager
      ≡ some (some 1, m'))
    × AfterExit (some 1) m'
    × IsSettled m'
wait_and_handle_exit_lem_example =
    wait_and_handle_exit_lem (some 1) true clock busy_manager child refl busy_manager-IsSettled

abbrev some_calls : List Command
some_calls =
    call_start world ∷ call_wait (some none) true clock ∷ call_restart false true world ∷ []

perform_all-IsSettled_example : Ends IsSettled (perform_all some_calls fresh)
perform_all-IsSettled_example = perform_all-IsSettled some_calls fresh fresh-IsSettled

-- the child was killed
abbrev stuck_manager : ProcessManager
stuck_manager = record busy_manager { child = none }

perform_all-IsStuck_example : Ends IsStuck (perform_all some_calls stuck_manager)
perform_all-IsStuck_example =
    perform_all-IsStuck some_calls stuck_manager (record { no_child = refl; says_running = refl })
