-- ===== src/Process/Manager.antt =====
-- crates/process/src/manager.rs: the supervisor of the backend process. Each method takes what it
-- meets in its surroundings (files, spawn results, exit codes, clock readings) as arguments, and
-- returns its result and the supervisor that it leaves. Instants are seconds. The log lines that
-- the spawned reader tasks add are modelled in LogBuffer; here a reader task is counted.
pub mod Spawning
pub mod Starting
pub mod Invariant
pub mod Exits
pub mod Histories
use v2ray_rs.Process.State.{
  ProcessState, stopped, starting, running, stopping, error, TransitionError, invalid, ProcessEvent,
  process_exited, StateManager, transition, emit,
}
use v2ray_rs.Process.State
use v2ray_rs.Base.{
  ℕ, zero, suc, ◌+◌, ◌-◌, ◌*◌, ◌/◌, ◌%◌, ◌^◌, ◌≤◌, ◌<◌, Char, code, String, ◌≡◌, refl, sym, ap, ◌∙◌,
  ◌≢◌, ◌↔◌, ◌⊎◌, inl, inr, Bool, true, false, not, ◌&&◌, ◌||◌, Option, none, some, List, [], ◌∷◌,
  ◌++◌, map, Memᴰ, arith, eq_iff, eq_refl, ltb, leb, ◌==◌, if◌then◌else◌, ==_iff, Bool-cases,
  Option-cases, is_some, unwrap_or, length, get_elem?, insert_at, erase_at, drop, keep_if, any, all,
  find, All, length-append, length-map, All-append, ◌⧺◌, str_eq, chars, is_empty_str,
  is_ascii_uppercase, is_ascii_lowercase, is_ascii_digit, char_is, Unicode, trim, strip_prefix,
  split_once, rsplit_once, split, to_string, leading, leading-to_string, Result, ok, err, ◌>>=◌,
  ◌>>◌, is_ok, ok_or, to_option, map_err, contains_str, parse_unsigned, parse_unsigned-bound, lacks,
  strip_prefix-append, split_once-append, rsplit_once-append, lacks-append, all_digits-lacks,
  parse_unsigned-to_string, split_once-lacks, all_digits, to_string-digits, trim-digits, ℤ, pos,
  negsuc, as_i32, as_i64, leb_ℤ, as_i32-pos, as_i64-pos, join, Files, put, put_self, put_other,
  join-str_eq, leb_str, leb_str_total, leb_str_trans, insert_sorted, sort_by, IsSorted,
  sort_by-perm, sort_by-IsSorted, map_chars, join_words, all_chars, all_chars-map_chars,
  all_chars-append, IsWord, All-split, All-keep_if, split-join_words, all_chars-join_words,
  strip_cr, drop_last_empty, lines, utf8_len, byte_length, char_starts, take_while_le, last_or,
  slice_to, byte_length-append, slice_to-last_start,
}

abbrev pub max_crashes : ℕ
max_crashes = 3

abbrev pub crash_window : ℕ
crash_window = 60

pub data ProcessError : Type 0 where
  binary_not_found : String → ProcessError
  config_missing : String → ProcessError
  spawn : String → ProcessError
  transition_refused : TransitionError → ProcessError

-- the process handle: the identifier while it runs, and the pipes
pub record Child : Type 0 where
  pub pid : Option ℕ
  pub has_stdout : Bool
  pub has_stderr : Bool

pub data Signal : Type 0 where
  sigterm sigkill : Signal

pub record ProcessManager : Type 0 where
  pub state : StateManager
  pub pid_file : Option ℕ
  pub child : Option Child
  pub binary_path : String
  pub config_path : String
  pub crash_times : List ℕ
  pub auto_restart : Bool
  pub log_handles : ℕ
  pub signals : List Signal

abbrev pub new : String → String → ProcessManager
new binary_path config_path = record {
  state = State.new;
  pid_file = none;
  child = none;
  binary_path = binary_path;
  config_path = config_path;
  crash_times = [];
  auto_restart = true;
  log_handles = 0;
  signals = [];
}

-- one attempt to spawn the binary: a child, the error that the file is busy, or another error
pub data Attempt : Type 0 where
  spawned : Child → Attempt
  busy : String → Attempt
  failed : String → Attempt

-- what `start` meets: whether the two files exist, the attempts in order, what the PID file
-- is read as after a write that failed, if it did, and the `Display` of the error types
pub record World : Type 0 where
  pub binary_exists : Bool
  pub config_exists : Bool
  pub attempt : ℕ → Attempt
  pub pid_fault : Option (Option ℕ)
  pub show_error : ProcessError → String

abbrev pub max_retries : ℕ
max_retries = 5

-- one round of the loop of `try_spawn`: whether it is the last, the attempt, and what the rounds
-- after it give
abbrev pub attempted : Bool → Attempt → Option (Result String Child) → Option (Result String Child)
attempted is_last (spawned c) again = some (ok c)
attempted true (busy e) again = some (err e)
attempted false (busy e) again = again
attempted is_last (failed e) again = some (err e)

-- the loop of `try_spawn` from one attempt on, with the rounds that are left; `none` is the
-- `unreachable!` after it
unfoldable pub try_spawn_from : ℕ → ℕ → World → Option (Result String Child)
try_spawn_from zero k w = none
try_spawn_from (suc rounds) k w =
    attempted (k == max_retries - 1) (w.attempt k) (try_spawn_from rounds (k + 1) w)

unfoldable pub try_spawn : World → Option (Result String Child)
unfolding try_spawn_from
try_spawn w = try_spawn_from max_retries 0 w

abbrev pub count_pipe : Bool → ℕ
count_pipe true = 1
count_pipe false = 0

-- a failed write may leave a part of the file
abbrev pub written_pid : Option (Option ℕ) → Option ℕ → Option ℕ → Option ℕ
written_pid fault none old = old
written_pid none (some pid) old = some pid
written_pid (some left) (some pid) old = left

-- the child is kept, its identifier written and its output captured
abbrev pub keep_child : World → Child → ProcessManager → ProcessManager
keep_child w c m = record m {
  pid_file = written_pid w.pid_fault c.pid m.pid_file;
  log_handles = m.log_handles + count_pipe c.has_stdout + count_pipe c.has_stderr;
  child = some c;
}

-- a transition of the inner state manager, whose result the caller reads
abbrev pub change :
    ProcessState → ProcessManager → Result TransitionError ProcessState × ProcessManager
change target m = let (r, s) = transition target m.state in (r, record m { state = s })

-- `self.state.transition(…)?` and what follows
abbrev pub then_if_ok :
    Result TransitionError ProcessState × ProcessManager
    → (ProcessManager → Result ProcessError (Unit {0}) × ProcessManager)
    → Result ProcessError (Unit {0}) × ProcessManager
then_if_ok (err e, m) k = (err (transition_refused e), m)
then_if_ok (ok old, m) k = k m

-- after the spawn attempts of `start`
abbrev pub after_spawn :
    World
    → Option (Result String Child)
    → ProcessManager
    → Option (Result ProcessError (Unit {0}) × ProcessManager)
after_spawn w none m = none
after_spawn w (some (ok c)) m =
    some (then_if_ok (change running (keep_child w c m)) (λ m'. (ok tt, m')))
after_spawn w (some (err e)) m = some (err (spawn e), (change (error (w.show_error (spawn e))) m).1)

abbrev pub spawn_if_ok :
    World
    → Result TransitionError ProcessState × ProcessManager
    → Option (Result ProcessError (Unit {0}) × ProcessManager)
spawn_if_ok w (err e, m) = some (err (transition_refused e), m)
spawn_if_ok w (ok old, m) = after_spawn w (try_spawn w) m

unfoldable pub start :
    World → ProcessManager → Option (Result ProcessError (Unit {0}) × ProcessManager)
start w m =
    if not w.binary_exists
    then some (err (binary_not_found m.binary_path), m)
    else if not w.config_exists
    then some (err (config_missing m.config_path), m)
    else spawn_if_ok w (change starting m)

abbrev pub terminate : Option ℕ → Bool → List Signal → List Signal
terminate none false sent = sent
terminate none true sent = sent ++ sigkill ∷ []
terminate (some pid) false sent = sent ++ sigterm ∷ []
terminate (some pid) true sent = sent ++ sigterm ∷ sigkill ∷ []

-- `timed_out`: the child did not end within STOP_TIMEOUT of the first signal
abbrev pub graceful_stop : Bool → ProcessManager → ProcessManager
graceful_stop timed_out m = elim m.child [
  | none ↦ m
  | some c ↦ record m {
    signals = terminate c.pid timed_out m.signals;
    log_handles = 0;
    child = none;
  }
]

-- `pid_removed`: the PID file could be removed
abbrev pub forget_pid : Bool → ProcessManager → ProcessManager
forget_pid pid_removed m = record m { pid_file = if pid_removed then none else m.pid_file }

unfoldable pub stop : Bool → Bool → ProcessManager → Result ProcessError (Unit {0}) × ProcessManager
stop timed_out pid_removed m =
    if not (is_some m.child)
    then (ok tt, m)
    else then_if_ok (change stopping m) λ m₁.
      then_if_ok (change stopped (graceful_stop timed_out m₁))
        λ m₂. (ok tt, forget_pid pid_removed m₂)

abbrev start_if_ok :
    World
    → Result ProcessError (Unit {0}) × ProcessManager
    → Option (Result ProcessError (Unit {0}) × ProcessManager)
start_if_ok w (err e, m) = some (err e, m)
start_if_ok w (ok _, m) = start w m

unfoldable pub restart :
    Bool → Bool → World → ProcessManager → Option (Result ProcessError (Unit {0}) × ProcessManager)
restart timed_out pid_removed w m =
    if is_some m.child then start_if_ok w (stop timed_out pid_removed m) else start w m

unfoldable pub set_auto_restart : Bool → ProcessManager → ProcessManager
set_auto_restart enabled m = record m { auto_restart = enabled }

unfoldable pub shutdown : Bool → Bool → ProcessManager → ProcessManager
shutdown timed_out pid_removed m =
    if is_some m.child then (stop timed_out pid_removed (set_auto_restart false m)).1 else m

-- exit by a signal: no code, or one that a shell gives for SIGINT, SIGKILL, SIGTERM
abbrev pub is_signal_exit : Option ℕ → Bool
is_signal_exit none = true
is_signal_exit (some code) = code == 130 || code == 137 || code == 143

abbrev pub exit_message : Option ℕ → String
exit_message (some code) = "process exited with code " ⧺ to_string code
exit_message none = "process killed by signal"

-- what `handle_unexpected_exit` meets: the clock when the crash is noted, the clock when the old
-- crashes are dropped, and what the restart meets
pub record Exit : Type 0 where
  pub now : ℕ
  pub later : ℕ
  pub world : World

abbrev pub recent : ℕ → List ℕ → List ℕ
recent later = keep_if (λ t. ltb (later - t) crash_window)

abbrev pub note_crash : Exit → ProcessManager → ProcessManager
note_crash x m = record m { crash_times = recent x.later (m.crash_times ++ x.now ∷ []) }

abbrev pub restart_failed :
    World → Option (Result ProcessError (Unit {0}) × ProcessManager) → Option ProcessManager
restart_failed w none = none
restart_failed w (some (ok _, m)) = some m
restart_failed w (some (err e, m)) = some (change (error ("restart failed: " ⧺ w.show_error e)) m).1

-- the part after the crash count
abbrev pub settle : Option ℕ → Exit → ProcessManager → Option ProcessManager
settle exit_code x m =
    let signal = is_signal_exit exit_code in
    if not m.auto_restart || signal
    then some (change (if signal then stopped else error (exit_message exit_code)) m).1
    else restart_failed x.world (start x.world (change stopped m).1)

unfoldable pub handle_unexpected_exit : Option ℕ → Exit → ProcessManager → Option ProcessManager
handle_unexpected_exit exit_code x m =
    let noted = note_crash x m in
    if is_signal_exit exit_code
    then settle exit_code x m
    else if leb max_crashes (length noted.crash_times)
    then some (change (error ("3 crashes within 60s: " ⧺ exit_message exit_code)) noted).1
    else settle exit_code x noted

abbrev pub is_running : ProcessState → Bool
is_running running = true
is_running _ = false

abbrev pub child_gone : Bool → Option ℕ → ProcessManager → ProcessManager
child_gone pid_removed exit_code m =
    let m' = forget_pid pid_removed (record m { child = none }) in
    record m' { state = emit (process_exited exit_code) m'.state }

abbrev pub answer : Option ℕ → Option ProcessManager → Option (Option ℕ × ProcessManager)
answer exit_code none = none
answer exit_code (some m) = some (exit_code, m)

-- the part of `wait_and_handle_exit` after the exit code is known
abbrev pub after_exit : Option ℕ → Exit → ProcessManager → Option (Option ℕ × ProcessManager)
after_exit exit_code x m =
    if is_running m.state.state
    then answer exit_code (handle_unexpected_exit exit_code x m)
    else some (exit_code, m)

abbrev pub wait_for :
    Option Child
    → Option (Option ℕ)
    → Bool
    → Exit
    → ProcessManager
    → Option (Option ℕ × ProcessManager)
wait_for none waited pid_removed x m = some (none, m)
wait_for (some c) none pid_removed x m = some (none, m)
wait_for (some c) (some exit_code) pid_removed x m =
    after_exit exit_code x (child_gone pid_removed exit_code m)

-- `waited` is what `child.wait()` gave: nothing on an error, or the exit code of the status
unfoldable pub wait_and_handle_exit :
    Option (Option ℕ) → Bool → Exit → ProcessManager → Option (Option ℕ × ProcessManager)
wait_and_handle_exit waited pid_removed x m = wait_for m.child waited pid_removed x m
