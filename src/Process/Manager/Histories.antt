-- ===== src/Process/Manager/Histories.antt =====
-- Sequences of calls of the methods of manager.rs, each with what it meets in its surroundings.
use v2ray_rs.Process.Manager.{
  ProcessManager, World, Exit, new, start, stop, restart, set_auto_restart, shutdown,
  wait_and_handle_exit,
}
use v2ray_rs.Process.State.{running}
use v2ray_rs.Process.State.Traces.{new-IsTraced}
use v2ray_rs.Process.Manager.Invariant.{
  IsSettled, Ends, start-IsSettled, stop_lem, stop-IsSettled, restart-IsSettled,
  set_auto_restart-IsSettled, shutdown-IsSettled,
}
use v2ray_rs.Process.Manager.Exits.{wait_and_handle_exit_lem, failed_start}
use v2ray_rs.Base.{ℕ, String, ◌≡◌, inl, inr, Bool, Option, none, some, List, [], ◌∷◌, Option-cases}

-- the calls that a user of the supervisor makes
pub data Command : Type 0 where
  call_start : World → Command
  call_stop : Bool → Bool → Command
  call_restart : Bool → Bool → World → Command
  call_set_auto_restart : Bool → Command
  call_shutdown : Bool → Bool → Command
  call_wait : Option (Option ℕ) → Bool → Exit → Command

abbrev second {ℓ} : {A : Type ℓ} → Option (A × ProcessManager) → Option ProcessManager
second none = none
second (some o) = some o.1

-- the manager after a call; `none` is a panic
abbrev pub perform : Command → ProcessManager → Option ProcessManager
perform (call_start w) m = second (start w m)
perform (call_stop timed_out pid_removed) m = some (stop timed_out pid_removed m).1
perform (call_restart timed_out pid_removed w) m = second (restart timed_out pid_removed w m)
perform (call_set_auto_restart enabled) m = some (set_auto_restart enabled m)
perform (call_shutdown timed_out pid_removed) m = some (shutdown timed_out pid_removed m)
perform (call_wait waited pid_removed x) m = second (wait_and_handle_exit waited pid_removed x m)

abbrev go_on :
    Option ProcessManager → (ProcessManager → Option ProcessManager) → Option ProcessManager
go_on none k = none
go_on (some m) k = k m

unfoldable pub perform_all : List Command → ProcessManager → Option ProcessManager
perform_all [] m = some m
perform_all (c ∷ cs) m = go_on (perform c m) (perform_all cs)

go_on-Ends :
    (P : ProcessManager → Type 0) (o : Option ProcessManager)
    (k : ProcessManager → Option ProcessManager)
    → Ends P o
    → ((m : ProcessManager) → P m → Ends P (k m))
    → Ends P (go_on o k)
go_on-Ends P none k h f = h
go_on-Ends P (some m) k h f = f m h

perform_all-Ends :
    (P : ProcessManager → Type 0)
    → ((c : Command) (m : ProcessManager) → P m → Ends P (perform c m))
    → (cs : List Command) (m : ProcessManager) → P m
    → Ends P (perform_all cs m)
unfolding perform_all
perform_all-Ends P keep [] m h = h
perform_all-Ends P keep (c ∷ cs) m h =
    go_on-Ends P (perform c m) (perform_all cs) (keep c m h) (perform_all-Ends P keep cs)

second-Ends :
    {A : Type 0} (o : Option (A × ProcessManager))
    → Ends (λ r. IsSettled r.1) o
    → Ends IsSettled (second o)
second-Ends (some o) h = h
second-Ends none h = h

wait-IsSettled :
    (waited : Option (Option ℕ)) (p : Bool) (x : Exit) (m : ProcessManager)
    → IsSettled m
    → Ends IsSettled (second (wait_and_handle_exit waited p x m))
unfolding wait_and_handle_exit
wait-IsSettled waited p x m h = elim (Option-cases m.child) [
  | inl e ↦ simp (e) h
  | inr (c, e) ↦ elim (Option-cases waited) [
    | inl n ↦ simp (e, n) h
    | inr (exit_code, n) ↦
        let (m', q, _, good) = wait_and_handle_exit_lem exit_code p x m c e h in rw (n, q) good
  ]
]

perform-IsSettled : (c : Command) (m : ProcessManager) → IsSettled m → Ends IsSettled (perform c m)
perform-IsSettled (call_start w) m h = second-Ends (start w m) (start-IsSettled w m h)
perform-IsSettled (call_stop t p) m h = rw (stop_lem t p m h) (stop-IsSettled t p m h)
perform-IsSettled (call_restart t p w) m h =
    second-Ends (restart t p w m) (restart-IsSettled t p w m h)
perform-IsSettled (call_set_auto_restart b) m h = set_auto_restart-IsSettled b m h
perform-IsSettled (call_shutdown t p) m h = shutdown-IsSettled t p m h
perform-IsSettled (call_wait waited p x) m h = wait-IsSettled waited p x m h

-- After any calls of its methods, in any order and in any surroundings, a supervisor that was
-- settled has not panicked and is settled: it holds a child only in `running`, it is never left in
-- `starting` or `stopping`, and the changes of state that it has sent lead from `stopped` to its
-- state along the edges of the diagram.
pub perform_all-IsSettled :
    (cs : List Command) (m : ProcessManager) → IsSettled m → Ends IsSettled (perform_all cs m)
perform_all-IsSettled = perform_all-Ends IsSettled perform-IsSettled

pub new-IsSettled : (binary_path config_path : String) → IsSettled (new binary_path config_path)
new-IsSettled b c = record { agrees = tt; traced = new-IsTraced }

-- no child is held, and the state still says `running`
pub record IsStuck (m : ProcessManager) : Type 0 where
  pub no_child : m.child ≡ none
  pub says_running : m.state.state ≡ running

perform-IsStuck : (c : Command) (m : ProcessManager) → IsStuck m → Ends IsStuck (perform c m)
unfolding stop restart shutdown wait_and_handle_exit set_auto_restart
perform-IsStuck (call_start w) m h = let (e, s) = failed_start w m h.says_running in rw s h
perform-IsStuck (call_stop t p) m h = simp (h.no_child) h
perform-IsStuck (call_restart t p w) m h =
    let (e, s) = failed_start w m h.says_running in simp (h.no_child, s) h
perform-IsStuck (call_set_auto_restart b) m h = record {
  no_child = h.no_child;
  says_running = h.says_running;
}
perform-IsStuck (call_shutdown t p) m h = simp (h.no_child) h
perform-IsStuck (call_wait waited p x) m h = simp (h.no_child) h

-- Once no child is held and the state is still `running`, as after an exit by a signal, no calls of
-- the methods, in any order, start a child again or lead out of `running`.
pub perform_all-IsStuck :
    (cs : List Command) (m : ProcessManager) → IsStuck m → Ends IsStuck (perform_all cs m)
perform_all-IsStuck = perform_all-Ends IsStuck perform-IsStuck
