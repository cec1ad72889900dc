-- ===== src/Process/Manager/Starting.antt =====
-- Each branch of `start` and of `stop` in manager.rs.
use v2ray_rs.Process.Manager.{
  count_pipe, written_pid, ProcessManager, ProcessError, binary_not_found, config_missing, spawn,
  transition_refused, World, Child, start, try_spawn, after_spawn, keep_child,
}
use v2ray_rs.Process.State.{
  ProcessState, starting, running, error, invalid, StateManager, state_changed, transition,
}
use v2ray_rs.Process.State.Edges.{◌⟶◌, transition_lem, edge_complete}
use v2ray_rs.Process.State.Edges
use v2ray_rs.Process.Manager.Spawning.{try_spawn_lem}
use v2ray_rs.Base.{
  ℕ, ◌+◌, String, ◌≡◌, refl, ap, ◌∙◌, inl, inr, Bool, true, false, Option, none, some, [], ◌∷◌,
  ◌++◌, arith, Bool-cases, Result, ok, err,
}

-- the state manager after a change to a state
abbrev pub moved_to : ProcessState → StateManager → StateManager
moved_to t s = record { state = t; sent = s.sent ++ state_changed s.state t ∷ [] }

pub transition-along :
    (t : ProcessState) (s : StateManager)
    → s.state ⟶ t
    → transition t s ≡ (ok s.state, moved_to t s)
transition-along t s e = elim (transition_lem t s) [
  | inl (_, r) ↦ r
  | inr (gone, _) ↦ absurd (gone e)
]

pub transition-refused :
    (t : ProcessState) (s : StateManager)
    → ¬ (s.state ⟶ t)
    → transition t s ≡ (err (invalid s.state t), s)
transition-refused t s gone = elim (transition_lem t s) [
  | inl (e, _) ↦ absurd (gone e)
  | inr (_, r) ↦ r
]

-- the tasks that read the pipes
abbrev pub readers : Bool → Bool → ℕ
readers true true = 2
readers true false = 1
readers false true = 1
readers false false = 0

-- the PID file: a child without an identifier writes nothing, and a write may fail
abbrev pub pid_noted : Option ℕ → Option (Option ℕ) → Option ℕ → Option ℕ
pid_noted none fault old = old
pid_noted (some pid) none old = some pid
pid_noted (some pid) (some left) old = left

-- the manager runs the child
abbrev pub launched : World → Child → ProcessManager → ProcessManager
launched w c m = record m {
  child = some c;
  state = moved_to running (moved_to starting m.state);
  pid_file = pid_noted c.pid w.pid_fault m.pid_file;
  log_handles = m.log_handles + readers c.has_stdout c.has_stderr;
}

kept_child :
    (w : World) (c : Child) (m : ProcessManager)
    → record (keep_child w c m) { state = moved_to running (moved_to starting m.state) }
      ≡ launched w c m
kept_child w c m = λ i. record m {
  child = some c;
  state = moved_to running (moved_to starting m.state);
  pid_file = same_pid c.pid w.pid_fault m.pid_file i;
  log_handles = same_readers m.log_handles c.has_stdout c.has_stderr i;
}
  where
    same_pid :
        (pid : Option ℕ) (fault : Option (Option ℕ)) (old : Option ℕ)
        → written_pid fault pid old ≡ pid_noted pid fault old
    same_pid none fault old = refl
    same_pid (some pid) none old = refl
    same_pid (some pid) (some left) old = refl

    same_readers : (k : ℕ) (a b : Bool) → k + count_pipe a + count_pipe b ≡ k + readers a b
    same_readers k true true = omega arith
    same_readers k true false = omega arith
    same_readers k false true = omega arith
    same_readers k false false = omega arith

-- the manager after all attempts of `start` have failed
abbrev pub not_spawned : World → String → ProcessManager → ProcessManager
not_spawned w e m = record m {
  state = moved_to (error (w.show_error (spawn e))) (moved_to starting m.state);
}

-- What `start` returns, and the manager that it leaves, on each of its branches.
pub data StartOutcome
    : World → ProcessManager → Result ProcessError (Unit {0}) × ProcessManager → Type 0 where
  no_binary :
      {w : World} {m : ProcessManager}
      → w.binary_exists ≡ false
      → StartOutcome w m (err (binary_not_found m.binary_path), m)
  no_config :
      {w : World} {m : ProcessManager}
      → w.config_exists ≡ false
      → StartOutcome w m (err (config_missing m.config_path), m)
  refused :
      {w : World} {m : ProcessManager}
      → ¬ (m.state.state ⟶ starting)
      → StartOutcome w m (err (transition_refused (invalid m.state.state starting)), m)
  spawn_failed :
      {w : World} {m : ProcessManager}
      → (m.state.state ⟶ starting)
      → (e : String) → (try_spawn w ≡ some (err e))
      → StartOutcome w m (err (spawn e), not_spawned w e m)
  success :
      {w : World} {m : ProcessManager}
      → (m.state.state ⟶ starting)
      → (c : Child) → (try_spawn w ≡ some (ok c))
      → StartOutcome w m (ok tt, launched w c m)

spawned_result :
    (w : World) (m : ProcessManager)
    → m.state.state ⟶ starting
    → (r : Result String Child) → try_spawn w ≡ some r
    → (o : Result ProcessError (Unit {0}) × ProcessManager) × StartOutcome w m o
      × (after_spawn w (try_spawn w) (record m { state = moved_to starting m.state }) ≡ some o)
spawned_result w m e (ok c) r = (
  _,
  success e c r,
  rw (r, transition-along running (moved_to starting m.state) Edges.started)
      (ap (λ (m' : ProcessManager). some (ok tt, m')) (kept_child w c m)),
)
spawned_result w m e (err x) r = (
  _,
  spawn_failed e x r,
  rw
      (
        r,
        transition-along (error (w.show_error (spawn x))) (moved_to starting m.state)
            Edges.start_failed,
      )
      refl,
)

pub start_lem :
    (w : World) (m : ProcessManager)
    → (o : Result ProcessError (Unit {0}) × ProcessManager) × StartOutcome w m o
      × (start w m ≡ some o)
unfolding start
start_lem w m = elim (Bool-cases w.binary_exists) [
  | inr b ↦ (_, no_binary b, simp (b))
  | inl b ↦ elim (Bool-cases w.config_exists) [
    | inr c ↦ (_, no_config c, simp (b, c))
    | inl c ↦ elim (transition_lem starting m.state) [
      | inr (gone, r) ↦ (_, refused gone, simp (b, c, r))
      | inl (e, r) ↦
          let (k, _, t) = try_spawn_lem w in
          let (o, good, s) = spawned_result w m e _ t in (o, good, (simp (b, c, r)) ∙ s)
    ]
  ]
]
