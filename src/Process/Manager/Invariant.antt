-- ===== src/Process/Manager/Invariant.antt =====
-- What holds of the supervisor of manager.rs between its methods, in whatever order they are called.
use v2ray_rs.Process.Manager.{
  sigkill, sigterm, Signal, restart, set_auto_restart, shutdown, spawn, ProcessManager,
  ProcessError, World, Child, start, stop, forget_pid, terminate,
}
use mathlib.Core.List.{append-nil}
use v2ray_rs.Process.State.{
  ProcessState, stopped, starting, running, stopping, error, StateManager, transition,
}
use v2ray_rs.Process.State.Edges.{◌⟶◌, transition_lem}
use v2ray_rs.Process.State.Edges
use v2ray_rs.Process.State.Traces.{IsTraced, transition-IsTraced}
use v2ray_rs.Process.Manager.Starting.{
  StartOutcome, no_binary, no_config, refused, spawn_failed, success, start_lem, moved_to,
  transition-along,
}
use v2ray_rs.Base.{
  ℕ, ◌≡◌, refl, sym, ap, ◌∙◌, inl, inr, Bool, true, false, Option, none, some, List, [], ◌∷◌, ◌++◌,
  if◌then◌else◌, Bool-cases, Option-cases, is_some, Result, ok,
}

-- between two methods a child is held only in `running`, and no change is half done
abbrev pub Agrees : Option Child → ProcessState → Type 0
Agrees (some c) running = Unit
Agrees (some c) _ = ⊥
Agrees none starting = ⊥
Agrees none stopping = ⊥
Agrees none _ = Unit

pub record IsSettled (m : ProcessManager) : Type 0 where
  pub agrees : Agrees m.child m.state.state
  pub traced : IsTraced m.state

-- the method came to an end, and what holds then
abbrev pub Ends {ℓ} : {A : Type ℓ} → (A → Type 0) → Option A → Type 0
Ends P none = ⊥
Ends P (some a) = P a

-- from a state with an edge to `starting` no child is held
idle : (c : Option Child) (s : ProcessState) → Agrees c s → s ⟶ starting → c ≡ none
idle none s h e = refl
idle (some c) stopped h e = absurd h
idle (some c) (error m) h e = absurd h
idle (some c) starting h e = absurd h
idle (some c) stopping h e = absurd h
idle (some c) running h e = elim e [ ]

pub moved-IsTraced :
    (t : ProcessState) (s : StateManager) → s.state ⟶ t → IsTraced s → IsTraced (moved_to t s)
moved-IsTraced t s e h = rw (transition-along t s e) at (transition-IsTraced t s h)

StartOutcome-IsSettled :
    (w : World) (m : ProcessManager) (o : Result ProcessError (Unit {0}) × ProcessManager)
    → StartOutcome w m o
    → IsSettled m
    → IsSettled o.1
StartOutcome-IsSettled w m _ (no_binary b) h = h
StartOutcome-IsSettled w m _ (no_config b) h = h
StartOutcome-IsSettled w m _ (refused g) h = h
StartOutcome-IsSettled w m _ (spawn_failed e x r) h = record {
  agrees = rw (idle m.child m.state.state h.agrees e) tt;
  traced =
      moved-IsTraced (error (w.show_error (spawn x))) (moved_to starting m.state) Edges.start_failed
        (moved-IsTraced starting m.state e h.traced);
}
StartOutcome-IsSettled w m _ (success e c r) h = record {
  agrees = tt;
  traced =
      moved-IsTraced running (moved_to starting m.state) Edges.started
        (moved-IsTraced starting m.state e h.traced);
}

pub start-IsSettled :
    (w : World) (m : ProcessManager) → IsSettled m → Ends (λ o. IsSettled o.1) (start w m)
start-IsSettled w m h =
    let (o, good, e) = start_lem w m in rw e (StartOutcome-IsSettled w m o good h)

-- the signals to a child: SIGTERM if its identifier is known, and SIGKILL if it does not end in time
abbrev pub signalled : Bool → Bool → List Signal
signalled true false = sigterm ∷ []
signalled true true = sigterm ∷ sigkill ∷ []
signalled false true = sigkill ∷ []
signalled false false = []

abbrev pub file_left : Bool → Option ℕ → Option ℕ
file_left true file = none
file_left false file = file

-- the manager after `stop` has ended the child
abbrev pub ended : Bool → Bool → Child → ProcessManager → ProcessManager
ended timed_out pid_removed c m = record m {
  state = moved_to stopped (moved_to stopping m.state);
  signals = m.signals ++ signalled (is_some c.pid) timed_out;
  log_handles = 0;
  child = none;
  pid_file = file_left pid_removed m.pid_file;
}

terminated :
    (timed_out pid_removed : Bool) (c : Child) (m : ProcessManager)
    → forget_pid pid_removed (record m {
      state = moved_to stopped (moved_to stopping m.state);
      signals = terminate c.pid timed_out m.signals;
      log_handles = 0;
      child = none;
    })
      ≡ ended timed_out pid_removed c m
terminated t p c m = λ i. record m {
  state = moved_to stopped (moved_to stopping m.state);
  signals = same_signals c.pid t m.signals i;
  log_handles = 0;
  child = none;
  pid_file = same_file p m.pid_file i;
}
  where
    same_signals :
        (pid : Option ℕ) (t : Bool) (sent : List Signal)
        → terminate pid t sent ≡ sent ++ signalled (is_some pid) t
    same_signals none false sent = sym (append-nil sent)
    same_signals none true sent = refl
    same_signals (some pid) false sent = refl
    same_signals (some pid) true sent = refl

    same_file : (p : Bool) (file : Option ℕ) → (if p then none else file) ≡ file_left p file
    same_file true file = refl
    same_file false file = refl

-- a held child runs
pub held_running :
    (o : Option Child) (s : ProcessState) (c : Child) → o ≡ some c → Agrees o s → s ≡ running
held_running none s d e h = cc
held_running (some c) running d e h = refl
held_running (some c) stopped d e h = absurd h
held_running (some c) (error m) d e h = absurd h
held_running (some c) starting d e h = absurd h
held_running (some c) stopping d e h = absurd h

pub running-stopping : {s : ProcessState} → s ≡ running → s ⟶ stopping
running-stopping e = rw e Edges.stop

stop-held :
    (timed_out pid_removed : Bool) (m : ProcessManager) (c : Child)
    → m.child ≡ some c
    → m.state.state ⟶ stopping
    → stop timed_out pid_removed m ≡ (ok tt, ended timed_out pid_removed c m)
unfolding stop
stop-held timed_out pid_removed m c e edge =
    let first : transition stopping m.state ≡ (ok m.state.state, moved_to stopping m.state) =
      transition-along stopping m.state edge in
    let second : transition stopped (moved_to stopping m.state)
        ≡ (ok stopping, moved_to stopped (moved_to stopping m.state)) =
      transition-along stopped (moved_to stopping m.state) Edges.finish in
    simp (e, first, second)
      (ap (λ (m' : ProcessManager). (ok tt, m')) (terminated timed_out pid_removed c m))

ended-IsSettled :
    (timed_out pid_removed : Bool) (c : Child) (m : ProcessManager)
    → m.state.state ⟶ stopping
    → IsTraced m.state
    → IsSettled (ended timed_out pid_removed c m)
ended-IsSettled t true c m e h = record {
  agrees = tt;
  traced =
      moved-IsTraced stopped (moved_to stopping m.state) Edges.finish
        (moved-IsTraced stopping m.state e h);
}
ended-IsSettled t false c m e h = record {
  agrees = tt;
  traced =
      moved-IsTraced stopped (moved_to stopping m.state) Edges.finish
        (moved-IsTraced stopping m.state e h);
}

-- what `stop` leaves of a manager
abbrev pub left_by_stop : Bool → Bool → Option Child → ProcessManager → ProcessManager
left_by_stop t p none m = m
left_by_stop t p (some c) m = ended t p c m

-- Between two methods `stop` always succeeds. Without a child it changes nothing; with one it
-- sends it SIGTERM, if its identifier is known, and SIGKILL, if it does not end in time, drops it and
-- its readers, takes the PID file away, if that succeeds, and passes through `stopping` to `stopped`.
pub stop_lem :
    (timed_out pid_removed : Bool) (m : ProcessManager)
    → IsSettled m
    → stop timed_out pid_removed m ≡ (ok tt, left_by_stop timed_out pid_removed m.child m)
unfolding stop
stop_lem t p m h = elim (Option-cases m.child) [
  | inl e ↦ simp (e)
  | inr (c, e) ↦
      stop-held t p m c e (running-stopping (held_running m.child m.state.state c e h.agrees))
      ∙ simp (e)
]

left_by_stop-IsSettled :
    (t p : Bool) (o : Option Child) (m : ProcessManager)
    → m.child ≡ o
    → IsSettled m
    → IsSettled (left_by_stop t p o m)
left_by_stop-IsSettled t p none m e h = h
left_by_stop-IsSettled t p (some c) m e h =
    ended-IsSettled t p c m (running-stopping (held_running m.child m.state.state c e h.agrees))
      h.traced

pub stop-IsSettled :
    (t p : Bool) (m : ProcessManager) → IsSettled m → IsSettled (left_by_stop t p m.child m)
stop-IsSettled t p m h = left_by_stop-IsSettled t p m.child m refl h

pub restart-IsSettled :
    (t p : Bool) (w : World) (m : ProcessManager)
    → IsSettled m
    → Ends (λ o. IsSettled o.1) (restart t p w m)
unfolding restart
restart-IsSettled t p w m h = elim (Bool-cases (is_some m.child)) [
  | inl e ↦
      simp (e, stop_lem t p m h)
        (start-IsSettled w (left_by_stop t p m.child m) (stop-IsSettled t p m h))
  | inr e ↦ simp (e) (start-IsSettled w m h)
]

pub set_auto_restart-IsSettled :
    (b : Bool) (m : ProcessManager) → IsSettled m → IsSettled (set_auto_restart b m)
unfolding set_auto_restart
set_auto_restart-IsSettled b m h = record { agrees = h.agrees; traced = h.traced }

pub shutdown-IsSettled :
    (t p : Bool) (m : ProcessManager) → IsSettled m → IsSettled (shutdown t p m)
unfolding shutdown
shutdown-IsSettled t p m h = elim (Bool-cases (is_some m.child)) [
  | inl e ↦
      let h' = set_auto_restart-IsSettled false m h in
      simp (e, stop_lem t p (set_auto_restart false m) h')
        (stop-IsSettled t p (set_auto_restart false m) h')
  | inr e ↦ simp (e) h
]
