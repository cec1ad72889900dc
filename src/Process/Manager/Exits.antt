-- ===== src/Process/Manager/Exits.antt =====
-- What `wait_and_handle_exit` of manager.rs leaves when the child ends by itself.
use v2ray_rs.Process.Manager.{
  ProcessManager, ProcessError, World, Child, Exit, start, wait_and_handle_exit,
  handle_unexpected_exit, note_crash, restart_failed, change, child_gone, exit_message,
  is_signal_exit, max_crashes, wait_for, after_exit, answer, recent,
}
use v2ray_rs.Process.State.{
  ProcessState, stopped, starting, running, error, process_exited, invalid, emit,
}
use v2ray_rs.Process.State.Edges.{◌⟶◌}
use v2ray_rs.Process.State.Edges
use v2ray_rs.Process.State.Traces.{IsTraced, emit-IsTraced}
use v2ray_rs.Process.Manager.Starting.{
  StartOutcome, no_binary, no_config, refused, spawn_failed, success, start_lem, moved_to,
  transition-along, transition-refused,
}
use v2ray_rs.Process.Manager.Invariant.{IsSettled, held_running, moved-IsTraced}
use v2ray_rs.Base.{
  ℕ, String, ◌≡◌, refl, ap, ◌∙◌, ◌⊎◌, inl, inr, Bool, true, false, ◌||◌, Option, none, some, List,
  [], ◌∷◌, ◌++◌, leb, Bool-cases, length, ◌⧺◌, Result, ok, err,
}

running-starting : {s : ProcessState} → s ≡ running → ¬ (s ⟶ starting)
running-starting e edge = elim (rw e at edge) [ ]

running-stopped : {s : ProcessState} → s ≡ running → ¬ (s ⟶ stopped)
running-stopped e edge = elim (rw e at edge) [ ]

running-error : {s : ProcessState} (msg : String) → s ≡ running → s ⟶ error msg
running-error msg e = rw e Edges.crash

-- The manager after an exit that leads to an error: the child is gone, the change is sent, and the
-- crash times are those of this crash.
abbrev pub crashed : String → List ℕ → ProcessManager → ProcessManager
crashed msg times m = record m { crash_times = times; state = moved_to (error msg) m.state }

refused_start :
    (w : World) (m : ProcessManager) (o : Result ProcessError (Unit {0}) × ProcessManager)
    → StartOutcome w m o
    → m.state.state ≡ running
    → start w m ≡ some o
    → (e : ProcessError) × (start w m ≡ some (err e, m))
refused_start w m _ (no_binary b) r s = (_, s)
refused_start w m _ (no_config b) r s = (_, s)
refused_start w m _ (refused g) r s = (_, s)
refused_start w m _ (spawn_failed edge e t) r s = absurd (running-starting r edge)
refused_start w m _ (success edge c t) r s = absurd (running-starting r edge)

pub failed_start :
    (w : World) (m : ProcessManager)
    → m.state.state ≡ running
    → (e : ProcessError) × (start w m ≡ some (err e, m))
failed_start w m r = let (o, good, s) = start_lem w m in refused_start w m o good r s

-- a crashed process is not yet `stopped`, so the change to `stopped` is refused
not_stopped :
    (m : ProcessManager)
    → m.state.state ≡ running
    → change stopped m ≡ (err (invalid m.state.state stopped), m)
not_stopped m r =
    ap (λ o. (o.0, record m { state = o.1 }))
      (transition-refused stopped m.state (running-stopped r))

to_error :
    (msg : String) (m : ProcessManager)
    → m.state.state ≡ running
    → change (error msg) m ≡ (ok m.state.state, record m { state = moved_to (error msg) m.state })
to_error msg m r =
    ap (λ o. (o.0, record m { state = o.1 }))
      (transition-along (error msg) m.state (running-error msg r))

or_true : (b : Bool) → b || true ≡ true
or_true true = refl
or_true false = refl

pub handle-signal :
    (exit_code : Option ℕ) (x : Exit) (m : ProcessManager)
    → is_signal_exit exit_code ≡ true
    → m.state.state ≡ running
    → handle_unexpected_exit exit_code x m ≡ some m
unfolding handle_unexpected_exit
handle-signal exit_code x m e r = (simp (e, or_true)) ∙ ap (λ o. some o.1) (not_stopped m r)

restart-crash :
    (x : Exit) (m : ProcessManager)
    → m.state.state ≡ running
    → (msg : String) × (restart_failed x.world (start x.world (change stopped m).1)
        ≡ some (record m { state = moved_to (error msg) m.state }))
restart-crash x m r =
    let (e, s) = failed_start x.world m r in
    (
      "restart failed: " ⧺ x.world.show_error e,
      ap (λ o. restart_failed x.world (start x.world o.1)) (not_stopped m r)
          ∙ ap (restart_failed x.world) s
          ∙ ap (λ o. some o.1) (to_error ("restart failed: " ⧺ x.world.show_error e) m r),
    )

-- the crash times after a crash
abbrev pub noted : Exit → ProcessManager → List ℕ
noted x m = recent x.later (m.crash_times ++ x.now ∷ [])

handle-crash :
    (exit_code : Option ℕ) (x : Exit) (m : ProcessManager)
    → is_signal_exit exit_code ≡ false
    → m.state.state ≡ running
    → (msg : String) × (handle_unexpected_exit exit_code x m ≡ some (crashed msg (noted x m) m))
unfolding handle_unexpected_exit
handle-crash exit_code x m e r = elim (Bool-cases (leb max_crashes (length (noted x m)))) [
  | inl many ↦ (
    _,
    (simp (e, many))
        ∙ ap (λ o. some o.1)
            (to_error ("3 crashes within 60s: " ⧺ exit_message exit_code) (note_crash x m) r),
  )
  | inr few ↦ elim (Bool-cases m.auto_restart) [
    | inl auto ↦
        let (msg, s) = restart-crash x (note_crash x m) r in (msg, (simp (e, few, auto)) ∙ s)
    | inr manual ↦ (
      _,
      (simp (e, few, manual))
          ∙ ap (λ o. some o.1) (to_error (exit_message exit_code) (note_crash x m) r),
    )
  ]
]

gone-IsTraced :
    (p : Bool) (exit_code : Option ℕ) (m : ProcessManager)
    → IsTraced m.state
    → IsTraced (child_gone p exit_code m).state
gone-IsTraced p exit_code m h = emit-IsTraced (process_exited exit_code) m.state tt h

gone_state :
    (p : Bool) (exit_code : Option ℕ) (m : ProcessManager)
    → (child_gone p exit_code m).state.state ≡ m.state.state
unfolding emit
gone_state p exit_code m = refl

after_exit-running :
    (exit_code : Option ℕ) (x : Exit) (m m' : ProcessManager)
    → m.state.state ≡ running
    → handle_unexpected_exit exit_code x m ≡ some m'
    → after_exit exit_code x m ≡ some (exit_code, m')
after_exit-running exit_code x m m' r e = (simp (r)) ∙ ap (answer exit_code) e

-- what an exit of the child leaves
abbrev pub AfterExit : Option ℕ → ProcessManager → Type 0
AfterExit exit_code m =
    (m.child ≡ none)
    × (((is_signal_exit exit_code ≡ true) × (m.state.state ≡ running))
        ⊎ ((is_signal_exit exit_code ≡ false) × ((msg : String) × (m.state.state ≡ error msg))))

-- When the child of a settled manager exits by itself, `wait_and_handle_exit` returns the exit
-- code, whatever the restart setting, the clock and the surroundings are: no child is held after
-- it, and the state is still `running` after an exit by a signal and an error after any other.
pub wait_and_handle_exit_lem :
    (exit_code : Option ℕ) (pid_removed : Bool) (x : Exit) (m : ProcessManager) (c : Child)
    → m.child ≡ some c
    → IsSettled m
    → (m' : ProcessManager) × (wait_and_handle_exit (some exit_code) pid_removed x m
        ≡ some (exit_code, m'))
      × AfterExit exit_code m'
      × IsSettled m'
unfolding wait_and_handle_exit
wait_and_handle_exit_lem exit_code p x m c e h =
    let gone : ProcessManager = child_gone p exit_code m in
    let r : gone.state.state ≡ running =
      gone_state p exit_code m ∙ held_running m.child m.state.state c e h.agrees in
    let t : IsTraced gone.state = gone-IsTraced p exit_code m h.traced in
    let enter : (o : Option (Option ℕ × ProcessManager))
        → after_exit exit_code x gone ≡ o
        → wait_for m.child (some exit_code) p x m ≡ o =
      λ o q. ap (λ held. wait_for held (some exit_code) p x m) e ∙ q in
    elim (Bool-cases (is_signal_exit exit_code)) [
      | inl s ↦ (
        gone,
        enter _ (after_exit-running exit_code x gone gone r (handle-signal exit_code x gone s r)),
        (refl, inl (s, r)),
        record { agrees = rw r tt; traced = t },
      )
      | inr s ↦
          let (msg, q) = handle-crash exit_code x gone s r in
          (
            crashed msg (noted x gone) gone,
            enter _ (after_exit-running exit_code x gone _ r q),
            (refl, inr (s, (msg, refl))),
            record {
              agrees = tt;
              traced = moved-IsTraced (error msg) gone.state (running-error msg r) t;
            },
          )
    ]
