-- ===== src/Ui/App/Consistency.antt =====
-- crates/ui/src/app.rs: what holds of the window after any messages.
use mathlib.Core.Path.{subst}
use v2ray_rs.Config.Generator.{new_writer}
use v2ray_rs.Config.Writer.Written.{write_config_lem}
use v2ray_rs.Process.State.{error, running, stopped, ProcessState, starting, stopping}
use v2ray_rs.Ui.App.Effects.{
  Fields, Agrees, IsConsistent, Quiet, changes, sent-Quiet, sent-stop, sent-spawn, weaken, changed,
}
use v2ray_rs.Ui.App.{
  set_label, set_sensitive, handle_all, ConfigError, Disk, ProxyNode, onboarding_complete,
  settings_changed, toggle_connection, disconnect, close_requested, tray_show_window, tray_quit,
  active_nodes_changed, process_state_changed, process_log_line, open_preferences, append_line,
  switch_language, show_preferences, set_visible, present, destroy, is_stopped, is_ended,
  with_config, with_nodes, with_binary, connect_unless_held, close, update, init, stored_nodes,
  stored_rules, saved_settings, AppMsg, Surroundings, connect, disconnect, Effect, toast, input,
  add_subscription, set_running, clear_logs, App, Setting, send, apply_state, take_and_stop,
  disconnect_held, reconnect_if, dropped_if, reconnecting_if, with_subscription, launch, pid_path,
}
use v2ray_rs.Base.{
  ℕ, ◌+◌, String, ◌≡◌, refl, sym, Bool, true, false, ◌&&◌, ◌||◌, Option, none, some, List, [], ◌∷◌,
  arith, if◌then◌else◌, is_some, Result, ok, err, Files,
}

module _ {N : Type 0} (x : Setting N) where
  abbrev pub Fits : App → Type 0
  Fits = IsConsistent x.has_tray

  -- an effect that starts and stops nothing
  quiet : (a : App) (e : Effect) → Quiet (e ∷ []) → changes (e ∷ []) ≡ [] → Fits a → Fits (send e a)
  unfolding send
  quiet a e q k (new, v) = (new, sent-Quiet x.has_tray (e ∷ []) q k v)

  -- the handle is dropped, and its process may still be told to stop
  dropped :
      (h : ℕ) (a : App)
      → a.process_handle ≡ some h
      → Fits a
      → (h + 1 ≡ a.spawned)
        × Agrees x.has_tray a.connected a.button_sensitive a.process_state h a.spawned a.sent
  dropped h a e (new, v) = (rw e at new, rw e at v)

  take_and_stop-Fits :
      (o : Option ℕ) (a : App) → a.process_handle ≡ o → Fits a → Fits (take_and_stop x o a)
  unfolding send
  take_and_stop-Fits none a e f = f
  take_and_stop-Fits (some h) a e f =
      let (new, v) = dropped h a e f in (tt, sent-stop x.has_tray a.spawned (omega arith) v)

  disconnect_held-Fits :
      (o : Option ℕ) (a : App) → a.process_handle ≡ o → Fits a → Fits (disconnect_held x o a)
  unfolding send apply_state
  disconnect_held-Fits none a e f = quiet a (toast "Not connected") (refl, refl) refl f
  disconnect_held-Fits (some h) a e f =
      let (new, v) = dropped h a e f in
      (tt, sent-stop x.has_tray a.spawned (omega arith) (changed x.has_tray stopping a.sent v))

  without_handle :
      (o : Option ℕ) (a : App)
      → a.process_handle ≡ o
      → Fits a
      → Fits (record a { process_handle = none })
  without_handle none a e (new, v) = (tt, rw e at v)
  without_handle (some h) a e f =
      let (new, v) = dropped h a e f in (tt, weaken x.has_tray a.spawned (omega arith) v)

  dropped_if-Fits : (b : Bool) (a : App) → Fits a → Fits (dropped_if x b a)
  dropped_if-Fits false a f = f
  dropped_if-Fits true a f =
      quiet (record a { process_handle = none }) (set_running false) (refl, refl) refl
        (without_handle a.process_handle a refl f)

  apply_state-Fits : (state : ProcessState) (a : App) → Fits a → Fits (apply_state x state a)
  unfolding apply_state
  apply_state-Fits state a (new, v) = (new, changed x.has_tray state a.sent v)

  reconnect_if-Fits : (b : Bool) (a : App) → Fits a → Fits (reconnect_if x b a)
  reconnect_if-Fits false a f = f
  reconnect_if-Fits true a f =
      quiet (record a { reconnect_pending = false }) (input connect) (refl, refl) refl f

  reconnecting_if-Fits : (b : Bool) (a : App) → Fits a → Fits (reconnecting_if x b a)
  reconnecting_if-Fits false a f = f
  reconnecting_if-Fits true a f =
      quiet (record a { reconnect_pending = true }) (input disconnect) (refl, refl) refl f

  with_subscription-Fits :
      (o : Option (String × String)) (a : App) → Fits a → Fits (with_subscription x o a)
  with_subscription-Fits none a f = f
  with_subscription-Fits (some (name, address)) a f =
      quiet a (add_subscription name address) (refl, refl) refl f

  launch-Fits :
      (binary config : String) (a : App)
      → a.process_handle ≡ none
      → Fits a
      → Fits (launch x binary config a)
  unfolding apply_state send
  launch-Fits binary config a e f =
      let a₁ = apply_state x starting a in
      let (_, v) =
        quiet (send (set_running true) a₁) clear_logs (refl, refl) refl
          (quiet a₁ (set_running true) (refl, refl) refl (apply_state-Fits starting a f)) in
      (
        refl,
        sent-spawn x.has_tray a.spawned (send clear_logs (send (set_running true) a₁)).sent binary
            config (pid_path x) (rw e at v),
      )

  -- what a call leaves, if it does not panic
  abbrev pub Leaves : Option App → Type 0
  Leaves none = ⊥
  Leaves (some a) = Fits a

  with_config-Leaves :
      (binary : String) (p : Result ConfigError String × Files) (a : App)
      → a.process_handle ≡ none
      → Fits a
      → Leaves (with_config x binary (some p) a)
  with_config-Leaves binary (err e, files) a h f =
      quiet (record a { files = files }) _ (refl, refl) refl f
  with_config-Leaves binary (ok path, files) a h f =
      launch-Fits binary path (record a { files = files }) h f

  with_nodes-Leaves :
      (w : Surroundings) (binary : String) (nodes : List ProxyNode) (a : App)
      → a.process_handle ≡ none
      → Fits a
      → Leaves (with_nodes x w binary nodes a)
  with_nodes-Leaves w binary [] a h f = quiet a _ (refl, refl) refl f
  with_nodes-Leaves w binary (n ∷ ns) a h f =
      let (p, e, _) =
        write_config_lem x.u x.net x.to_json (new_writer a.settings x.data_dir) (n ∷ ns)
          (stored_rules x w a) a.settings a.files w.writer in
      subst (λ o. Leaves (with_config x binary o a)) (sym e) (with_config-Leaves binary p a h f)

  with_binary-Leaves :
      (w : Surroundings) (o : Option String) (a : App)
      → a.process_handle ≡ none
      → Fits a
      → Leaves (with_binary x w o a)
  with_binary-Leaves w none a h f = quiet a _ (refl, refl) refl f
  with_binary-Leaves w (some binary) a h f = with_nodes-Leaves w binary (stored_nodes x w a) a h f

  connect-Leaves :
      (w : Surroundings) (o : Option ℕ) (a : App)
      → a.process_handle ≡ o
      → Fits a
      → Leaves (connect_unless_held x w o a)
  connect-Leaves w (some h) a e f = f
  connect-Leaves w none a e f = with_binary-Leaves w a.settings.backend.binary_path a e f

  close-Fits : (b : Bool) (a : App) → Fits a → Fits (close x b a)
  close-Fits true a f = quiet a (set_visible false) (refl, refl) refl f
  close-Fits false a f =
      quiet (take_and_stop x a.process_handle a) destroy (refl, refl) refl
        (take_and_stop-Fits a.process_handle a refl f)

  -- Handling a message does not panic and keeps the window consistent.
  pub update-Leaves : (w : Surroundings) (m : AppMsg) (a : App) → Fits a → Leaves (update x w m a)
  unfolding update
  update-Leaves w (onboarding_complete settings s) a f =
      with_subscription-Fits s
        (record (saved_settings x w settings a) { settings = settings; show_wizard = false }) f
  update-Leaves w (settings_changed settings) a f =
      let a₁ = send (switch_language settings.language) a in
      reconnecting_if-Fits (is_some a.process_handle)
        (record (saved_settings x w settings a₁) { settings = settings })
        (quiet a (switch_language settings.language) (refl, refl) refl f)
  update-Leaves w (active_nodes_changed has) a f = f
  update-Leaves w toggle_connection a f = quiet a _ (refl, refl) refl f
  update-Leaves w connect a f = connect-Leaves w a.process_handle a refl f
  update-Leaves w disconnect a f = disconnect_held-Fits a.process_handle a refl f
  update-Leaves w (process_state_changed state) a f =
      let a₁ = apply_state x state (dropped_if x (is_ended state) a) in
      reconnect_if-Fits (is_stopped state && a₁.reconnect_pending) a₁ (
        apply_state-Fits state (dropped_if x (is_ended state) a)
          (dropped_if-Fits (is_ended state) a f))
  update-Leaves w (process_log_line line) a f = quiet a (append_line line) (refl, refl) refl f
  update-Leaves w close_requested a f = close-Fits a.settings.minimize_to_tray a f
  update-Leaves w tray_show_window a f =
      quiet (send (set_visible true) a) present (refl, refl) refl
        (quiet a (set_visible true) (refl, refl) refl f)
  update-Leaves w tray_quit a f =
      quiet (take_and_stop x a.process_handle a) destroy (refl, refl) refl
        (take_and_stop-Fits a.process_handle a refl f)
  update-Leaves w open_preferences a f = quiet a (show_preferences a.settings) (refl, refl) refl f

  handle_all-Leaves :
      (ms : List (Surroundings × AppMsg)) (o : Option App) → Leaves o → Leaves (handle_all x ms o)
  unfolding handle_all
  handle_all-Leaves [] o f = f
  handle_all-Leaves (m ∷ ms) none f = f
  handle_all-Leaves ((w, m) ∷ ms) (some a) f =
      handle_all-Leaves ms (update x w m a) (update-Leaves w m a f)

  -- what the button says in each state, and whether it can be pressed
  abbrev pub Button : ProcessState → (active : Bool) → String → Bool → Type 0
  Button stopped active label press = (label ≡ "Connect") × (press ≡ active)
  Button starting active label press = (label ≡ "Connect") × (press ≡ false)
  Button running active label press = (label ≡ "Disconnect") × (press ≡ true)
  Button stopping active label press = (label ≡ "Disconnect") × (press ≡ false)
  Button (error m) active label press = (label ≡ "Connect") × (press ≡ active)

  Fields-Button :
      (state : ProcessState) (connected sensitive active : Bool)
      → Fields state connected sensitive
      → Button state active
          (if connected then "Disconnect" else "Connect")
          (sensitive && (connected || active))
  Fields-Button stopped c s active (h, k) = (rw h refl, rw (h, k) refl)
  Fields-Button starting c s active (h, k) = (rw h refl, rw (h, k) refl)
  Fields-Button running c s active (h, k) = (rw h refl, rw (h, k) refl)
  Fields-Button stopping c s active (h, k) = (rw h refl, rw (h, k) refl)
  Fields-Button (error m) c s active (h, k) = (rw h refl, rw (h, k) refl)

  -- the window is there, consistent, and its button shows the state
  abbrev pub Shown : Option App → Type 0
  Shown none = ⊥
  Shown (some a) =
      Button a.process_state a.has_active_nodes (set_label a) (set_sensitive a) × Fits a

  shown : (o : Option App) → Leaves o → Shown o
  shown none f = f
  shown (some a) f = (
    Fields-Button a.process_state a.connected a.button_sensitive a.has_active_nodes f.1.button,
    f,
  )

  -- Whatever messages the window handles after its start, in whatever surroundings, no handler panics.
  -- The button then says "Disconnect" in `running` and `stopping` and "Connect" in the other states; it
  -- can be pressed in `running`, and in `stopped` and after an error if there are active nodes, and not
  -- in `starting` and `stopping`. A handle that is held is that of the process started last, which was
  -- not told to stop. No process is told to stop twice. If there is a tray, the changes that it was
  -- told of lead from `stopped` to the state.
  pub handle_all-IsConsistent :
      (start : Surroundings) (disk : Disk) (files : Files) (ms : List (Surroundings × AppMsg))
      → Shown (handle_all x ms (some (init x start disk files)))
  unfolding init
  handle_all-IsConsistent start disk files ms =
      shown (handle_all x ms (some (init x start disk files)))
        (handle_all-Leaves ms (some (init x start disk files)) (tt, start-Agrees x.has_tray))
    where
      start-Agrees : (tray : Bool) → Agrees tray false true stopped 0 0 []
      start-Agrees true = record {
        button = (refl, refl);
        stopped_once = omega arith;
        started_once = omega arith;
        heard = refl;
      }
      start-Agrees false = record {
        button = (refl, refl);
        stopped_once = omega arith;
        started_once = omega arith;
        heard = refl;
      }
