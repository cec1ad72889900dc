-- ===== src/Ui/App/Reconnecting.antt =====
-- crates/ui/src/app.rs: changed settings reach the backend by a disconnection and a connection.

use v2ray_rs.Models.Proxy.{ProxyNode}
use v2ray_rs.Config.Json.{Value}
use v2ray_rs.Config.Generator.{new_writer, output_path, generate_for}
use v2ray_rs.Config.Writer.{first_fault}
use v2ray_rs.Config.Writer.Written.{write_config-ok}
use v2ray_rs.Storage.Persistence.{save_settings, load_subscriptions, load_routing_rules}
use v2ray_rs.Process.State.{stopping, stopped}
use v2ray_rs.Process.State.{ProcessState, starting, stopped}
use v2ray_rs.Models.Settings.{AppSettings}
use mathlib.Core.List.Memᴰ
use mathlib.Core.List.{append-nil, append_assoc}
use v2ray_rs.Ui.App.{
  App, AppMsg, connect, disconnect, settings_changed, process_state_changed, Setting, Surroundings,
  Effect, input, send_stop, spawn_process, send, apply_state, update, connect_unless_held,
  with_binary, with_nodes, with_config, launch, stored_nodes, stored_rules, pid_path, told,
  disconnect_held, state_changed, reconnecting_if, saved_settings, handle_all,
}
use v2ray_rs.Base.{
  ℕ, String, ◌≡◌, refl, ap, ◌∙◌, ◌≢◌, Bool, true, false, none, some, List, [], ◌∷◌, ◌++◌, Memᴰ,
  is_some, ok, put,
}

-- the messages that the window sent to itself
abbrev pub inputs : List Effect → List AppMsg
inputs [] = []
inputs (input m ∷ es) = m ∷ inputs es
inputs (_ ∷ es) = inputs es

inputs-append : (xs ys : List Effect) → inputs (xs ++ ys) ≡ inputs xs ++ inputs ys
inputs-append [] ys = refl
inputs-append (input m ∷ xs) ys = ap (◌∷◌ m) (inputs-append xs ys)
inputs-append (Effect.present ∷ xs) ys = inputs-append xs ys
inputs-append (_ ∷ xs) ys = inputs-append xs ys

module _ {N : Type 0} (x : Setting N) where
  -- without a handle, with a binary and a node, and nothing that fails, `Connect` starts a process
  connects :
      (w : Surroundings) (a : App) (binary : String)
      → a.process_handle ≡ none
      → a.settings.backend.binary_path ≡ some binary
      → stored_nodes x w a ≢ []
      → ((v : Value) → (text : String) × (x.to_json v ≡ ok text))
      → first_fault w.writer ≡ none
      → (config : Value) × (text : String) × (generate_for x.u x.net a.settings.backend.backend_type
            (stored_nodes x w a)
            (stored_rules x w a)
            a.settings
          ≡ some (ok config))
        × (x.to_json config ≡ ok text)
        × (update x w connect a
            ≡ some (
                launch x binary
                  (output_path (new_writer a.settings x.data_dir) a.settings.backend.backend_type)
                  (record a {
                    files =
                        put
                          (output_path
                            (new_writer a.settings x.data_dir)
                            a.settings.backend.backend_type)
                          (some text)
                          a.files;
                  })))
  unfolding update
  connects w a binary free b nodes prints no_fault =
      let (config, text, made, printed, e) =
        write_config-ok x.u x.net x.to_json (new_writer a.settings x.data_dir) (stored_nodes x w a)
          (stored_rules x w a) a.settings a.files w.writer nodes prints no_fault in
      (
        config,
        text,
        made,
        printed,
        ap (λ o. connect_unless_held x w o a) free
            ∙ ap (λ o. with_binary x w o a) b
            ∙ go binary (stored_nodes x w a) nodes
            ∙ ap (λ q. with_config x binary q a) e,
      )
    where
      go :
          (binary : String) (ns : List ProxyNode)
          → ns ≢ []
          → with_nodes x w binary ns a
            ≡ with_config x binary
                (v2ray_rs.Config.Writer.write_config x.u x.net x.to_json w.writer
                  (new_writer a.settings x.data_dir)
                  ns
                  (stored_rules x w a)
                  a.settings
                  a.files)
                a
      go binary [] h = absurd (h refl)
      go binary (n ∷ ns) h = refl

tray_told :
    (tray : Bool) (state : ProcessState) (before : List AppMsg)
    → before
        ++ disconnect
          ∷ (inputs (told tray state stopping)
              ++ (inputs (told tray stopping stopped)
                  ++ connect ∷ inputs (told tray stopped starting)))
      ≡ before ++ disconnect ∷ connect ∷ []
tray_told true state before = refl
tray_told false state before = refl

module _ {N : Type 0} (x : Setting N) (h : ℕ) (settings : AppSettings) (binary : String) where
  -- the file of the new settings holds the text of the configuration that is generated from them, the
  -- stored nodes and rules, and a process was started with it
  abbrev pub Restarted : Surroundings → App → App → Type 0
  Restarted w a a' =
      (config : Value) × (text : String) × (generate_for x.u x.net settings.backend.backend_type
          (stored_nodes x w a) (stored_rules x w a) settings
        ≡ some (ok config))
      × (x.to_json config ≡ ok text)
      × (a'.files
          ≡ put (output_path (new_writer settings x.data_dir) settings.backend.backend_type)
              (some text) a.files)
      × Memᴰ
          (spawn_process a.spawned binary
            (output_path (new_writer settings x.data_dir) settings.backend.backend_type)
            (pid_path x))
          a'.sent

  -- the old process was told to stop, the new one was started with the new settings, and the window
  -- asked itself for both
  abbrev pub Reconnected : Surroundings → App → App → Type 0
  Reconnected w a a' =
      (a'.settings ≡ settings)
      × (a'.process_state ≡ starting)
      × (a'.process_handle ≡ some a.spawned)
      × (a'.reconnect_pending ≡ false)
      × Memᴰ (send_stop h) a'.sent
      × Restarted w a a'
      × (inputs a'.sent ≡ inputs a.sent ++ disconnect ∷ connect ∷ [])

  -- the state after the first three messages
  abbrev after_stop : App → Surroundings → App
  after_stop a w = state_changed x stopped (
      disconnect_held x (some h) (
        reconnecting_if x true
          (record (saved_settings x w settings
            (send (Effect.switch_language settings.language) a)) { settings = settings })))

  steps :
      (a : App) (w₁ w₂ w₃ w₄ : Surroundings)
      → a.process_handle ≡ some h
      → handle_all x
          ((w₁, settings_changed settings)
            ∷ (w₂, disconnect)
            ∷ (w₃, process_state_changed stopped)
            ∷ (w₄, connect)
            ∷ [])
          (some a)
        ≡ update x w₄ connect (after_stop a w₁)
  unfolding update handle_all apply_state send
  steps a w₁ w₂ w₃ w₄ held =
      let a₁ : App =
        record (saved_settings x w₁ settings (send (Effect.switch_language settings.language) a)) {
          settings = settings;
        } in
      let last : List (Surroundings × AppMsg) =
        (w₃, process_state_changed stopped) ∷ (w₄, connect) ∷ [] in
      ap (λ b. handle_all x ((w₂, disconnect) ∷ last) (some (reconnecting_if x b a₁)))
        (ap is_some held)
      ∙ ap (λ o. handle_all x last (some (disconnect_held x o (reconnecting_if x true a₁)))) held

  -- When the settings are changed while a handle is held, the window sends itself `Disconnect`; when
  -- that is handled and the process has stopped, it sends itself `Connect`; and when that is handled,
  -- the old process was told to stop and a new one started with the binary of the new settings and a
  -- file that holds the text of the configuration generated from the new settings and the stored nodes
  -- and rules. The new settings name
  -- a binary, an enabled node is stored, and nothing fails when the new configuration is written.
  pub reconnects :
      (a : App) (w₁ w₂ w₃ w₄ : Surroundings)
      → a.process_handle ≡ some h
      → settings.backend.binary_path ≡ some binary
      → stored_nodes x w₄ a ≢ []
      → ((v : Value) → (text : String) × (x.to_json v ≡ ok text))
      → first_fault w₄.writer ≡ none
      → (a' : App) × (handle_all x
            ((w₁, settings_changed settings)
              ∷ (w₂, disconnect)
              ∷ (w₃, process_state_changed stopped)
              ∷ (w₄, connect)
              ∷ [])
            (some a)
          ≡ some a')
        × Reconnected w₄ a a'
  unfolding update handle_all apply_state send save_settings load_subscriptions load_routing_rules
  reconnects a w₁ w₂ w₃ w₄ held b nodes prints no_fault =
      let b₃ = after_stop a w₁ in
      let told_nothing = tray_told x.has_tray a.process_state (inputs a.sent) in
      let (config, text, made, printed, e) = connects x w₄ b₃ binary refl b nodes prints no_fault in
      (
        launch x binary (output_path (new_writer settings x.data_dir) settings.backend.backend_type)
            (record b₃ {
              files =
                  put (output_path (new_writer settings x.data_dir) settings.backend.backend_type)
                    (some text) b₃.files;
            }),
        steps a w₁ w₂ w₃ w₄ held ∙ e,
        (
          refl,
          refl,
          refl,
          refl,
          Memᴰ.append_left _ (
              Memᴰ.append_left _ (
                Memᴰ.append_left _ (
                  Memᴰ.append_left _ (
                    Memᴰ.append_left _ (
                      Memᴰ.append_left _
                        (Memᴰ.append_left _ (Memᴰ.append_right _ (Memᴰ.head refl)))))))),
          (config, text, made, printed, refl, Memᴰ.append_right _ (Memᴰ.head refl)),
          simp (inputs-append, append-nil, append_assoc) told_nothing,
        ),
      )
