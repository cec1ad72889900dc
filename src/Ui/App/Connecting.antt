-- ===== src/Ui/App/Connecting.antt =====
-- crates/ui/src/app.rs: what the message `Connect` does, in all its outcomes.
use mathlib.Core.List.Memᴰ
use v2ray_rs.Models.Proxy.{ProxyNode}
use v2ray_rs.Config.Json.{Value}
use v2ray_rs.Config.Common.{ConfigError}
use v2ray_rs.Config.Generator.{new_writer, output_path, generate_for}
use v2ray_rs.Config.Writer.{write_config}
use v2ray_rs.Config.Writer.Written.{write_config_lem, WriteOutcome}
use v2ray_rs.Process.State.{starting}
use v2ray_rs.Ui.App.{
  show_config_error, connect_unless_held, connect, update, with_binary, with_nodes, App, Setting,
  Surroundings, toast, spawn_process, send, apply_state, with_config, launch, stored_nodes,
  stored_rules, pid_path,
}
use v2ray_rs.Base.{
  ℕ, ◌+◌, String, ◌≡◌, refl, sym, ap, ◌∙◌, ◌≢◌, ◌⊎◌, inl, inr, Option, none, some, List, [], ◌∷◌,
  Memᴰ, ◌⧺◌, Result, ok, err, Files, put,
}

module _ {N : Type 0} (x : Setting N) (w : Surroundings) (a : App) where
  -- the configuration that a connection writes, with its text and its path
  abbrev pub Configured : String → String → Type 0
  Configured path text =
      (config : Value) × (generate_for x.u x.net a.settings.backend.backend_type
          (stored_nodes x w a) (stored_rules x w a) a.settings
        ≡ some (ok config))
      × (x.to_json config ≡ ok text)
      × (path ≡ output_path (new_writer a.settings x.data_dir) a.settings.backend.backend_type)

  -- a process was started with the configuration
  abbrev pub Launched : App → Type 0
  Launched a' =
      (binary : String) × (path : String) × (text : String) × (a.settings.backend.binary_path
        ≡ some binary)
      × Configured path text
      × (a'.files ≡ put path (some text) a.files)
      × (a'.process_state ≡ starting)
      × (a'.process_handle ≡ some a.spawned)
      × (a'.spawned ≡ a.spawned + 1)
      × Memᴰ (spawn_process a.spawned binary path (pid_path x)) a'.sent
      × (a'.disk ≡ a.disk)
      × (a'.settings ≡ a.settings)
      × (a'.has_active_nodes ≡ a.has_active_nodes)
      × (a'.reconnect_pending ≡ a.reconnect_pending)

  -- why a connection is refused, and what is shown
  abbrev pub Refused : String → Type 0
  Refused reason =
      ((a.settings.backend.binary_path ≡ none)
        × (reason ≡ "No backend binary configured — check Preferences"))
      ⊎ ((binary : String) × (a.settings.backend.binary_path ≡ some binary)
          × (stored_nodes x w a ≡ [])
          × (reason ≡ "No enabled proxy nodes — add a subscription first"))
      ⊎ ((binary : String) × (e : ConfigError) × (a.settings.backend.binary_path ≡ some binary)
          × (stored_nodes x w a ≢ [])
          × (write_config x.u x.net x.to_json w.writer (new_writer a.settings x.data_dir)
                (stored_nodes x w a) (stored_rules x w a) a.settings a.files
              ≡ some (err e, a.files))
          × (reason ≡ "Config generation failed: " ⧺ show_config_error e))

  abbrev pub ConnectOutcome : App → Type 0
  ConnectOutcome a' =
      ((h : ℕ) × (a.process_handle ≡ some h) × (a' ≡ a))
      ⊎ ((a.process_handle ≡ none)
          × (reason : String) × Refused reason
          × (a' ≡ send (toast reason) a))
      ⊎ ((a.process_handle ≡ none) × Launched a')

  some_node : (m : ProxyNode) (ms : List ProxyNode) → m ∷ ms ≢ []
  some_node m ms h = cc

  refused :
      (reason : String) (files : Files)
      → files ≡ a.files
      → send (toast reason) (record a { files = files }) ≡ send (toast reason) a
  refused reason files e = ap (λ (fs : Files). send (toast reason) (record a { files = fs })) e

  connected_with :
      (binary : String) (nodes : List ProxyNode) (p : Result ConfigError String × Files)
      → a.process_handle ≡ none
      → a.settings.backend.binary_path ≡ some binary
      → stored_nodes x w a ≡ nodes
      → nodes ≢ []
      → write_config x.u x.net x.to_json w.writer
          (new_writer a.settings x.data_dir)
          nodes
          (stored_rules x w a)
          a.settings
          a.files
        ≡ some p
      → WriteOutcome x.u x.net x.to_json
          (new_writer a.settings x.data_dir)
          nodes
          (stored_rules x w a)
          a.settings
          a.files
          p
      → (a' : App) × (with_config x binary (some p) a ≡ some a') × ConnectOutcome a'
  unfolding send apply_state
  connected_with binary nodes (err e, files) free b n some_nodes k (inl (empty, r, same)) =
      absurd (some_nodes empty)
  connected_with binary nodes (err e, files) free b n some_nodes k (inr (inr (_, r, same))) = (
    _,
    refl,
    inr (
        inl (
          free,
          _,
          inr (
              inr (
                binary,
                e,
                b,
                (λ empty. some_nodes (sym n ∙ empty)),
                rw n (k ∙ (λ i. some (err e, same i))),
                refl,
              )),
          refused _ files same,
        )),
  )
  connected_with binary nodes (err e, files) free b n some_nodes k
        (inr (inl (c, t, g, tags, j, r, wr))) =
      cc
  connected_with binary nodes (ok path, files) free b n some_nodes k (inl (_, r, same)) = cc
  connected_with binary nodes (ok path, files) free b n some_nodes k (inr (inr (_, r, same))) = cc
  connected_with binary nodes (ok path, files) free b n some_nodes k
        (inr (inl (c, t, g, tags, j, r, wr))) =
      let here : path
          ≡ output_path (new_writer a.settings x.data_dir) a.settings.backend.backend_type =
        cc in
      (
        launch x binary path (record a { files = files }),
        refl,
        inr (
            inr (
              free,
              (
                binary,
                path,
                t,
                b,
                (c, rw n g, j, here),
                wr ∙ ap (λ q. put q (some t) a.files) (sym here),
                refl,
                refl,
                refl,
                Memᴰ.append_right _ (Memᴰ.head refl),
                refl,
                refl,
                refl,
                refl,
              ),
            )),
      )

  with_nodes-ConnectOutcome :
      (binary : String) (nodes : List ProxyNode)
      → a.process_handle ≡ none
      → a.settings.backend.binary_path ≡ some binary
      → stored_nodes x w a ≡ nodes
      → (a' : App) × (with_nodes x w binary nodes a ≡ some a') × ConnectOutcome a'
  with_nodes-ConnectOutcome binary [] free b n =
      (_, refl, inr (inl (free, _, inr (inl (binary, b, n, refl)), refl)))
  with_nodes-ConnectOutcome binary (m ∷ ms) free b n =
      let (p, e, written) =
        write_config_lem x.u x.net x.to_json (new_writer a.settings x.data_dir) (m ∷ ms)
          (stored_rules x w a) a.settings a.files w.writer in
      let (a', done, o) = connected_with binary (m ∷ ms) p free b n (some_node m ms) e written in
      (a', ap (λ q. with_config x binary q a) e ∙ done, o)

  with_binary-ConnectOutcome :
      (o : Option String)
      → a.process_handle ≡ none
      → a.settings.backend.binary_path ≡ o
      → (a' : App) × (with_binary x w o a ≡ some a') × ConnectOutcome a'
  with_binary-ConnectOutcome none free b = (_, refl, inr (inl (free, _, inl (b, refl), refl)))
  with_binary-ConnectOutcome (some binary) free b =
      with_nodes-ConnectOutcome binary (stored_nodes x w a) free b refl

  -- `Connect` never panics. With a handle it does nothing. Without one it either shows a reason and
  -- changes nothing else, where the reason is that no binary is configured, that no enabled node is
  -- stored, or the error of the config writer; or the window is in `starting`, holds the handle of a
  -- new process, and that process is started with the configured binary and a file that holds the text
  -- of the configuration generated from the enabled nodes, the enabled rules and the settings, while
  -- no other file changed, nor the stored settings, subscriptions and rules.
  pub connect_lem : (a' : App) × (update x w connect a ≡ some a') × ConnectOutcome a'
  unfolding update
  connect_lem = go a.process_handle refl
    where
      go :
          (o : Option ℕ)
          → a.process_handle ≡ o
          → (a' : App) × (connect_unless_held x w o a ≡ some a') × ConnectOutcome a'
      go (some h) e = (a, refl, inl (h, e, refl))
      go none e = with_binary-ConnectOutcome a.settings.backend.binary_path e refl
