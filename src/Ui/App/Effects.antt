-- ===== src/Ui/App/Effects.antt =====
-- crates/ui/src/app.rs: what the effects that were sent say about the processes, and how a sent
-- effect changes it.
use mathlib.Core.Path.{subst}
use mathlib.Core.List.{append-nil, append_assoc}
use v2ray_rs.Process.State.{error, ProcessState, stopped, starting, running, stopping}
use v2ray_rs.Ui.App.{
  is_locked, set_locked, announced, state_effects, told, Effect, toast, tray_event, spawn_process,
  send_stop, App, is_connected, is_sensitive,
}
use v2ray_rs.Base.{
  ℕ, ◌+◌, ◌≤◌, String, ◌≡◌, refl, sym, ap, ◌∙◌, Bool, true, false, Option, none, some, List, [],
  ◌∷◌, ◌++◌, arith,
}

-- the processes that were told to stop, the number of those that were started, and the changes of the
-- state that the tray heard of
abbrev pub stops : List Effect → List ℕ
stops [] = []
stops (send_stop h ∷ es) = h ∷ stops es
stops (_ ∷ es) = stops es

abbrev pub spawns : List Effect → List ℕ
spawns [] = []
spawns (spawn_process h b c p ∷ es) = h ∷ spawns es
spawns (_ ∷ es) = spawns es

abbrev pub changes : List Effect → List (ProcessState × ProcessState)
changes [] = []
changes (tray_event from to ∷ es) = (from, to) ∷ changes es
changes (_ ∷ es) = changes es

-- strictly ascending numbers from `low` on, below `high`
abbrev pub Ascends : ℕ → List ℕ → ℕ → Type 0
Ascends low [] high = low ≤ high
Ascends low (n ∷ ns) high = (low ≤ n) × Ascends (n + 1) ns high

-- each change starts in the state where the one before ended
abbrev pub Leads : ProcessState → List (ProcessState × ProcessState) → ProcessState → Type 0
Leads from [] to = from ≡ to
Leads from ((s, t) ∷ es) to = (from ≡ s) × Leads t es to

abbrev pub Heard : Bool → List Effect → ProcessState → Type 0
Heard true sent state = Leads stopped (changes sent) state
Heard false sent state = changes sent ≡ []

-- processes below this number may have been told to stop: the one whose handle is held has not
abbrev pub told_below : Option ℕ → ℕ → ℕ
told_below none spawned = spawned
told_below (some h) spawned = h

abbrev pub Newest : Option ℕ → ℕ → Type 0
Newest none spawned = Unit
Newest (some h) spawned = h + 1 ≡ spawned

-- the two fields of the button in each state
abbrev pub Fields : ProcessState → (connected sensitive : Bool) → Type 0
Fields stopped c s = (c ≡ false) × (s ≡ true)
Fields starting c s = (c ≡ false) × (s ≡ false)
Fields running c s = (c ≡ true) × (s ≡ true)
Fields stopping c s = (c ≡ true) × (s ≡ false)
Fields (error m) c s = (c ≡ false) × (s ≡ true)

applied-Fields : (to : ProcessState) → Fields to (is_connected to) (is_sensitive to)
applied-Fields stopped = (refl, refl)
applied-Fields starting = (refl, refl)
applied-Fields running = (refl, refl)
applied-Fields stopping = (refl, refl)
applied-Fields (error m) = (refl, refl)

pub record Agrees (tray connected sensitive : Bool) (state : ProcessState) (high spawned : ℕ)
    (sent : List Effect) : Type 0 where
  pub button : Fields state connected sensitive
  pub stopped_once : Ascends 0 (stops sent) high
  pub started_once : Ascends 0 (spawns sent) spawned
  pub heard : Heard tray sent state

-- The fields of the button are those of the state. A handle is that of the process that was started last,
-- which was not told to stop. Each process is started once and told to stop at most once. The changes
-- that the tray heard of lead from `stopped` to the state.
abbrev pub IsConsistent : Bool → App → Type 0
IsConsistent tray a =
    Newest a.process_handle a.spawned
    × Agrees tray a.connected a.button_sensitive a.process_state
        (told_below a.process_handle a.spawned) a.spawned a.sent

stops-append : (xs ys : List Effect) → stops (xs ++ ys) ≡ stops xs ++ stops ys
stops-append [] ys = refl
stops-append (send_stop h ∷ xs) ys = ap (◌∷◌ h) (stops-append xs ys)
stops-append (toast m ∷ xs) ys = stops-append xs ys
stops-append (_ ∷ xs) ys = stops-append xs ys

spawns-append : (xs ys : List Effect) → spawns (xs ++ ys) ≡ spawns xs ++ spawns ys
spawns-append [] ys = refl
spawns-append (spawn_process h b c p ∷ xs) ys = ap (◌∷◌ h) (spawns-append xs ys)
spawns-append (toast m ∷ xs) ys = spawns-append xs ys
spawns-append (_ ∷ xs) ys = spawns-append xs ys

changes-append : (xs ys : List Effect) → changes (xs ++ ys) ≡ changes xs ++ changes ys
changes-append [] ys = refl
changes-append (tray_event s t ∷ xs) ys = ap (◌∷◌ (s, t)) (changes-append xs ys)
changes-append (toast m ∷ xs) ys = changes-append xs ys
changes-append (_ ∷ xs) ys = changes-append xs ys

Ascends-snoc :
    (low : ℕ) (ns : List ℕ) (h : ℕ) → Ascends low ns h → Ascends low (ns ++ h ∷ []) (h + 1)
Ascends-snoc low [] h k = (k, omega arith)
Ascends-snoc low (n ∷ ns) h k = (k.0, Ascends-snoc (n + 1) ns h k.1)

Ascends-le : (low : ℕ) (ns : List ℕ) (h k : ℕ) → h ≤ k → Ascends low ns h → Ascends low ns k
Ascends-le low [] h k l m = omega arith
Ascends-le low (n ∷ ns) h k l m = (m.0, Ascends-le (n + 1) ns h k l m.1)

Leads-snoc :
    (r s t : ProcessState) (es : List (ProcessState × ProcessState))
    → Leads r es s
    → Leads r (es ++ (s, t) ∷ []) t
Leads-snoc r s t [] h = (h, refl)
Leads-snoc r s t ((a, b) ∷ es) h = (h.0, Leads-snoc b s t es h.1)

-- effects that start and stop nothing
abbrev pub Quiet : List Effect → Type 0
Quiet es = (stops es ≡ []) × (spawns es ≡ [])

extend_lem {ℓ} :
    {A : Type ℓ} (f : List Effect → List A) (sent es : List Effect)
    → f (sent ++ es) ≡ f sent ++ f es
    → f es ≡ []
    → f (sent ++ es) ≡ f sent
extend_lem f sent es h k = h ∙ ap (◌++◌ (f sent)) k ∙ append-nil (f sent)

Heard-quiet :
    (tray : Bool) (sent es : List Effect) (state : ProcessState)
    → changes es ≡ []
    → Heard tray sent state
    → Heard tray (sent ++ es) state
Heard-quiet true sent es state h k =
    subst (λ cs. Leads stopped cs state)
      (sym (extend_lem changes sent es (changes-append sent es) h)) k
Heard-quiet false sent es state h k = extend_lem changes sent es (changes-append sent es) h ∙ k

Heard-change :
    (tray : Bool) (sent : List Effect) (from to : ProcessState)
    → Heard tray sent from
    → Heard tray (sent ++ told tray from to) to
Heard-change true sent from to k =
    subst (λ cs. Leads stopped cs to) (sym (changes-append sent (tray_event from to ∷ [])))
      (Leads-snoc stopped from to (changes sent) k)
Heard-change false sent from to k = extend_lem changes sent [] (changes-append sent []) refl ∙ k

module _ (tray : Bool) {connected sensitive : Bool} {state : ProcessState} {high spawned : ℕ}
    {sent : List Effect} where
  -- what is sent besides starts, stops and changes of the state
  pub sent-Quiet :
      (es : List Effect)
      → Quiet es
      → changes es ≡ []
      → Agrees tray connected sensitive state high spawned sent
      → Agrees tray connected sensitive state high spawned (sent ++ es)
  sent-Quiet es (no_stop, no_spawn) no_change v = record {
    button = v.button;
    stopped_once =
        subst (λ ns. Ascends 0 ns high)
          (sym (extend_lem stops sent es (stops-append sent es) no_stop)) v.stopped_once;
    started_once =
        subst (λ ns. Ascends 0 ns spawned)
          (sym (extend_lem spawns sent es (spawns-append sent es) no_spawn)) v.started_once;
    heard = Heard-quiet tray sent es state no_change v.heard;
  }

  -- a process below the bound is told to stop
  pub sent-stop :
      (bound : ℕ)
      → high + 1 ≤ bound
      → Agrees tray connected sensitive state high spawned sent
      → Agrees tray connected sensitive state bound spawned (sent ++ send_stop high ∷ [])
  sent-stop bound h v = record {
    button = v.button;
    stopped_once =
        subst (λ ns. Ascends 0 ns bound) (sym (stops-append sent (send_stop high ∷ [])))
          (Ascends-le 0 (stops sent ++ high ∷ []) (high + 1) bound h
            (Ascends-snoc 0 (stops sent) high v.stopped_once));
    started_once =
        subst (λ ns. Ascends 0 ns spawned)
          (sym (
            extend_lem spawns sent (send_stop high ∷ []) (spawns-append sent (send_stop high ∷ []))
              refl))
          v.started_once;
    heard = Heard-quiet tray sent (send_stop high ∷ []) state refl v.heard;
  }

  pub weaken :
      (bound : ℕ)
      → high ≤ bound
      → Agrees tray connected sensitive state high spawned sent
      → Agrees tray connected sensitive state bound spawned sent
  weaken bound h v = record {
    button = v.button;
    stopped_once = Ascends-le 0 (stops sent) high bound h v.stopped_once;
    started_once = v.started_once;
    heard = v.heard;
  }

-- the next process is started
pub sent-spawn :
    (tray : Bool) {connected sensitive : Bool} {state : ProcessState} (spawned : ℕ)
    (sent : List Effect) (b c p : String)
    → Agrees tray connected sensitive state spawned spawned sent
    → Agrees tray connected sensitive state spawned
        (spawned + 1)
        (sent ++ spawn_process spawned b c p ∷ [])
sent-spawn tray {state = state} spawned sent b c p v =
    let e = spawn_process spawned b c p ∷ [] in
    record {
      button = v.button;
      stopped_once =
          subst (λ ns. Ascends 0 ns spawned)
            (sym (extend_lem stops sent e (stops-append sent e) refl)) v.stopped_once;
      started_once =
          subst (λ ns. Ascends 0 ns (spawned + 1)) (sym (spawns-append sent e))
            (Ascends-snoc 0 (spawns sent) spawned v.started_once);
      heard = Heard-quiet tray sent e state refl v.heard;
    }

quiet_part : ProcessState → List Effect
quiet_part to = announced to ++ set_locked (is_locked to) ∷ []

quiet_part-Quiet : (to : ProcessState) → Quiet (quiet_part to)
unfolding quiet_part
quiet_part-Quiet (error m) = (refl, refl)
quiet_part-Quiet stopped = (refl, refl)
quiet_part-Quiet _ = (refl, refl)

quiet_part-changes : (to : ProcessState) → changes (quiet_part to) ≡ []
unfolding quiet_part
quiet_part-changes (error m) = refl
quiet_part-changes stopped = refl
quiet_part-changes _ = refl

told-Quiet : (tray : Bool) (from to : ProcessState) → Quiet (told tray from to)
told-Quiet true from to = (refl, refl)
told-Quiet false from to = (refl, refl)

state_effects-parts :
    (tray : Bool) (from to : ProcessState) (sent : List Effect)
    → (sent ++ quiet_part to) ++ told tray from to ≡ sent ++ state_effects tray from to
unfolding quiet_part
state_effects-parts tray from to sent =
    append_assoc sent (announced to ++ set_locked (is_locked to) ∷ []) (told tray from to)
    ∙ ap (◌++◌ sent)
        (append_assoc (announced to) (set_locked (is_locked to) ∷ []) (told tray from to))

-- `apply_state`
pub changed :
    (tray : Bool) {connected sensitive : Bool} {from : ProcessState} {high spawned : ℕ}
    (to : ProcessState) (sent : List Effect)
    → Agrees tray connected sensitive from high spawned sent
    → Agrees tray
        (is_connected to)
        (is_sensitive to)
        to
        high
        spawned
        (sent ++ state_effects tray from to)
changed tray {from = from} {high = high} {spawned = spawned} to sent v =
    let w = sent-Quiet tray (quiet_part to) (quiet_part-Quiet to) (quiet_part-changes to) v in
    let first = sent ++ quiet_part to in
    let (no_stop, no_spawn) = told-Quiet tray from to in
    let es = told tray from to in
    subst (Agrees tray (is_connected to) (is_sensitive to) to high spawned)
      (state_effects-parts tray from to sent)
      (record {
        button = applied-Fields to;
        stopped_once =
            subst (λ ns. Ascends 0 ns high)
              (sym (extend_lem stops first es (stops-append first es) no_stop)) w.stopped_once;
        started_once =
            subst (λ ns. Ascends 0 ns spawned)
              (sym (extend_lem spawns first es (spawns-append first es) no_spawn)) w.started_once;
        heard = Heard-change tray first from to w.heard;
      })
