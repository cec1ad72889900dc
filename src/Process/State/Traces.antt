-- ===== src/Process/State/Traces.antt =====
-- What the events that a StateManager of state.rs has sent say of its state.
use v2ray_rs.Process.State.{
  ProcessState, stopped, ProcessEvent, state_changed, log_line, process_exited, StateManager, new,
  emit, transition,
}
use v2ray_rs.Process.State.Edges.{◌⟶◌, transition_lem}
use v2ray_rs.Base.{◌≡◌, refl, inl, inr, List, [], ◌∷◌, ◌++◌}

-- The state changes among the events lead from the first state to the second, each along an edge
-- of the diagram and from where the one before it ended.
abbrev pub Leads : ProcessState → List ProcessEvent → ProcessState → Type 0
Leads s [] t = s ≡ t
Leads s (state_changed a b ∷ es) t = (s ≡ a) × (a ⟶ b) × Leads b es t
Leads s (log_line l ∷ es) t = Leads s es t
Leads s (process_exited c ∷ es) t = Leads s es t

-- every change since the manager was made stopped has been sent, in order
abbrev pub IsTraced : StateManager → Type 0
IsTraced m = Leads stopped m.sent m.state

Leads-change :
    (s : ProcessState) (es : List ProcessEvent) (t u : ProcessState)
    → Leads s es t
    → t ⟶ u
    → Leads s (es ++ state_changed t u ∷ []) u
Leads-change s [] t u h e = (h, e, refl)
Leads-change s (state_changed a b ∷ es) t u (p, q, h) e = (p, q, Leads-change b es t u h e)
Leads-change s (log_line l ∷ es) t u h e = Leads-change s es t u h e
Leads-change s (process_exited c ∷ es) t u h e = Leads-change s es t u h e

-- an event that is no change of state
abbrev pub IsQuiet : ProcessEvent → Type 0
IsQuiet (state_changed a b) = ⊥
IsQuiet _ = Unit

Leads-quiet :
    (s : ProcessState) (es : List ProcessEvent) (t : ProcessState) (e : ProcessEvent)
    → IsQuiet e
    → Leads s es t
    → Leads s (es ++ e ∷ []) t
Leads-quiet s [] t (log_line l) q h = h
Leads-quiet s [] t (process_exited c) q h = h
Leads-quiet s [] t (state_changed a b) q h = absurd q
Leads-quiet s (state_changed a b ∷ es) t e q (p, x, h) = (p, x, Leads-quiet b es t e q h)
Leads-quiet s (log_line l ∷ es) t e q h = Leads-quiet s es t e q h
Leads-quiet s (process_exited c ∷ es) t e q h = Leads-quiet s es t e q h

pub emit-IsTraced :
    (e : ProcessEvent) (m : StateManager) → IsQuiet e → IsTraced m → IsTraced (emit e m)
unfolding emit
emit-IsTraced e m q h = Leads-quiet stopped m.sent m.state e q h

pub transition-IsTraced :
    (target : ProcessState) (m : StateManager) → IsTraced m → IsTraced (transition target m).1
transition-IsTraced target m h = elim (transition_lem target m) [
  | inl (edge, e) ↦ rw e (Leads-change stopped m.sent m.state target h edge)
  | inr (gone, e) ↦ rw e h
]

pub new-IsTraced : IsTraced new
new-IsTraced = refl
