-- ===== src/Process/State/Edges.antt =====
-- The transition diagram of state.rs as a relation.
use v2ray_rs.Process.State.{
  ProcessState, stopped, starting, running, stopping, error, can_transition_to, invalid,
  StateManager, state_changed, transition,
}
use v2ray_rs.Base.{String, ◌≡◌, refl, ◌⊎◌, inl, inr, true, [], ◌∷◌, ◌++◌, Bool-cases, ok, err}

infix 40 ◌⟶◌
pub data ◌⟶◌ : ProcessState → ProcessState → Type 0 where
  start : stopped ⟶ starting
  started : starting ⟶ running
  start_failed : {m : String} → starting ⟶ error m
  stop : running ⟶ stopping
  crash : {m : String} → running ⟶ error m
  finish : stopping ⟶ stopped
  stop_failed : {m : String} → stopping ⟶ error m
  retry : {m : String} → error m ⟶ starting
  give_up : {m : String} → error m ⟶ stopped

pub edge_complete : {s t : ProcessState} → s ⟶ t → can_transition_to s t ≡ true
edge_complete start = refl
edge_complete started = refl
edge_complete start_failed = refl
edge_complete stop = refl
edge_complete crash = refl
edge_complete finish = refl
edge_complete stop_failed = refl
edge_complete retry = refl
edge_complete give_up = refl

ruleset edges = (start, started, start_failed, stop, crash, finish, stop_failed, retry, give_up)

pub edge_sound : (s t : ProcessState) → can_transition_to s t ≡ true → s ⟶ t
edge_sound stopped starting h = start
edge_sound starting running h = started
edge_sound starting (error m) h = start_failed
edge_sound running stopping h = stop
edge_sound running (error m) h = crash
edge_sound stopping stopped h = finish
edge_sound stopping (error m) h = stop_failed
edge_sound (error m) starting h = retry
edge_sound (error m) stopped h = give_up
edge_sound _ _ h = cc

-- A transition takes place exactly along an edge of the diagram: along one it returns the old
-- state, moves to the target and sends the change; along none it returns an error that names both
-- states, changes nothing and sends nothing.
pub transition_lem :
    (target : ProcessState) (m : StateManager)
    → ((m.state ⟶ target)
        × (transition target m ≡ (
          ok m.state,
          record { state = target; sent = m.sent ++ state_changed m.state target ∷ [] },
        )))
      ⊎ ((¬ (m.state ⟶ target)) × (transition target m ≡ (err (invalid m.state target), m)))
unfolding transition
transition_lem target m = elim (Bool-cases (can_transition_to m.state target)) [
  | inl e ↦ inl (edge_sound m.state target e, rw e refl)
  | inr e ↦ inr (λ edge. cc (edge_complete edge), rw e refl)
]
