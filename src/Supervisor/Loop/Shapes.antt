-- ===== src/Supervisor/Loop/Shapes.antt =====
-- memory/supervisor.py: the ways a round of `run_loop` can end, and the status it saves.
use agentic_loop_template.Base.{
  ℕ, suc, ◌≤◌, ◌≡◌, refl, ◌⊎◌, inl, inr, List, ◌∷◌, length, Bool-cases, ok,
}
use agentic_loop_template.Base.Int.{pos}
use agentic_loop_template.Base.Text.{Text}
use agentic_loop_template.Json.{object, Fields}
use agentic_loop_template.State.{
  LoopState, TooLarge, read_state, save_state, update_state, capped, trimmed,
}
use agentic_loop_template.Supervisor.Roles.{
  pr_ready, value, role, terminal, orchestrator, next_role, exit_code_for,
}
use agentic_loop_template.Supervisor.Turn.{World, Run, accept, checked}
use agentic_loop_template.Supervisor.Loop.{Outcome, Vars, Round, continue, finish, crash, save}

-- The status in the state file.
abbrev pub status_of : Run → Text
status_of run = (read_state run.store).status

status-trimmed :
    (too_large : TooLarge) (st : LoopState) → (trimmed too_large (capped st)).status ≡ st.status
unfolding trimmed capped
status-trimmed too_large st = elim (Bool-cases (too_large (capped st))) [
  | inl large ↦ rw (large, trimmed) refl
  | inr small ↦ rw (small, trimmed) refl
]

pub status-save :
    (world : World) (change : LoopState → LoopState) (run : Run)
    → status_of (save world change run) ≡ (change (read_state run.store)).status
unfolding save update_state save_state read_state
status-save world change run = status-trimmed world.too_large (change (read_state run.store))

-- An accepted turn on top of the log of the turns before it.
pub record Logged (world : World) (r : Text) (log : List (Text × Fields)) (run1 : Run)
    : Type 0 where
  pub handoff : Fields
  pub is_accepted : checked world (object handoff) ≡ accept handoff
  pub logged : run1.accepted ≡ (r, handoff) ∷ log

-- The next round has the role that `next_role` named, or starts a cycle.
pub record Continued (world : World) (vars vars1 : Vars) (log : List (Text × Fields)) (run1 : Run)
    : Type 0 where
  pub turn : Logged world vars.role log run1
  pub turns : vars1.turns ≡ suc vars.turns
  pub next :
      (next_role world.parse_int vars.role turn.handoff ≡ ok (role vars1.role))
      ⊎ ((next_role world.parse_int vars.role turn.handoff ≡ ok (terminal pr_ready))
          × (vars1.role ≡ orchestrator))

-- The turn that a successful run ends with.
pub record Succeeded (world : World) (r : Text) (log : List (Text × Fields)) (run1 : Run)
    : Type 0 where
  pub turn : Logged world r log run1
  pub ready : next_role world.parse_int r turn.handoff ≡ ok (terminal pr_ready)

pub record Finished (world : World) (r : Text) (o : Outcome) (log : List (Text × Fields))
    (run1 : Run) : Type 0 where
  pub at : o.role ≡ r
  pub saved : status_of run1 ≡ value o.terminal
  pub code : o.exit_code ≡ exit_code_for o.terminal
  pub success : o.exit_code ≡ pos 0 → Succeeded world r log run1

-- What a round comes to, on top of the log before it and after so many calls at most.
abbrev pub Rounded : World → Vars → List (Text × Fields) → ℕ → Round × Run → Type 0
Rounded world vars log n (continue vars1, run1) =
    (length run1.calls ≤ n) × Continued world vars vars1 log run1
Rounded world vars log n (finish o, run1) =
    (length run1.calls ≤ n) × Finished world vars.role o log run1
Rounded world vars log n (crash c, run1) = length run1.calls ≤ n
