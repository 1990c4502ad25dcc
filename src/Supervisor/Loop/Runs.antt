-- ===== src/Supervisor/Loop/Runs.antt =====
-- memory/supervisor.py: what a run of the outer loop comes to.
use agentic_loop_template.Base.{
  ℕ, zero, suc, ◌+◌, ◌*◌, ◌≤◌, ◌≡◌, refl, inl, inr, List, [], ◌∷◌, length, arith, Result, ok, err,
}
use agentic_loop_template.Base.Int.{to_ℕ}
use agentic_loop_template.Base.Text.{Text}
use agentic_loop_template.Json.{object, Fields, Crash}
use agentic_loop_template.Supervisor.Roles.{
  pr_ready, stopped_limit, role, terminal, orchestrator, next_role, exit_code_for,
}
use agentic_loop_template.Supervisor.Turn.{World, Config, Run, accept, checked}
use agentic_loop_template.Supervisor.Loop.{
  Outcome, Vars, Round, continue, finish, crash, save, set_status, round, loop,
}
use agentic_loop_template.Supervisor.Loop.Shapes.{Rounded, Continued, Finished, status-save}
use agentic_loop_template.Supervisor.Loop.Rounds.{round-Rounded}

-- The accepted turns from a first role on, the last one first, are those of a run that is now at a role:
-- each handoff was accepted, and `next_role` led from it to the next turn, or it completed a cycle.
pub data Trail (world : World) (first : Text) : Text → List (Text × Fields) → Type 0 where
  begin : Trail world first first []
  handed :
      {r n : Text} {log : List (Text × Fields)} (fs : Fields)
      → Trail world first r log
      → checked world (object fs) ≡ accept fs
      → next_role world.parse_int r fs ≡ ok (role n)
      → Trail world first n ((r, fs) ∷ log)
  completed :
      {r : Text} {log : List (Text × Fields)} (fs : Fields)
      → Trail world first r log
      → checked world (object fs) ≡ accept fs
      → next_role world.parse_int r fs ≡ ok (terminal pr_ready)
      → Trail world first orchestrator ((r, fs) ∷ log)

-- What a run that returned has done: the turns before its last round, and that round.
pub record Ended (world : World) (first : Text) (o : Outcome) (run1 : Run) : Type 0 where
  pub log : List (Text × Fields)
  pub last_role : Text
  pub trail : Trail world first last_role log
  pub result : Finished world last_role o log run1

-- What the outer loop comes to, after so many calls at most.
abbrev pub Looped : World → Text → ℕ → Result Crash Outcome × Run → Type 0
Looped world first n (ok o, run1) = (length run1.calls ≤ n) × Ended world first o run1
Looped world first n (err c, run1) = length run1.calls ≤ n

Continued-Trail :
    (world : World) (first : Text) (vars vars1 : Vars) (log : List (Text × Fields)) (run1 : Run)
    → Trail world first vars.role log
    → Continued world vars vars1 log run1
    → Trail world first vars1.role run1.accepted
Continued-Trail world first vars vars1 log run1 trail c = rw (c.turn.logged) (elim c.next [
  | inl answer ↦ handed c.turn.handoff trail c.turn.is_accepted answer
  | inr (ready, again) ↦ rw again (completed c.turn.handoff trail c.turn.is_accepted ready)
])

pub Looped-more :
    (world : World) (first : Text) {m n : ℕ} (x : Result Crash Outcome × Run)
    → m ≤ n
    → Looped world first m x
    → Looped world first n x
Looped-more world first (ok o, run1) more (calls, e) = (omega (arith, calls), e)
Looped-more world first (err c, run1) more calls = omega (arith, calls)

-- The outer loop, from a role to which a trail leads.
pub loop-Looped :
    (world : World) (cfg : Config) (first : Text) (left : ℕ) (vars : Vars) (run : Run)
    → Trail world first vars.role run.accepted
    → Looped world first
        (length run.calls + left * suc (to_ℕ cfg.max_role_retries))
        (loop world cfg left vars run)
unfolding loop exit_code_for save
loop-Looped world cfg first zero vars run trail = (
  omega arith,
  record {
    log = run.accepted;
    last_role = vars.role;
    trail = trail;
    result = record {
      at = refl;
      saved = status-save world (set_status stopped_limit) run;
      code = refl;
      success = λ e. cc e;
    };
  },
)
loop-Looped world cfg first (suc left) vars run trail =
    after_round (round world cfg vars run) (round-Rounded world cfg vars run)
      (λ vars1 run1 trail1. loop-Looped world cfg first left vars1 run1 trail1)
  where
    per_turn : ℕ
    per_turn = suc (to_ℕ cfg.max_role_retries)

    after_round :
        (x : Round × Run)
        → Rounded world vars run.accepted (length run.calls + per_turn) x
        → ((vars1 : Vars) (run1 : Run)
            → Trail world first vars1.role run1.accepted
            → Looped world first
                (length run1.calls + left * per_turn)
                (loop world cfg left vars1 run1))
        → Looped world first (length run.calls + suc left * per_turn) (
            let (r, run1) = x in
            elim r as (λ _. Result Crash Outcome × Run) [
              | continue vars1 ↦ loop world cfg left vars1 run1
              | finish o ↦ (ok o, run1)
              | crash c ↦ (err c, run1)
            ])
    after_round (continue vars1, run1) (calls, c) later =
        Looped-more world first (loop world cfg left vars1 run1) (grind (arith, calls))
          (later vars1 run1 (Continued-Trail world first vars vars1 run.accepted run1 trail c))
    after_round (finish o, run1) (calls, f) later = (
      grind (arith, calls),
      record { log = run.accepted; last_role = vars.role; trail = trail; result = f },
    )
    after_round (crash c, run1) calls later = grind (arith, calls)
