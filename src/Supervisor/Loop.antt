-- ===== src/Supervisor/Loop.antt =====
-- memory/supervisor.py: `run_loop`, which drives role turns until a terminal.
pub mod Shapes
pub mod Rounds
pub mod Runs
use agentic_loop_template.Base.{
  ℕ, zero, suc, Bool, true, false, not, ◌&&◌, ◌||◌, List, [], ◌∷◌, ◌++◌, Option, none, some, length,
  if◌then◌else◌, Result, ok, err, ◌>>=◌,
}
use agentic_loop_template.Base.Int.{ℤ, pos, negsuc, leb_ℤ, max_ℤ, ◌*ℤ◌, to_ℕ, succ_ℤ, eq_ℤ}
use agentic_loop_template.Base.Text.{Text, text, is_empty, text_eq, upper}
use agentic_loop_template.Json.{
  Json, string, Fields, Crash, proxy_error, get, get_or, upper_of, contains, text_set,
}
use agentic_loop_template.State.{
  LoopState, Store, load_state, read_state, save_state, update_state, append_delta,
}
use agentic_loop_template.Supervisor.Roles.{
  Terminal, pr_ready, pr_ready_local, blocked, stopped_limit, stopped, value, Next, role, terminal,
  orchestrator, next_role, exit_code_for,
}
use agentic_loop_template.Supervisor.Turn.{
  Opening, ready, not_ready, failed, no_note, Gh, no_gh, exited, Reason, no_reason,
  stack_check_failed, proxy_not_ready, policy_tags, World, Config, Run, or_text,
  resolve_adapter_for_role, adapter_for, Attempt, accept, retry, give_up, escape, role_turn,
}

-- The dict that `run_loop` returns.
pub record Outcome : Type 0 where
  pub terminal : Terminal
  pub exit_code : ℤ
  pub role : Text
  pub turns : Option ℕ
  pub reason : Reason

-- The variables of the outer loop.
pub record Vars : Type 0 where
  pub role : Text
  pub handoff : Option Fields
  pub turns : ℕ
  pub pr_ready_count : ℕ

-- What a round of the outer loop comes to.
pub data Round : Type 0 where
  continue : Vars → Round
  finish : Outcome → Round
  crash : Crash → Round

unfoldable pub save : World → (LoopState → LoopState) → Run → Run
save world change run = record run { store = update_state world.too_large change run.store }

-- The patches that the loop saves.
abbrev pub set_status : Terminal → LoopState → LoopState
set_status t st = record st { status = value t }

abbrev pub set_blocked : Text → LoopState → LoopState
set_blocked notes st = record st { status = value blocked; notes = notes }

abbrev pub set_ended : Terminal → Text → LoopState → LoopState
set_ended t r st = record st { status = value t; active_role = r }

abbrev pub set_role : Text → LoopState → LoopState
set_role r st = record st { active_role = r; status = text "IN_PROGRESS" }

abbrev pub next_cycle : LoopState → LoopState
next_cycle st = record st {
  active_role = orchestrator;
  status = text "IN_PROGRESS";
  cycle_number = succ_ℤ st.cycle_number;
}

-- The result of the branches that return BLOCKED with a reason.
unfoldable pub block : World → Text → Reason → Run → Round × Run
block world r why run = (
  finish (record { terminal = blocked; exit_code = pos 1; role = r; turns = none; reason = why }),
  save world (set_blocked (world.reason_text why)) run,
)

-- The other terminals, whose exit code is that of `_exit_code_for`.
unfoldable pub end_with : World → Terminal → Text → ℕ → Run → Round × Run
end_with world t r turns run = (
  finish (record {
    terminal = t;
    exit_code = exit_code_for t;
    role = r;
    turns = some turns;
    reason = no_reason;
  }),
  save world (set_ended t r) run,
)

unfoldable pub maybe_create_pr : Gh → Terminal
maybe_create_pr no_gh = pr_ready_local
maybe_create_pr (exited status) = if eq_ℤ status (pos 0) then pr_ready else pr_ready_local

-- A PR_READY turn: the run is over, or the next cycle starts at the Orchestrator.
unfoldable pub complete : World → Config → Text → ℕ → ℕ → Run → Round × Run
complete world cfg r turns count run =
    let term = if cfg.create_pr then maybe_create_pr (world.gh turns) else pr_ready in
    if leb_ℤ cfg.max_cycles (pos count) then end_with world term r turns run else (
      continue
          (record { role = orchestrator; handoff = none; turns = turns; pr_ready_count = count }),
      save world next_cycle (save world (set_ended term r) run),
    )

-- `turns += 1` and `save_handoff`
unfoldable pub store_handoff : Text → Fields → Run → Run
store_handoff r fs run = record run { last_handoff = some fs; accepted = (r, fs) ∷ run.accepted }

unfoldable pub intersects : List Text → List Text → Bool
intersects [] ts = false
intersects (s ∷ ss) ts = contains s ts || intersects ss ts

unfoldable pub log_delta : World → Text → Fields → Run → Run
log_delta world r fs run =
    let summary : Text = elim (get_or (string []) (text "summary") fs) [
      | string s ↦ s
      | v ↦ world.format v
    ] in
    record run {
      store =
          append_delta world.too_large (world.now (length run.calls)) r (r ++ text ": " ++ summary)
            run.store;
    }

-- `log_metrics`
unfoldable pub log_metrics : Config → Text → Fields → Run → Run
log_metrics cfg r fs run = record run {
  metrics = run.metrics ++ (r, get (text "status") fs, resolve_adapter_for_role cfg r) ∷ [];
}

-- What the answer of `next_role` leads to.
unfoldable pub follow_next : World → Config → Vars → Fields → Next → Run → Round × Run
follow_next world cfg vars fs (role r) run = (
  continue (record {
    role = r;
    handoff = some fs;
    turns = suc vars.turns;
    pr_ready_count = vars.pr_ready_count;
  }),
  save world (set_role r) run,
)
follow_next world cfg vars fs (terminal pr_ready) run =
    complete world cfg vars.role (suc vars.turns) (suc vars.pr_ready_count) run
follow_next world cfg vars fs (terminal t) run = end_with world t vars.role (suc vars.turns) run

-- The rest of a round once a handoff is accepted.
unfoldable pub after_turn : World → Config → Vars → Fields → Run → Round × Run
after_turn world cfg vars fs run =
    let run1 = store_handoff vars.role fs run in
    elim (text_set (get (text "process_tags") fs)) [
      | err c ↦ (crash c, run1)
      | ok tags ↦
          if intersects cfg.block_process_tags tags
          then block world vars.role (policy_tags tags) run1
          else (let run2 = log_metrics cfg vars.role fs (log_delta world vars.role fs run1) in
              elim (next_role world.parse_int vars.role fs) [
                | err c ↦ (crash c, run2)
                | ok next ↦ follow_next world cfg vars fs next run2
              ])
    ]

-- One round of the outer loop.
unfoldable pub round : World → Config → Vars → Run → Round × Run
round world cfg vars run =
    if world.stop_file vars.turns
    then (
      finish (record {
        terminal = stopped;
        exit_code = pos 2;
        role = vars.role;
        turns = none;
        reason = no_reason;
      }),
      save world (set_status stopped) run,
    )
    else (let (tried, run1) =
          role_turn world cfg vars.role (to_ℕ cfg.max_role_retries) vars.handoff no_note run in
        elim tried [
          | accept fs ↦ after_turn world cfg vars fs run1
          | retry h n why ↦ block world vars.role why run1
          | give_up why ↦ block world vars.role why run1
          | escape c ↦ (crash c, run1)
        ])

-- The outer loop, for as many more turns.
unfoldable pub loop : World → Config → ℕ → Vars → Run → Result Crash Outcome × Run
loop world cfg zero vars run = (
  ok (record {
    terminal = stopped_limit;
    exit_code = pos 2;
    role = vars.role;
    turns = some vars.turns;
    reason = no_reason;
  }),
  save world (set_status stopped_limit) run,
)
loop world cfg (suc left) vars run =
    let (r, run1) = round world cfg vars run in
    elim r [
      | continue vars1 ↦ loop world cfg left vars1 run1
      | finish o ↦ (ok o, run1)
      | crash c ↦ (err c, run1)
    ]
