-- ===== src/Supervisor/Loop/Rounds.antt =====
-- memory/supervisor.py: what a round of `run_loop` comes to.
use agentic_loop_template.Base.{
  ℕ, suc, ◌+◌, ◌≤◌, ◌≡◌, refl, ap, inl, inr, List, ◌∷◌, none, length, arith, Bool-cases, Result, ok,
  err, Result-cases,
}
use agentic_loop_template.Base.Int.{pos, leb_ℤ, to_ℕ}
use agentic_loop_template.Base.Text.{Text, text}
use agentic_loop_template.Json.{object, Fields, Crash, get, text_set}
use agentic_loop_template.Supervisor.Roles.{
  Terminal, pr_ready, pr_ready_local, blocked, stopped_limit, stopped, Next, role, terminal,
  next_role, exit_code_for,
}
use agentic_loop_template.Supervisor.Roles.Edges.{next_role-terminal}
use agentic_loop_template.Supervisor.Turn.{
  no_note, Reason, no_reason, policy_tags, World, Config, Run, Attempt, accept, retry, give_up,
  escape, checked, role_turn,
}
use agentic_loop_template.Supervisor.Turn.Keeps.{Tried, role_turn-Tried}
use agentic_loop_template.Supervisor.Loop.{
  Vars, Round, crash, save, set_status, set_blocked, set_ended, block, end_with, complete,
  store_handoff, intersects, log_delta, log_metrics, follow_next, after_turn, round,
}
use agentic_loop_template.Supervisor.Loop.Shapes.{status-save, Succeeded, Finished, Rounded}

blocked_code : {P : Type 0} → exit_code_for blocked ≡ pos 0 → P
unfolding exit_code_for
blocked_code e = cc e

module _ (world : World) (cfg : Config) (vars : Vars) (log : List (Text × Fields)) (n : ℕ) where
  block-Rounded :
      (why : Reason) (run : Run)
      → length run.calls ≤ n
      → Rounded world vars log n (block world vars.role why run)
  unfolding block exit_code_for save
  block-Rounded why run calls = (
    calls,
    record {
      at = refl;
      saved = status-save world (set_blocked (world.reason_text why)) run;
      code = refl;
      success = λ zero_code. cc zero_code;
    },
  )

  end_with-Rounded :
      (t : Terminal) (turns : ℕ) (run : Run)
      → length run.calls ≤ n
      → (exit_code_for t ≡ pos 0 → Succeeded world vars.role log run)
      → Rounded world vars log n (end_with world t vars.role turns run)
  unfolding end_with save
  end_with-Rounded t turns run calls won = (
    calls,
    record {
      at = refl;
      saved = status-save world (set_ended t vars.role) run;
      code = refl;
      success = λ zero_code.
          (let w = won zero_code in
            record {
              turn = record {
                handoff = w.turn.handoff;
                is_accepted = w.turn.is_accepted;
                logged = w.turn.logged;
              };
              ready = w.ready;
            });
    },
  )

  -- A Logged turn is one of any run with the same log.
  module _ (fs : Fields) (is_accepted : checked world (object fs) ≡ accept fs) where
    won_turn :
        (run : Run)
        → run.accepted ≡ (vars.role, fs) ∷ log
        → next_role world.parse_int vars.role fs ≡ ok (terminal pr_ready)
        → Succeeded world vars.role log run
    won_turn run logged ready = record {
      turn = record { handoff = fs; is_accepted = is_accepted; logged = logged };
      ready = ready;
    }

    complete-Rounded :
        (count : ℕ) (run : Run)
        → length run.calls ≤ n
        → run.accepted ≡ (vars.role, fs) ∷ log
        → next_role world.parse_int vars.role fs ≡ ok (terminal pr_ready)
        → Rounded world vars log n (complete world cfg vars.role (suc vars.turns) count run)
    unfolding complete save
    complete-Rounded count run calls logged ready =
        elim (Bool-cases (leb_ℤ cfg.max_cycles (pos count))) [
          | inl last_one ↦
              rw last_one
                (end_with-Rounded _ (suc vars.turns) run calls λ _. won_turn run logged ready)
          | inr more ↦ rw more (
            calls,
            record {
              turn = record { handoff = fs; is_accepted = is_accepted; logged = logged };
              turns = refl;
              next = inr (ready, refl);
            },
          )
        ]

    follow_next-Rounded :
        (next : Next) (run : Run)
        → length run.calls ≤ n
        → run.accepted ≡ (vars.role, fs) ∷ log
        → next_role world.parse_int vars.role fs ≡ ok next
        → Rounded world vars log n (follow_next world cfg vars fs next run)
    unfolding follow_next save
    follow_next-Rounded (role r) run calls logged answer = (
      calls,
      record {
        turn = record { handoff = fs; is_accepted = is_accepted; logged = logged };
        turns = refl;
        next = inl answer;
      },
    )
    follow_next-Rounded (terminal pr_ready) run calls logged answer =
        complete-Rounded (suc vars.pr_ready_count) run calls logged answer
    follow_next-Rounded (terminal pr_ready_local) run calls logged answer =
        elim (next_role-terminal _ _ _ _ answer) [ inl e ↦ cc e | inr e ↦ cc e ]
    follow_next-Rounded (terminal stopped_limit) run calls logged answer =
        elim (next_role-terminal _ _ _ _ answer) [ inl e ↦ cc e | inr e ↦ cc e ]
    follow_next-Rounded (terminal stopped) run calls logged answer =
        elim (next_role-terminal _ _ _ _ answer) [ inl e ↦ cc e | inr e ↦ cc e ]
    follow_next-Rounded (terminal blocked) run calls logged answer =
        end_with-Rounded blocked (suc vars.turns) run calls blocked_code

    answered-Rounded :
        (answer : Result Crash Next) (run : Run)
        → next_role world.parse_int vars.role fs ≡ answer
        → length run.calls ≤ n
        → run.accepted ≡ (vars.role, fs) ∷ log
        → Rounded world vars log n (elim answer as (λ _. Round × Run) [
          | err c ↦ (crash c, run)
          | ok next ↦ follow_next world cfg vars fs next run
        ])
    answered-Rounded (err c) run e calls logged = calls
    answered-Rounded (ok next) run e calls logged = follow_next-Rounded next run calls logged e

    after_turn-Rounded :
        (run : Run)
        → length run.calls ≤ n
        → run.accepted ≡ log
        → Rounded world vars log n (after_turn world cfg vars fs run)
    unfolding after_turn store_handoff log_delta log_metrics
    after_turn-Rounded run calls same =
        elim (Result-cases (text_set (get (text "process_tags") fs))) [
          | inl (c, e) ↦ rw (e, after_turn, store_handoff) calls
          | inr (tags, e) ↦
              rw (e, after_turn)
                (elim (Bool-cases (intersects cfg.block_process_tags tags)) [
                  | inl hit ↦
                      rw hit
                        (block-Rounded (policy_tags tags) (store_handoff vars.role fs run) calls)
                  | inr free ↦ rw free (
                      answered-Rounded (next_role world.parse_int vars.role fs)
                        (log_metrics cfg vars.role fs
                          (log_delta world vars.role fs (store_handoff vars.role fs run)))
                        refl calls (ap (λ l. (vars.role, fs) ∷ l) same))
                ])
        ]

-- A round makes at most so many adapter calls as there are retries, and one more; it continues only after an accepted
-- handoff that leads to the next role or to a new cycle; when it ends, it has saved the terminal.
pub round-Rounded :
    (world : World) (cfg : Config) (vars : Vars) (run : Run)
    → Rounded world vars run.accepted
        (length run.calls + suc (to_ℕ cfg.max_role_retries))
        (round world cfg vars run)
unfolding round exit_code_for save
round-Rounded world cfg vars run = elim (Bool-cases (world.stop_file vars.turns)) [
  | inl halt ↦ rw (halt, round) (omega arith, stopped_Finished)
  | inr go_on ↦
      rw (go_on, round)
        (after_role_turn
          (role_turn world cfg vars.role (to_ℕ cfg.max_role_retries) vars.handoff no_note run)
          (role_turn-Tried world cfg vars.role (to_ℕ cfg.max_role_retries) vars.handoff no_note
            run))
]
  where
    stopped_Finished :
        Finished world vars.role
          (record {
            terminal = stopped;
            exit_code = pos 2;
            role = vars.role;
            turns = none;
            reason = no_reason;
          })
          run.accepted
          (save world (set_status stopped) run)
    stopped_Finished = record {
      at = refl;
      saved = status-save world (set_status stopped) run;
      code = refl;
      success = λ e. cc e;
    }

    n : ℕ
    n = length run.calls + suc (to_ℕ cfg.max_role_retries)

    after_role_turn :
        (t : Attempt × Run)
        → Tried world (suc (to_ℕ cfg.max_role_retries)) run t
        → Rounded world vars run.accepted n (
            let (tried, run1) = t in
            elim tried as (λ _. Round × Run) [
              | accept fs ↦ after_turn world cfg vars fs run1
              | retry h m why ↦ block world vars.role why run1
              | give_up why ↦ block world vars.role why run1
              | escape c ↦ (crash c, run1)
            ])
    after_role_turn (accept fs, run1) (k, accepts) =
        after_turn-Rounded world cfg vars run.accepted n fs (accepts fs refl) run1 k.calls
          k.accepted
    after_role_turn (retry h m why, run1) (k, accepts) =
        block-Rounded world cfg vars run.accepted n why run1 k.calls
    after_role_turn (give_up why, run1) (k, accepts) =
        block-Rounded world cfg vars run.accepted n why run1 k.calls
    after_role_turn (escape c, run1) (k, accepts) = k.calls
