-- ===== src/Supervisor/Start/Results.antt =====
-- memory/supervisor.py: what `run_loop` promises of its result.
use agentic_loop_template.Base.{◌≡◌, ◌≢◌, ap, ◌∙◌, ◌⊎◌, inl, inr, true, List, [], ◌∷◌, ok}
use agentic_loop_template.Base.Text.{Text, text, text_eq, text_eq_iff, upper, upper_char}
use agentic_loop_template.Json.{string, object, Fields, get, upper_of}
use agentic_loop_template.Handoff.{validate_handoff}
use agentic_loop_template.Handoff.Done.{DoneEvidence, strict-DoneEvidence, validate_handoff-ok}
use agentic_loop_template.Supervisor.Roles.{role, orchestrator, tester, reviewer}
use agentic_loop_template.Supervisor.Roles.Targets.{NoneFailed}
use agentic_loop_template.Supervisor.Roles.Edges.{next_role-pr_ready, next_role-reviewer}
use agentic_loop_template.Supervisor.Turn.{World, Run, checked, accept}
use agentic_loop_template.Supervisor.Turn.Keeps.{checked-valid}
use agentic_loop_template.Supervisor.Loop.Shapes.{Succeeded}
use agentic_loop_template.Supervisor.Loop.Runs.{Trail, begin, handed, completed}

-- The schema's "enum" of status, as the jsonschema validator reports it.
abbrev pub ChecksStatus : World → Type 0
ChecksStatus world =
    (fs : Fields)
    → world.schema (object fs) ≡ []
    → (get (text "status") fs ≡ string (text "IN_PROGRESS"))
      ⊎ (get (text "status") fs ≡ string (text "BLOCKED"))
      ⊎ (get (text "status") fs ≡ string (text "DONE"))

-- What stands under the last turn of the log: nothing, for a run that began at the Reviewer, or a Tester's turn
-- without a failed test.
abbrev pub Tested : World → Text → List (Text × Fields) → Type 0
Tested world first [] = first ≡ reviewer
Tested world first ((r, fs) ∷ log) = (r ≡ tester) × NoneFailed world.parse_int fs

-- The last turn of a successful run, and the turn before it: the Reviewer's handoff is DONE, has no problem and carries the
-- evidence.
pub record Reviewed (world : World) (first : Text) (run1 : Run) : Type 0 where
  pub handoff : Fields
  pub earlier : List (Text × Fields)
  pub last_turn : run1.accepted ≡ (reviewer, handoff) ∷ earlier
  pub done : get (text "status") handoff ≡ string (text "DONE")
  pub accepted : validate_handoff world.schema (object handoff) true ≡ []
  pub evidence : DoneEvidence handoff
  pub tested : Tested world first earlier

pub orchestrator_not_reviewer : orchestrator ≢ reviewer
unfolding text_eq
orchestrator_not_reviewer e =
    let same : text_eq orchestrator reviewer ≡ true = (text_eq_iff orchestrator reviewer).1 e in
    cc same

Trail-Tested :
    (world : World) (first r : Text) (log : List (Text × Fields))
    → Trail world first r log
    → r ≡ reviewer
    → Tested world first log
Trail-Tested world first r log begin e = e
Trail-Tested world first r log (handed {r = r1} fs before a answer) e =
    next_role-reviewer world.parse_int r1 fs (answer ∙ ap (λ n. ok (role n)) e)
Trail-Tested world first r log (completed fs before a answer) e =
    absurd (orchestrator_not_reviewer e)

status_done :
    (fs : Fields)
    → (get (text "status") fs ≡ string (text "IN_PROGRESS"))
      ⊎ (get (text "status") fs ≡ string (text "BLOCKED"))
      ⊎ (get (text "status") fs ≡ string (text "DONE"))
    → upper_of (get (text "status") fs) ≡ ok (text "DONE")
    → get (text "status") fs ≡ string (text "DONE")
unfolding upper_of upper upper_char text_eq
status_done fs (inl progress) done = cc (rw progress at done)
status_done fs (inr (inl bad)) done = cc (rw bad at done)
status_done fs (inr (inr is_done)) done = is_done

-- A handoff that `checked` accepts, whose status in capitals is DONE, has that status and no problem.
checked-done :
    (world : World) (fs : Fields)
    → ChecksStatus world
    → checked world (object fs) ≡ accept fs
    → upper_of (get (text "status") fs) ≡ ok (text "DONE")
    → (get (text "status") fs ≡ string (text "DONE"))
      × (validate_handoff world.schema (object fs) true ≡ [])
unfolding text_eq
checked-done world fs enum a done =
    let valid = checked-valid world fs (text "DONE") a done in
    let (no_message, extras) = validate_handoff-ok world.schema fs true valid in
    (status_done fs (enum fs no_message) done, valid)

pub run-Succeeded :
    (world : World) (first r : Text) (log : List (Text × Fields)) (run1 : Run)
    → ChecksStatus world
    → Trail world first r log
    → Succeeded world r log run1
    → Reviewed world first run1
run-Succeeded world first r log run1 enum trail s =
    let (here, done) = (next_role-pr_ready world.parse_int r s.turn.handoff).0 s.ready in
    let (is_done, valid) = checked-done world s.turn.handoff enum s.turn.is_accepted done in
    let (no_message, extras) = validate_handoff-ok world.schema s.turn.handoff true valid in
    record {
      handoff = s.turn.handoff;
      earlier = log;
      last_turn = s.turn.logged ∙ ap (λ x. (x, s.turn.handoff) ∷ log) here;
      done = is_done;
      accepted = valid;
      evidence = strict-DoneEvidence s.turn.handoff is_done extras;
      tested = Trail-Tested world first r log trail here;
    }
