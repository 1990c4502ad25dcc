-- ===== src/Parallel/Tests.antt =====
-- A run of two streams with worktrees, whose loops end in PR_READY.
use agentic_loop_template.Base.{
  ◌≡◌, ◌≢◌, ◌⊎◌, refl, inl, inr, true, false, List, [], ◌∷◌, ◌++◌, none, some, Result, ok, err,
  if◌then◌else◌, In, ◌↔◌,
}
use agentic_loop_template.Base.Int.{pos}
use agentic_loop_template.Base.Text.{Text, text, is_empty, text_eq_iff}
use agentic_loop_template.Json.{boolean, string, object, Fields, end, field}
use agentic_loop_template.State.{saved_as, default_state}
use agentic_loop_template.Lease.Liveness.{System, signalled}
use agentic_loop_template.Parallel.Released.{IsOwn, run_parallel-releases}
use agentic_loop_template.Lease.Registry.{missing}
use agentic_loop_template.Lease.Reach.{start as no_calls}
use agentic_loop_template.Streams.Plans.{StreamPlan, pending, contains as names_contain}
use agentic_loop_template.StreamGit.{Git, Command, git_checkout}
use agentic_loop_template.Supervisor.Turn.{
  World, Config, Run, ready, returned as left_handoff, no_gh,
}
use agentic_loop_template.Parallel.Hub.{Hub, HubWorld, Options, Escape, push_failed}
use agentic_loop_template.Parallel.Run.{HubOutcome}
use agentic_loop_template.Parallel.Decision.{IsCompletion, run_streams-Passed}
use agentic_loop_template.Parallel.Success.{Integrated}
use agentic_loop_template.Parallel.Joined.{Passed}
use agentic_loop_template.Parallel.Phases.{go}
use agentic_loop_template.StreamGit.Protected.{names_protected}
use agentic_loop_template.Parallel.Promises.{
  changed_files, run_parallel-Integrated, run_parallel-disjoint,
}
use agentic_loop_template.Streams.Plans.Disjoint.{AllTidy, AllTidy-one}
use agentic_loop_template.Parallel.Keeps.Whole.{run_parallel-protected}
use agentic_loop_template.Base.Text.{
  text_eq, starts_with, ends_with_char, lstrip_by, rstrip_by, is_space, strip, upper,
}
use agentic_loop_template.Json.{
  get_or, get, truthy, upper_of, equals_text, is_null, is_dict, contains, text_set,
}
use agentic_loop_template.Handoff.{when, is_verified, done_extras, validate_handoff}
use agentic_loop_template.State.{read_state, load_state}
use agentic_loop_template.Supervisor.Roles.{value, next_role, exit_code_for}
use agentic_loop_template.Supervisor.Turn.{
  or_text, resolve_adapter_for_role, adapter_for, checked, call_adapter, attempt, role_turn,
}
use agentic_loop_template.Supervisor.Loop.{
  save, end_with, maybe_create_pr, complete, store_handoff, intersects, follow_next, after_turn,
  round, loop,
}
use agentic_loop_template.Supervisor.Start.{
  should_start_new_cycle, max_turns, start, resume, opened_start, checked_start, run_loop,
}
use agentic_loop_template.Streams.Paths.{
  to_slashes, norm_owned, drop_dot_slashes, norm_rel, token_owns, owned_by_any, path_is_owned,
  token_covers, owned_covers,
}
use agentic_loop_template.Streams.Gate.{
  is_skipped, files_outside_owned, split_lines, nonblank, list_changed_files,
  check_owned_paths_gate,
}
use agentic_loop_template.Streams.Plans.{
  covers_either, check_token, check_tokens, check_against, check_pairs, all_distinct, plan_names,
  validate_stream_plans,
}
use agentic_loop_template.Lease.Liveness.{
  Entry, lease_pid, pid_dead, proc_starttime, lease_pid_dead,
}
use agentic_loop_template.Lease.Registry.{
  load_strict, load_lenient, find, put, norm_name, norm_each, norm_paths, overlap_with, or_later,
  overlap_pair, owned_of, is_object, is_live, raise_overlap, check_live, stays,
  drop_dead_overlapping, new_record,
}
use agentic_loop_template.Lease.Requests.{live_record, take_slot, claim, saved, serve}
use agentic_loop_template.StreamGit.Branches.{
  is_protected_name, is_protected, is_safe_char, replace_unsafe, squeeze_dashes, strip_dashes,
  sanitize_branch,
}
use agentic_loop_template.StreamGit.{
  run_git, run_git_timed, abbrev_head, merge_args, after_merge, merge_here, merge_stream_branch,
  push_branch,
}
use agentic_loop_template.StreamGit.Worktree.{
  recover_hub, place_worktree, worktree_after, ensure_integration_worktree,
}
use agentic_loop_template.Parallel.Hub.{
  serve_all, lease_call, renew_all, release_all, tick, assign, put_result, amend_result,
}
use agentic_loop_template.Parallel.Stream.{
  text_or_empty, new_result, is_pr_ready, config_of, violations_of, gated, after_loop,
  run_one_stream, or_blocked, worker, is_blocked,
}
use agentic_loop_template.Parallel.Phases.{
  ◌>>>◌, each, claimed_as, claim_one, provision, has_worktree, fan_out, ticked, record_result,
  join_future, blocked_reasons, all_joined, run_mode, run_streams, pushed_as, push_one,
  integrated_as, integrate, merged_as, merge_one, integration_pushed_as, push_integration,
  if_pushing,
}
use agentic_loop_template.Parallel.Run.{
  done_handoff, final_terminal, outcome_of, saved_done, finish, integration, stream_phase, phases,
  blocked_outcome, returned, released_after, fresh, run_valid, run_parallel,
}

-- A stream whose state waits for the Reviewer, and whose adapter leaves a DONE handoff.
abbrev done_fields : Fields
done_fields = field (text "status") (string (text "DONE")) (
    field (text "handoff_to") (string (text "None")) (
      field (text "sync_waived") (string (text "offline")) (
        field (text "distillation_performed") (boolean true)
          (field (text "metrics") (object end) end))))

abbrev loop_world : World
loop_world = record {
  schema = λ v. [];
  parse_int = λ s. none;
  too_large = λ st. false;
  now = λ n. text "12:00";
  stop_file = λ n. false;
  assert_ready = λ name. none;
  open_adapter = λ n name. ready;
  run_role_turn = λ n r handoff note. left_handoff (object done_fields);
  gh = λ n. no_gh;
  stack_check = none;
  reason_text = λ why. text "reason";
  format = λ v. text "value";
}

abbrev loop_config : Config
loop_config = record {
  cli_adapter = none;
  adapters_by_role = [];
  adapter = none;
  max_cycles = pos 5;
  max_role_retries = pos 0;
  max_turns_floor = pos 1;
  max_turns_factor = pos 1;
  block_process_tags = [];
  create_pr = true;
}

abbrev loop_files : Run
loop_files = record {
  store = record {
    file = saved_as (record default_state { active_role = text "Reviewer" });
    history = [];
  };
  last_handoff = none;
  opened = [];
  metrics = [];
  calls = [];
  accepted = [];
}

-- git does what it is told, and the integration worktree is there.
abbrev git : Git
git = record {
  run = λ n c. record {
    failed = false;
    stdout = if is_empty c.cwd then [] else text "integration";
    stderr = [];
  };
  run_timed = λ n c. some (record { failed = false; stdout = []; stderr = [] });
  path_kind = λ n path. git_checkout;
  lower = λ s. s;
  join = λ a b. a ++ text "/" ++ b;
  resolve = λ s. s;
}

abbrev machine : System
machine = record {
  getpid = pos 10;
  kill = λ pid. signalled;
  proc_stat = λ pid. none;
  is_nt = false;
  iso_now = text "now";
  iso_after = λ ttl. text "later";
}

abbrev world : HubWorld
world = record {
  system = λ n. machine;
  others = λ n. [];
  git = git;
  stream_world = λ name. loop_world;
  stream_config = λ name. loop_config;
  stream_run = λ name. loop_files;
  stream_git = λ name args. record {
    failed = false;
    stdout = if text_eq name (text "a") then text "mem/x.py" else text "docs/x.md";
  };
  completed = λ plans. plans;
  gh = no_gh;
  schema = λ v. [];
  summary = λ branch names. text "parallel integration";
}

abbrev opts : Options
opts = record {
  concurrent = true;
  push = true;
  require_owned_paths = true;
  create_pr = true;
  skip_provision = true;
  lease_ttl_s = pos 60;
  adapter_name = text "mock";
  max_cycles_per_stream = pos 1;
  base_ref = text "main";
  integration_branch = text "integration";
  hub = [];
  wt_base = text "wt";
  cycle_id = text "c1";
}

abbrev plan_at : Text → Text → StreamPlan
plan_at name path = record {
  name = name;
  owned_paths = path ∷ [];
  worktree = some (text "wt/" ++ name);
  branch = some (text "feature/" ++ name);
  status = pending;
  merge_gate = text "after-tests-green";
}

abbrev plan_a : StreamPlan
plan_a = plan_at (text "a") (text "mem/")

abbrev plan_b : StreamPlan
plan_b = plan_at (text "b") (text "docs/")

abbrev plans : List StreamPlan
plans = plan_a ∷ plan_b ∷ []

abbrev hub : Hub
hub = record {
  registry = missing;
  lease_calls = 0;
  log = [];
  payloads = [];
  last_handoff = none;
  results = [];
  claimed = [];
  integration_workdir = none;
}

abbrev answer : Result Escape HubOutcome
answer = (run_parallel world opts plans hub).0

abbrev outcome_in : Result Escape HubOutcome → HubOutcome
outcome_in (ok o) = o
outcome_in (err e) = blocked_outcome opts (push_failed [] []) hub

-- The command that the run ends with.
abbrev last_push : Command
last_push = record {
  cwd = text "wt/integration";
  args = text "push" ∷ text "-u" ∷ text "origin" ∷ text "integration" ∷ [];
}

run_succeeds :
    (answer ≡ ok (outcome_in answer))
    × ((outcome_in answer).exit_code ≡ pos 0)
    × In last_push (run_parallel world opts plans hub).1.log
    × (norm_name (text "a") ≡ ok (text "a"))
unfolding text_eq starts_with ends_with_char lstrip_by rstrip_by is_space strip upper get_or get
    truthy upper_of equals_text is_null is_dict contains text_set when is_verified done_extras
    validate_handoff read_state load_state value next_role exit_code_for or_text
    resolve_adapter_for_role adapter_for checked call_adapter attempt role_turn save end_with
    maybe_create_pr complete store_handoff intersects follow_next after_turn round loop
    should_start_new_cycle max_turns start resume opened_start checked_start run_loop to_slashes
    norm_owned drop_dot_slashes norm_rel token_owns owned_by_any path_is_owned token_covers
    owned_covers is_skipped files_outside_owned split_lines nonblank list_changed_files
    check_owned_paths_gate covers_either check_token check_tokens check_against check_pairs
    all_distinct plan_names validate_stream_plans pid_dead proc_starttime lease_pid_dead load_strict
    find put norm_name norm_each norm_paths overlap_with or_later overlap_pair owned_of is_object
    is_live raise_overlap check_live stays drop_dead_overlapping new_record live_record take_slot
    claim saved serve is_protected_name is_protected is_safe_char replace_unsafe squeeze_dashes
    strip_dashes sanitize_branch run_git run_git_timed abbrev_head merge_args after_merge merge_here
    merge_stream_branch push_branch recover_hub place_worktree worktree_after
    ensure_integration_worktree serve_all lease_call renew_all release_all tick assign put_result
    amend_result text_or_empty new_result is_pr_ready config_of violations_of gated after_loop
    run_one_stream or_blocked worker is_blocked ◌>>>◌ each claimed_as claim_one provision
    has_worktree fan_out ticked record_result join_future blocked_reasons all_joined run_mode
    run_streams pushed_as push_one integrated_as integrate merged_as merge_one integration_pushed_as
    push_integration if_pushing done_handoff final_terminal outcome_of saved_done finish integration
    stream_phase phases returned released_after fresh run_valid run_parallel names_contain
run_succeeds = (refl, refl, inl refl, refl)

all_complete : (ps : List StreamPlan) → IsCompletion world ps
all_complete ps = λ p. (λ m. m, λ m. m)

run_parallel-Integrated_example : Integrated world opts plans (run_parallel world opts plans hub).1
run_parallel-Integrated_example =
    run_parallel-Integrated world opts plans hub (outcome_in answer) all_complete run_succeeds.0
      run_succeeds.1

a_is_not_b : text "a" ≢ text "b"
unfolding text_eq
a_is_not_b e =
    let same : text_eq (text "a") (text "b") ≡ true = (text_eq_iff (text "a") (text "b")).1 e in
    cc same

mem_tidy : AllTidy (text "mem/" ∷ [])
unfolding norm_owned to_slashes strip is_space rstrip_by lstrip_by
mem_tidy = AllTidy-one (text "mem/") refl (inr refl)

docs_tidy : AllTidy (text "docs/" ∷ [])
unfolding norm_owned to_slashes strip is_space rstrip_by lstrip_by
docs_tidy = AllTidy-one (text "docs/") refl (inr refl)

files_changed :
    In (text "mem/x.py") (changed_files world opts plan_a)
    × In (text "docs/x.md") (changed_files world opts plan_b)
    × (is_skipped (norm_rel (text "mem/x.py")) ≡ false)
unfolding list_changed_files split_lines nonblank strip is_space rstrip_by lstrip_by text_eq
    is_skipped norm_rel drop_dot_slashes to_slashes
files_changed = (inl refl, inl refl, refl)

run_parallel-disjoint_example : norm_rel (text "mem/x.py") ≢ norm_rel (text "docs/x.md")
run_parallel-disjoint_example =
    run_parallel-disjoint world opts plans hub (outcome_in answer) plan_a plan_b (text "mem/x.py")
      (text "docs/x.md") all_complete run_succeeds.0 run_succeeds.1 refl (inl refl) (inr (inl refl))
      a_is_not_b mem_tidy docs_tidy files_changed.0 files_changed.1 files_changed.2

world-IsOwn : IsOwn world (pos 10)
world-IsOwn = record { own = λ i. refl; others = λ i sys req k. absurd k }

run_parallel-releases_example :
    (find (text "a") (load_lenient (run_parallel world opts plans hub).1.registry) ≡ none)
    ⊎ ((e : Entry) × (find (text "a") (load_lenient (run_parallel world opts plans hub).1.registry)
          ≡ some e)
        × (lease_pid e ≢ some (pos 10)))
run_parallel-releases_example =
    run_parallel-releases world (pos 10) world-IsOwn opts plans hub (text "a") (text "a") no_calls
      (inr (outcome_in answer, plan_a, run_succeeds.0, run_succeeds.1, inl refl, refl))
      run_succeeds.3

names_distinct : all_distinct (plan_names plans) ≡ true
unfolding all_distinct plan_names names_contain text_eq
names_distinct = refl

run_streams-Passed_example :
    ((run_streams world opts plans hub).0 ≡ go tt)
    ↔ ((p : StreamPlan) → In p plans → Passed world opts p)
unfolding blocked_reasons
run_streams-Passed_example =
    run_streams-Passed world opts plans hub (all_complete plans) names_distinct refl

run_parallel-protected_example : names_protected last_push.args ≡ false
run_parallel-protected_example =
    run_parallel-protected world opts plans hub no_calls last_push run_succeeds.2
