-- ===== src/Lib.antt =====
-- The control core of the agent loop in memory/: streams of work that run side by side without touching
-- each other's files, the leases that keep them apart, and the supervisor that drives one stream through
-- its roles to a pull request.
--
-- The parts, and the files that model them:
--   * Streams (memory/streams.py): Streams/Paths has `_norm_owned`, `_norm_rel`, `path_is_owned` and
--     `_owned_covers`; Streams/Gate has `files_outside_owned`, `list_changed_files` and
--     `check_owned_paths_gate`; Streams/Plans has `parse_stream_specs` and `validate_stream_plans`.
--   * Lease (memory/stream_lease.py): Lease/Liveness has `_pid_dead`, `_proc_starttime` and
--     `_lease_pid_dead`; Lease/Registry the file, its loops and `_new_record`; Lease/Requests `claim`,
--     `renew`, `release` and `status`, each a step from the file it reads to the file it leaves, since
--     they hold the file lock of memory/agent_lock.py throughout. A call that raises leaves the file.
--   * Handoff (memory/validate_handoff.py): `_done_extras` and `validate_handoff`; Handoff/Fallback has the
--     checks without jsonschema. Json has the values that `json.loads` gives.
--   * State (memory/state.py): LOOP_STATE and the history that its deltas overflow into.
--   * Caps (memory/prompt_caps.py): the limits of the prompt, `resolve_prompt_caps`.
--   * Supervisor (memory/supervisor.py): Supervisor/Roles has `next_role`, Supervisor/Turn one role turn
--     with its retries, Supervisor/Loop the outer loop of `run_loop`, Supervisor/Start what comes before
--     it. `run_loop` reads and writes State, checks with Handoff, and its streams are those of Streams,
--     for which Lease holds the leases.
--   * StreamGit (memory/stream_git.py): merges, aborts and pushes, with StreamGit/Worktree; StreamGit/Branches
--     has `_sanitize_branch` and `_is_protected`. Streams/Provision has `provision_stream_worktrees`.
--   * Parallel (memory/supervisor_parallel.py): Parallel/Stream has `_run_one_stream` over the model of
--     `run_loop`, Parallel/Phases the phases of `run_parallel` and Parallel/Run their sequence; Parallel/Merges says what git did
--     in the integration worktree, Parallel/Claims which leases the run claimed. It validates with
--     Streams, claims, renews and releases through Lease, and its worktrees and merges are those of StreamGit.
--   * LocalMcp/Framing (memory/local_mcp/framing.py): the line buffer with `take_line`, `read_message`,
--     `write_frame`, `write_message` and `try_write_message`, over bytes.
--   * StreamStop (memory/stream_stop.py): `fanout_stop` and `clear_fanout`, with the roots that are allowed.
--   * PerformanceLedger (memory/performance_ledger.py): `append_cycle` with its window, and `get_recent`.
--   * Base has text as lists of code points, exceptions as values (Base/Outcome), signed integers and
--     the list lemmas; Errors has the messages of the `ValueError`s.
--
-- Loops over lists are recursion on the list. The retry loop of a turn recurs on the retries that are
-- left and the outer loop on the turns that are left, which are the bounds that the code itself tests, so
-- no fuel is added; only `read_message`, which skips blank lines, has a unit of fuel for each line, and
-- LocalMcp/Framing/Reads has the bound that is enough. The world outside is a parameter: git (GitResult), the operating system (System), and
-- for the supervisor the adapters, the proxy's readiness, the STOP file, `gh`, the clock, `int` of a
-- string and the jsonschema validator (World); for the
-- parallel run the world of each stream's loop, the lease calls of other processes between its own, and the
-- order in which the futures complete (HubWorld). Numbers read from JSON are signed integers without bound,
-- as Python's are. `Path.suffix` and `Path.name` follow PurePosixPath.
--
-- Not modelled: the OverflowError of `int` or `os.kill` for a pid that is Infinity or beyond a C int, the
-- TypeError that `validate_handoff` can raise without jsonschema where the supervisor calls it, a path with a
-- NUL in the files of the hub, the size of the state in bytes but for the trimming, prompt assembly, the heartbeat thread, reading the configuration files, the Markdown
-- projection and `compact` of the state, how git processes are started and killed, an OSError when a
-- directory or a state file is written, the defaults of
-- `run_parallel` from its configuration, and the command lines. The logs
-- `calls` and `accepted` of a run stand beside the files that the code writes; they record what it did,
-- and the world's answers are numbered by the calls before them.
pub mod Base
pub mod Errors
pub mod Json
pub mod Handoff
pub mod State
pub mod Caps
pub mod StreamGit
pub mod Parallel
pub mod LocalMcp
pub mod StreamStop
pub mod PerformanceLedger
pub mod Streams
pub mod Lease
pub mod Supervisor
