-- ===== src/Errors.antt =====
-- The `ValueError`s of memory/streams.py and memory/stream_lease.py, by their messages.
use agentic_loop_template.Base.Int.{ℤ}
use agentic_loop_template.Base.{Option}
use agentic_loop_template.Base.Text.{Text}

pub data ValueError : Type 0 where
  -- "empty owned path"
  empty_owned_path : ValueError
  -- parse_stream_specs
  needs_name_and_paths : Text → ValueError
  empty_name_in_spec : Text → ValueError
  has_no_owned_paths : Text → ValueError
  no_streams_specified : ValueError
  -- validate_stream_plans
  need_one_stream : ValueError
  duplicate_stream_names : ValueError
  -- "overlap between streams a and b: oa vs ob"
  overlap : Text → Text → Text → Text → ValueError
  -- stream_lease
  empty_stream_name : ValueError
  no_owned_paths : ValueError
  unreadable_registry : ValueError
  held_by_live_pid : Text → Option ℤ → ValueError
  no_lease : Text → ValueError
  no_live_lease : Text → ValueError
