-- ===== src/Lease/Liveness.antt =====
-- memory/stream_lease.py: which process holds a lease, and whether that process is dead. What the
-- operating system answers is a parameter.
use agentic_loop_template.Base.{
  ℕ, zero, suc, ◌+◌, Bool, true, false, not, ◌&&◌, List, [], ◌∷◌, Option, none, some, drop, leb,
  if◌then◌else◌,
}
use agentic_loop_template.Base.Int.{ℤ, is_positive}
use agentic_loop_template.Base.Text.{Text, is_empty, is_space, text_eq, rfind}

-- What `os.kill(pid, 0)` does for a pid that fits into a C int, beyond which it raises an OverflowError that is not in the
-- model; of the error numbers those that the code compares with.
pub data Errno : Type 0 where
  esrch einval enoent other_errno : Errno

pub data KillResult : Type 0 where
  signalled process_lookup_error permission_error : KillResult
  os_error : Errno → KillResult

-- The operating system during one call.
pub record System : Type 0 where
  pub getpid : ℤ
  pub kill : ℤ → KillResult
  -- the text of /proc/<pid>/stat, or none for an OSError
  pub proc_stat : ℤ → Option Text
  -- os.name == "nt"
  pub is_nt : Bool
  -- `_iso(_now())`, and `_iso(_now() + timedelta(seconds=ttl))`
  pub iso_now : Text
  pub iso_after : ℤ → Text

unfoldable pub pid_dead : System → ℤ → Bool
pid_dead sys pid = if not (is_positive pid) then true else elim (sys.kill pid) [
  | signalled ↦ false
  | process_lookup_error ↦ true
  | permission_error ↦ false
  | os_error e ↦ elim e [
    | esrch ↦ true
    | einval ↦ sys.is_nt
    | enoent ↦ sys.is_nt
    | other_errno ↦ false
  ]
]

-- `s.split()`: the words between runs of spaces.
push_char : ℕ → Bool → List Text → List Text
push_char c true ws = (c ∷ []) ∷ ws
push_char c false [] = (c ∷ []) ∷ []
push_char c false (w ∷ ws) = (c ∷ w) ∷ ws

starts_with_space : Text → Bool
starts_with_space [] = true
starts_with_space (c ∷ s) = is_space c

unfoldable pub words : Text → List Text
unfolding push_char starts_with_space
words [] = []
words (c ∷ s) =
    let rest = words s in if is_space c then rest else push_char c (starts_with_space s) rest

-- `token.isdigit()` on ASCII text, which is what the kernel writes
all_digits : Text → Bool
all_digits [] = true
all_digits (c ∷ s) = leb b'0' c && leb c b'9' && all_digits s

nth_word : ℕ → List Text → Option Text
nth_word i [] = none
nth_word zero (w ∷ ws) = some w
nth_word (suc i) (w ∷ ws) = nth_word i ws

-- Field 22 of /proc/<pid>/stat.
unfoldable pub starttime_of_stat : Text → Option Text
unfolding all_digits nth_word
starttime_of_stat raw = elim (rfind b')' raw) [
  | none ↦ none
  | some end ↦ elim (nth_word 19 (words (drop (end + 2) raw))) [
    | none ↦ none
    | some token ↦ if not (is_empty token) && all_digits token then some token else none
  ]
]

unfoldable pub proc_starttime : System → ℤ → Option Text
proc_starttime sys pid = elim (sys.proc_stat pid) [ none ↦ none | some raw ↦ starttime_of_stat raw ]

-- The value of the key "pid": `readable n` where `int(raw)` is n, `unreadable` where it raises a TypeError or a ValueError.
-- Not in the model: the OverflowError of `int` for Infinity, which `_lease_pid` lets out.
pub data PidField : Type 0 where
  absent null_pid blank_pid unreadable : PidField
  readable : ℤ → PidField

pub record LeaseRecord : Type 0 where
  -- none where the key is missing or null
  pub owned_paths : Option (List Text)
  pub worktree : Option Text
  pub pid : PidField
  pub claimed_at : Text
  pub expires_at : Text
  pub branch : Option Text
  -- none where the key is missing or not a string
  pub starttime : Option Text

-- A value of the object "leases".
pub data Entry : Type 0 where
  lease : LeaseRecord → Entry
  null_entry other_entry : Entry

unfoldable pub lease_pid : Entry → Option ℤ
lease_pid (lease rec) = elim rec.pid [ readable n ↦ some n | _ ↦ none ]
lease_pid null_entry = none
lease_pid other_entry = none

-- `recorded`: the start time in the record, against that of the process that has the pid now
started_elsewhere : System → ℤ → Option Text → Bool
started_elsewhere sys pid none = false
started_elsewhere sys pid (some recorded) =
    if is_empty recorded then false else elim (proc_starttime sys pid) [
      | none ↦ false
      | some current ↦ not (text_eq current recorded)
    ]

recorded_starttime : Entry → Option Text
recorded_starttime (lease rec) = rec.starttime
recorded_starttime null_entry = none
recorded_starttime other_entry = none

unfoldable pub lease_pid_dead : System → Entry → Bool
unfolding lease_pid started_elsewhere recorded_starttime
lease_pid_dead sys e = elim (lease_pid e) [
  | none ↦ true
  | some pid ↦ if pid_dead sys pid then true else started_elsewhere sys pid (recorded_starttime e)
]
