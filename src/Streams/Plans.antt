-- ===== src/Streams/Plans.antt =====
-- memory/streams.py: stream plans, their command-line form, and the check that they are disjoint.
pub mod Disjoint
pub mod Specs
use agentic_loop_template.Base.{
  Bool, true, false, not, ◌&&◌, ◌||◌, List, [], ◌∷◌, map, Option, none, some, if◌then◌else◌, Result,
  ok, err, ◌>>=◌, ◌>>◌, raise_if,
}
use agentic_loop_template.Base.Text.{Text, text, is_empty, text_eq, strip, split_on, partition_at}
use agentic_loop_template.Errors.{
  ValueError, needs_name_and_paths, empty_name_in_spec, has_no_owned_paths, no_streams_specified,
  need_one_stream, duplicate_stream_names, overlap,
}
use agentic_loop_template.Streams.Paths.{norm_owned, owned_covers}

pub data StreamStatus : Type 0 where
  pending running stream_ready blocked merged : StreamStatus

pub record StreamPlan : Type 0 where
  pub name : Text
  pub owned_paths : List Text
  pub worktree : Option Text
  pub branch : Option Text
  pub status : StreamStatus
  pub merge_gate : Text

-- `StreamPlan(name=name, owned_paths=paths)`
abbrev pub new_plan : Text → List Text → StreamPlan
new_plan n paths = record {
  name = n;
  owned_paths = paths;
  worktree = none;
  branch = none;
  status = pending;
  merge_gate = text "after-tests-green";
}

-- `[_norm_owned(p) for p in paths_s.split(",") if p.strip()]`
unfoldable pub norm_listed : List Text → Result ValueError (List Text)
norm_listed [] = ok []
norm_listed (p ∷ ps) =
    let rest = norm_listed ps in
    if is_empty (strip p) then rest else norm_owned p >>= λ q. rest >>= λ qs. ok (q ∷ qs)

-- One spec, stripped and not empty.
unfoldable pub parse_spec : Text → Result ValueError StreamPlan
parse_spec raw = elim (partition_at b':' raw) [
  | none ↦ err (needs_name_and_paths raw)
  | some (before, paths_s) ↦
      (let name = strip before in
        do
          raise_if (is_empty name) (empty_name_in_spec raw)
          paths ← norm_listed (split_on b',' paths_s)
          raise_if (is_empty paths) (has_no_owned_paths name)
          ok (new_plan name paths))
]

unfoldable pub parse_each : List Text → Result ValueError (List StreamPlan)
parse_each [] = ok []
parse_each (raw ∷ specs) =
    let rest = parse_each specs in
    if is_empty (strip raw)
    then rest
    else parse_spec (strip raw) >>= λ p. rest >>= λ ps. ok (p ∷ ps)

unfoldable pub parse_stream_specs : List Text → Result ValueError (List StreamPlan)
parse_stream_specs specs = do
  plans ← parse_each specs
  raise_if (is_empty plans) no_streams_specified
  ok plans

-- `owned_covers(oa, ob) or owned_covers(ob, oa)`
unfoldable pub covers_either : Text → Text → Result ValueError Bool
covers_either oa ob = owned_covers oa ob >>= λ c. if c then ok true else owned_covers ob oa

module _ (pa pb : Text) where
  unfoldable pub check_token : Text → List Text → Result ValueError (Unit {0})
  check_token oa [] = ok tt
  check_token oa (ob ∷ obs) =
      let rest = check_token oa obs in
      covers_either oa ob >>= λ c. if c then err (overlap pa pb oa ob) else rest

  unfoldable pub check_tokens : List Text → List Text → Result ValueError (Unit {0})
  check_tokens [] obs = ok tt
  check_tokens (oa ∷ oas) obs = check_token oa obs >> check_tokens oas obs

unfoldable pub check_against : StreamPlan → List StreamPlan → Result ValueError (Unit {0})
check_against pa [] = ok tt
check_against pa (pb ∷ plans) =
    check_tokens pa.name pb.name pa.owned_paths pb.owned_paths >> check_against pa plans

unfoldable pub check_pairs : List StreamPlan → Result ValueError (Unit {0})
check_pairs [] = ok tt
check_pairs (pa ∷ plans) = check_against pa plans >> check_pairs plans

unfoldable pub contains : Text → List Text → Bool
contains n [] = false
contains n (m ∷ ms) = text_eq n m || contains n ms

-- `len(names) == len(set(names))`
unfoldable pub all_distinct : List Text → Bool
all_distinct [] = true
all_distinct (n ∷ ns) = not (contains n ns) && all_distinct ns

unfoldable pub plan_names : List StreamPlan → List Text
plan_names [] = []
plan_names (p ∷ ps) = p.name ∷ plan_names ps

unfoldable pub validate_stream_plans : List StreamPlan → Result ValueError (Unit {0})
validate_stream_plans plans = do
  raise_if (is_empty plans) need_one_stream
  raise_if (not (all_distinct (plan_names plans))) duplicate_stream_names
  check_pairs plans
