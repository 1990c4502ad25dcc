-- ===== src/Streams/Tests.antt =====
-- Plans, gates and tokens on concrete paths.
use agentic_loop_template.Base.{
  ◌≡◌, ◌≢◌, ◌↔◌, refl, inl, inr, true, false, List, [], ◌∷◌, All, ok, In,
}
use agentic_loop_template.Base.Text.{
  Text, text, text_eq, text_eq_iff, is_empty, is_space, strip, rstrip_by, lstrip_by, starts_with,
  ends_with_char, split_on, rfind, partition_at,
}
use agentic_loop_template.Streams.Paths.{
  norm_owned, norm_rel, to_slashes, drop_dot_slashes, last_component, path_suffix, path_is_owned,
  owned_by_any, token_owns, token_covers, owned_covers,
}
use agentic_loop_template.Streams.Paths.Reach.{Reaches, token_owns_iff}
use agentic_loop_template.Streams.Paths.Cover.{IsTidy, Within, token_covers_iff}
use agentic_loop_template.Streams.Gate.{is_skipped, files_outside_owned}
use agentic_loop_template.Streams.Gate.Owned.{Violates, files_outside_exact}
use agentic_loop_template.Streams.Plans.{
  StreamPlan, new_plan, norm_listed, parse_spec, parse_each, parse_stream_specs, covers_either,
  check_token, check_tokens, check_against, check_pairs, contains, all_distinct, plan_names,
  validate_stream_plans,
}
use agentic_loop_template.Streams.Plans.Disjoint.{AllTidy, AllTidy-one, validate-disjoint}
use agentic_loop_template.Streams.Plans.Specs.{
  IsWellFormed, parse_stream_specs-IsWellFormed, gate-total,
}
use agentic_loop_template.Streams.Separation.{gates-disjoint, owned_covers-owns}

abbrev plan_a : StreamPlan
plan_a = new_plan (text "a") (text "mem/" ∷ [])

abbrev plan_b : StreamPlan
plan_b = new_plan (text "b") (text "docs/" ∷ [])

abbrev plans : List StreamPlan
plans = plan_a ∷ plan_b ∷ []

plans_validate : validate_stream_plans plans ≡ ok tt
unfolding text_eq is_space strip rstrip_by lstrip_by starts_with ends_with_char norm_owned
    to_slashes token_covers owned_covers covers_either check_token check_tokens check_against
    check_pairs contains all_distinct plan_names validate_stream_plans
plans_validate = refl

a_is_not_b : text "a" ≢ text "b"
unfolding text_eq
a_is_not_b e =
    let same : text_eq (text "a") (text "b") ≡ true = (text_eq_iff (text "a") (text "b")).1 e in
    cc same

mem_tidy : AllTidy (text "mem/" ∷ [])
unfolding norm_owned to_slashes strip is_space rstrip_by lstrip_by
mem_tidy = AllTidy-one (text "mem/") refl (inr refl)

docs_tidy : AllTidy (text "docs/" ∷ [])
unfolding norm_owned to_slashes strip is_space rstrip_by lstrip_by
docs_tidy = AllTidy-one (text "docs/") refl (inr refl)

file_of_a : path_is_owned (text "./mem/x.py") (text "mem/" ∷ []) ≡ ok true
unfolding path_is_owned owned_by_any token_owns norm_rel drop_dot_slashes norm_owned to_slashes
    strip is_space rstrip_by lstrip_by starts_with ends_with_char text_eq
file_of_a = refl

validate-disjoint_example : path_is_owned (text "./mem/x.py") (text "docs/" ∷ []) ≢ ok true
validate-disjoint_example =
    validate-disjoint plans plan_a plan_b (text "./mem/x.py") plans_validate (inl refl)
      (inr (inl refl)) a_is_not_b mem_tidy docs_tidy file_of_a

gate_a : files_outside_owned (text "mem/x.py" ∷ []) (text "mem/" ∷ []) ≡ ok []
unfolding files_outside_owned is_skipped path_is_owned owned_by_any token_owns norm_rel
    drop_dot_slashes norm_owned to_slashes strip is_space rstrip_by lstrip_by starts_with
    ends_with_char text_eq
gate_a = refl

gate_b : files_outside_owned (text "docs/x.md" ∷ []) (text "docs/" ∷ []) ≡ ok []
unfolding files_outside_owned is_skipped path_is_owned owned_by_any token_owns norm_rel
    drop_dot_slashes norm_owned to_slashes strip is_space rstrip_by lstrip_by starts_with
    ends_with_char text_eq
gate_b = refl

counted_a : is_skipped (norm_rel (text "mem/x.py")) ≡ false
unfolding is_skipped norm_rel drop_dot_slashes to_slashes text_eq
counted_a = refl

gates-disjoint_example : norm_rel (text "mem/x.py") ≢ norm_rel (text "docs/x.md")
gates-disjoint_example =
    gates-disjoint plans plan_a plan_b (text "mem/x.py" ∷ []) (text "docs/x.md" ∷ [])
      (text "mem/x.py") (text "docs/x.md") plans_validate (inl refl) (inr (inl refl)) a_is_not_b
      mem_tidy docs_tidy gate_a gate_b (inl refl) (inl refl) counted_a

abbrev changed : List Text
changed = text "mem/x.py" ∷ text "./setup.py" ∷ []

gate_reports : files_outside_owned changed (text "mem" ∷ []) ≡ ok (text "setup.py" ∷ [])
unfolding files_outside_owned is_skipped path_is_owned owned_by_any token_owns norm_rel
    drop_dot_slashes norm_owned to_slashes strip is_space rstrip_by lstrip_by starts_with
    ends_with_char text_eq path_suffix last_component split_on rfind
gate_reports = refl

files_outside_exact_example :
    In (text "setup.py") (text "setup.py" ∷ [])
    ↔ Violates changed (text "mem" ∷ []) (text "setup.py")
files_outside_exact_example =
    files_outside_exact changed (text "mem" ∷ []) (text "setup.py" ∷ []) (text "setup.py")
      gate_reports

abbrev specs : List Text
specs = text " a : mem/, " ∷ text "" ∷ text "b:docs/" ∷ []

specs_parse : parse_stream_specs specs ≡ ok plans
unfolding parse_stream_specs parse_each parse_spec norm_listed partition_at split_on norm_owned
    to_slashes strip is_space rstrip_by lstrip_by
specs_parse = refl

parse_stream_specs-IsWellFormed_example : (is_empty plans ≡ false) × All IsWellFormed plans
parse_stream_specs-IsWellFormed_example = parse_stream_specs-IsWellFormed specs plans specs_parse

gate-total_example : (out : List Text) × (files_outside_owned changed plan_a.owned_paths ≡ ok out)
gate-total_example = gate-total plan_a changed parse_stream_specs-IsWellFormed_example.1.0

mem_covers : owned_covers (text "mem") (text "mem/meta/") ≡ ok true
unfolding owned_covers token_covers norm_owned to_slashes strip is_space rstrip_by lstrip_by
    starts_with ends_with_char text_eq path_suffix last_component split_on rfind
mem_covers = refl

file_of_meta : path_is_owned (text "mem/meta/x.py") (text "mem/meta/" ∷ []) ≡ ok true
unfolding path_is_owned owned_by_any token_owns norm_rel drop_dot_slashes norm_owned to_slashes
    strip is_space rstrip_by lstrip_by starts_with ends_with_char text_eq
file_of_meta = refl

owned_covers-owns_example : path_is_owned (text "mem/meta/x.py") (text "mem" ∷ []) ≡ ok true
owned_covers-owns_example =
    owned_covers-owns (text "mem") (text "mem/meta/") (text "mem/meta/x.py") mem_covers file_of_meta

token_owns_iff_example :
    (token_owns (text "mem/x.py") (text "mem") ≡ true) ↔ Reaches (text "mem") (text "mem/x.py")
token_owns_iff_example = token_owns_iff (text "mem") (text "mem/x.py")

mem-IsTidy : IsTidy (text "mem/")
unfolding rstrip_by
mem-IsTidy = inr refl

token_covers_iff_example :
    (token_covers (text "mem/") (text "mem/meta") ≡ true) ↔ Within (text "mem/meta") (text "mem/")
token_covers_iff_example = token_covers_iff (text "mem/") (text "mem/meta") mem-IsTidy
