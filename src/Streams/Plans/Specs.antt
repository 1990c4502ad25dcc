-- ===== src/Streams/Plans/Specs.antt =====
-- memory/streams.py: the plans that `parse_stream_specs` returns are well formed.
use agentic_loop_template.Base.{
  ℕ, ◌≡◌, refl, ap, ◌∙◌, subst, inl, inr, Bool, true, false, List, [], ◌∷◌, arith, All, ◌==◌,
  Bool-cases, Option-cases, if◌then◌else◌, ok, >>=-eq-ok, if_err-eq-ok, raise_if-eq-ok,
}
use agentic_loop_template.Base.Text.{Text, is_empty, is_space, strip, partition_at, split_on}
use agentic_loop_template.Base.Text.Strip.{strip_idem, strip-map}
use agentic_loop_template.Errors.{
  empty_owned_path, empty_name_in_spec, has_no_owned_paths, no_streams_specified,
}
use agentic_loop_template.Streams.Paths.{
  slash, to_slashes, norm_rel, norm_owned, token_owns, owned_by_any, path_is_owned,
}
use agentic_loop_template.Streams.Gate.{is_skipped, files_outside_owned}
use agentic_loop_template.Streams.Plans.{
  StreamPlan, new_plan, norm_listed, parse_spec, parse_each, parse_stream_specs,
}

slash_keeps_space : (c : ℕ) → is_space (if c == 92 then slash else c) ≡ is_space c
unfolding is_space
slash_keeps_space c = ground arith

to_slashes_idem : (s : Text) → to_slashes (to_slashes s) ≡ to_slashes s
unfolding to_slashes
to_slashes_idem [] = refl
to_slashes_idem (c ∷ s) = ground (arith, to_slashes_idem s)

strip-to_slashes : (s : Text) → strip (to_slashes s) ≡ to_slashes (strip s)
unfolding to_slashes
strip-to_slashes s = strip-map _ slash_keeps_space s

-- A normalised token normalises to itself.
pub norm_owned_idem : (p q : Text) → norm_owned p ≡ ok q → norm_owned q ≡ ok q
unfolding norm_owned
norm_owned_idem p q h =
    let n = to_slashes (strip p) in
    let fixed : to_slashes (strip n) ≡ n =
      ap to_slashes (strip-to_slashes (strip p) ∙ ap to_slashes (strip_idem p))
      ∙ to_slashes_idem (strip p) in
    let (full, e) = if_err-eq-ok (is_empty n) empty_owned_path (ok n) h in
    let same : n ≡ q = cc e in
    let fixed_q : to_slashes (strip q) ≡ q = rw (← same) fixed in
    let full_q : is_empty q ≡ false = rw (← same) full in rw (fixed_q, full_q)

-- A plan's tokens are normalised, so no later check of them raises.
pub record IsWellFormed (p : StreamPlan) : Type 0 where
  pub named : is_empty p.name ≡ false
  pub owns_paths : is_empty p.owned_paths ≡ false
  pub normalised : All (λ q. norm_owned q ≡ ok q) p.owned_paths

norm_listed-normalised :
    (ps qs : List Text) → norm_listed ps ≡ ok qs → All (λ q. norm_owned q ≡ ok q) qs
unfolding norm_listed
norm_listed-normalised [] [] h = tt
norm_listed-normalised [] (q ∷ qs) h = cc
norm_listed-normalised (p ∷ ps) qs h = elim (Bool-cases (is_empty (strip p))) [
  | inl blank ↦ norm_listed-normalised ps qs (rw blank at h)
  | inr word ↦
      let (q, eq, h') = >>=-eq-ok (norm_owned p) _ (rw word at h) in
      let (rest, er, h'') = >>=-eq-ok (norm_listed ps) _ h' in
      let same : q ∷ rest ≡ qs = cc h'' in
      subst (All (λ t. norm_owned t ≡ ok t)) same
        (norm_owned_idem p q eq, norm_listed-normalised ps rest er)
]

parse_spec-IsWellFormed : (raw : Text) (p : StreamPlan) → parse_spec raw ≡ ok p → IsWellFormed p
unfolding parse_spec
parse_spec-IsWellFormed raw p h = elim (Option-cases (partition_at b':' raw)) [
  | inl missing ↦ cc (rw (missing, parse_spec) at h)
  | inr ((before, paths_s), found) ↦
      let (named, h') =
        raise_if-eq-ok (is_empty (strip before)) (empty_name_in_spec raw) _
          (rw (found, parse_spec) at h) in
      let (paths, listed, h'') = >>=-eq-ok (norm_listed (split_on b',' paths_s)) _ h' in
      let (full, built) =
        raise_if-eq-ok (is_empty paths) (has_no_owned_paths (strip before)) _ h'' in
      let same : new_plan (strip before) paths ≡ p = cc built in
      subst IsWellFormed same (record {
        named = named;
        owns_paths = full;
        normalised = norm_listed-normalised (split_on b',' paths_s) paths listed;
      })
]

parse_each-IsWellFormed :
    (specs : List Text) (plans : List StreamPlan)
    → parse_each specs ≡ ok plans
    → All IsWellFormed plans
unfolding parse_each
parse_each-IsWellFormed [] [] h = tt
parse_each-IsWellFormed [] (p ∷ ps) h = cc
parse_each-IsWellFormed (raw ∷ specs) plans h = elim (Bool-cases (is_empty (strip raw))) [
  | inl blank ↦ parse_each-IsWellFormed specs plans (rw blank at h)
  | inr word ↦
      let (p, ep, h') = >>=-eq-ok (parse_spec (strip raw)) _ (rw word at h) in
      let (rest, er, h'') = >>=-eq-ok (parse_each specs) _ h' in
      let same : p ∷ rest ≡ plans = cc h'' in
      subst (All IsWellFormed) same
        (parse_spec-IsWellFormed (strip raw) p ep, parse_each-IsWellFormed specs rest er)
]

-- Specs that parse give at least one plan, and each plan has a name, at least one token, and only
-- tokens that are in normal form.
pub parse_stream_specs-IsWellFormed :
    (specs : List Text) (plans : List StreamPlan)
    → parse_stream_specs specs ≡ ok plans
    → (is_empty plans ≡ false) × All IsWellFormed plans
unfolding parse_stream_specs
parse_stream_specs-IsWellFormed specs plans h =
    let (ps, each, h') = >>=-eq-ok (parse_each specs) _ h in
    let (full, built) = raise_if-eq-ok (is_empty ps) no_streams_specified (ok ps) h' in
    let same : ps ≡ plans = cc built in
    (rw (← same) full, rw (← same) (parse_each-IsWellFormed specs ps each))

owned_by_any-total :
    (rel : Text) (paths : List Text)
    → All (λ q. norm_owned q ≡ ok q) paths
    → (b : Bool) × (owned_by_any rel paths ≡ ok b)
unfolding owned_by_any
owned_by_any-total rel [] all = (false, refl)
owned_by_any-total rel (raw ∷ paths) (e, all) = elim (Bool-cases (token_owns rel raw)) [
  | inl owned ↦ (true, rw (e, owned))
  | inr not_owned ↦ let (b, rest) = owned_by_any-total rel paths all in (b, rw (e, not_owned) rest)
]

-- On the tokens of a well-formed plan the gate does not raise, whatever files have changed.
pub gate-total :
    (p : StreamPlan) (changed : List Text)
    → IsWellFormed p
    → (out : List Text) × (files_outside_owned changed p.owned_paths ≡ ok out)
unfolding files_outside_owned path_is_owned
gate-total p [] w = ([], refl)
gate-total p (f ∷ changed) w =
    let (out, rest) = gate-total p changed w in
    let (owned, e) = owned_by_any-total (norm_rel (norm_rel f)) p.owned_paths w.normalised in
    elim (Bool-cases (is_skipped (norm_rel f))) [
      | inl skip ↦ (out, rw skip rest)
      | inr count ↦ ((if owned then out else norm_rel f ∷ out), rw (count, e, rest))
    ]
