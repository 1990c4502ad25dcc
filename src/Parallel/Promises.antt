-- ===== src/Parallel/Promises.antt =====
-- memory/supervisor_parallel.py: what `run_parallel` promises of a result with exit code 0.
use agentic_loop_template.Base.{
  Bool, true, false, List, [], ◌∷◌, Result, ok, err, ◌≡◌, ◌≢◌, refl, sym, ap, ◌∙◌, subst, inl, inr,
  In, if◌then◌else◌,
}
use agentic_loop_template.Base.Int.{pos}
use agentic_loop_template.Base.Text.{Text, text}
use agentic_loop_template.Errors.{ValueError}
use agentic_loop_template.Streams.Gate.{is_skipped, list_changed_files, check_owned_paths_gate}
use agentic_loop_template.Streams.Paths.{norm_rel}
use agentic_loop_template.Streams.Plans.{StreamPlan, validate_stream_plans}
use agentic_loop_template.Streams.Plans.Disjoint.{AllTidy}
use agentic_loop_template.Streams.Separation.{gates-disjoint}
use agentic_loop_template.Streams.Provision.Keeps.{SameStreams}
use agentic_loop_template.Parallel.Hub.{Hub, HubWorld, Options, release_all, tick}
use agentic_loop_template.Parallel.Stream.{violations_of}
use agentic_loop_template.Parallel.Phases.{Phase, go, halt, escape}
use agentic_loop_template.Parallel.Run.{
  HubOutcome, phases, blocked_outcome, returned, released_after, fresh, run_valid, run_parallel,
}
use agentic_loop_template.Parallel.Merges.{PushedIfWanted, release_all-log}
use agentic_loop_template.Parallel.Decision.{IsCompletion}
use agentic_loop_template.Parallel.Success.{Integrated}
use agentic_loop_template.Parallel.Success.Whole.{
  phases-Integrated, release_all-handoff, valid-distinct,
}

released-Integrated :
    (world : HubWorld) (opts : Options) (plans : List StreamPlan) (hub : Hub) (names : List Text)
    → Integrated world opts plans hub
    → Integrated world opts plans (release_all world names hub)
released-Integrated world opts plans hub names i = record {
  ready = i.ready;
  same = i.same;
  passed = i.passed;
  worktree = i.worktree;
  before = i.before;
  placed = i.placed;
  after = i.after;
  placement = i.placement;
  merges = i.merges;
  pushed =
      subst (PushedIfWanted world opts i.worktree i.after)
        (sym (release_all-log world opts names hub)) i.pushed;
  handoff = i.handoff;
  done = i.done;
  accepted = i.accepted;
  saved = release_all-handoff world names hub ∙ i.saved;
}

returned-Integrated :
    (world : HubWorld) (opts : Options) (plans : List StreamPlan) (x : Phase HubOutcome × Hub)
    (o : HubOutcome)
    → ((o1 : HubOutcome) → x.0 ≡ go o1 → Integrated world opts plans x.1)
    → (released_after world (returned world opts x)).0 ≡ ok o
    → o.exit_code ≡ pos 0
    → Integrated world opts plans (released_after world (returned world opts x)).1
unfolding returned released_after blocked_outcome
returned-Integrated world opts plans (go o1, hub) o done h zero =
    released-Integrated world opts plans hub hub.claimed (done o1 refl)
returned-Integrated world opts plans (escape e, hub) o done h zero = cc h
returned-Integrated world opts plans (halt why, hub) o done h zero =
    let same : blocked_outcome opts why (tick world opts (text "BLOCKED") hub) ≡ o = cc h in
    let one : pos 1 ≡ o.exit_code = ap (λ (x : HubOutcome). x.exit_code) same in cc (one ∙ zero)

valid-Integrated :
    (world : HubWorld) (opts : Options) (plans : List StreamPlan) (hub : Hub) (o : HubOutcome)
    (valid : Result ValueError (Unit {0}))
    → validate_stream_plans plans ≡ valid
    → ((ps : List StreamPlan) → IsCompletion world ps)
    → (run_valid world opts plans valid hub).0 ≡ ok o
    → o.exit_code ≡ pos 0
    → (valid ≡ ok tt) × Integrated world opts plans (run_valid world opts plans valid hub).1
unfolding run_valid
valid-Integrated world opts plans hub o (err e) v complete h zero = cc h
valid-Integrated world opts plans hub o (ok u) v complete h zero = (
  refl,
  returned-Integrated world opts plans (phases world opts plans hub) o
      (λ o1 e. phases-Integrated world opts plans hub o1 complete (valid-distinct plans v) e) h
      zero,
)

-- When `run_parallel` returns exit code 0, with futures that all complete: every stream has a worktree, its loop returned
-- PR_READY and the gate, where it is asked, found no violation; the integration worktree was placed, and every stream with
-- a branch was merged in it, in the order of the plans, one after the other from there; where pushes are wanted its branch
-- was pushed after them, and git was given nothing more; and a handoff with the status DONE in which `validate_handoff` finds
-- no problem has been saved.
pub run_parallel-Integrated :
    (world : HubWorld) (opts : Options) (plans : List StreamPlan) (hub : Hub) (o : HubOutcome)
    → ((ps : List StreamPlan) → IsCompletion world ps)
    → (run_parallel world opts plans hub).0 ≡ ok o
    → o.exit_code ≡ pos 0
    → Integrated world opts plans (run_parallel world opts plans hub).1
unfolding run_parallel
run_parallel-Integrated world opts plans hub o complete h zero =
    (valid-Integrated world opts plans (fresh hub) o (validate_stream_plans plans) refl complete h
      zero).1

SameStreams-In :
    (ps qs : List StreamPlan) (p : StreamPlan)
    → SameStreams ps qs
    → In p ps
    → (q : StreamPlan) × In q qs × (q.name ≡ p.name) × (q.owned_paths ≡ p.owned_paths)
SameStreams-In (x ∷ ps) (y ∷ qs) p (same, s) (inl here) = (
  y,
  inl refl,
  same.0 ∙ ap (λ (z : StreamPlan). z.name) (sym here),
  same.1 ∙ ap (λ (z : StreamPlan). z.owned_paths) (sym here),
)
SameStreams-In (x ∷ ps) (y ∷ qs) p (same, s) (inr later) =
    let (q, m, n, o) = SameStreams-In ps qs p s later in (q, inr m, n, o)
SameStreams-In (x ∷ ps) [] p s m = elim s [ ]
SameStreams-In [] qs p s m = elim m [ ]

-- The files that git names for a stream, against the base.
abbrev pub changed_files : HubWorld → Options → StreamPlan → List Text
changed_files world opts p = list_changed_files (world.stream_git p.name) opts.base_ref

if_taken : {A : Type 0} (c : Bool) (x y : A) {r : A} → c ≡ true → (if c then x else y) ≡ r → x ≡ r
if_taken true x y taken e = e
if_taken false x y taken e = cc taken

gate_of :
    (world : HubWorld) (opts : Options) (plans : List StreamPlan) (hub1 : Hub) (p : StreamPlan)
    → Integrated world opts plans hub1
    → opts.require_owned_paths ≡ true
    → In p plans
    → check_owned_paths_gate (world.stream_git p.name) p.owned_paths opts.base_ref ≡ ok []
unfolding violations_of
gate_of world opts plans hub1 p i required m =
    let (q, mq, name, paths) = SameStreams-In plans i.ready p i.same m in
    let checked = if_taken opts.require_owned_paths _ _ required ((i.passed q mq).inside) in
    subst (λ n. check_owned_paths_gate (world.stream_git n) p.owned_paths opts.base_ref ≡ ok [])
      name
      (subst (λ ps. check_owned_paths_gate (world.stream_git q.name) ps opts.base_ref ≡ ok []) paths
        checked)

-- When `run_parallel` returns exit code 0 for plans whose owned paths are required, and futures that all
-- complete, no counted file that git names as changed in one stream's worktree has the normalised path of a
-- file changed in that of a stream of another name, if the tokens of the two have at most one trailing
-- slash.
pub run_parallel-disjoint :
    (world : HubWorld) (opts : Options) (plans : List StreamPlan) (hub : Hub) (o : HubOutcome)
    (pa pb : StreamPlan) (fa fb : Text)
    → ((ps : List StreamPlan) → IsCompletion world ps)
    → (run_parallel world opts plans hub).0 ≡ ok o
    → o.exit_code ≡ pos 0
    → opts.require_owned_paths ≡ true
    → In pa plans
    → In pb plans
    → pa.name ≢ pb.name
    → AllTidy pa.owned_paths
    → AllTidy pb.owned_paths
    → In fa (changed_files world opts pa)
    → In fb (changed_files world opts pb)
    → is_skipped (norm_rel fa) ≡ false
    → norm_rel fa ≢ norm_rel fb
unfolding run_parallel check_owned_paths_gate
run_parallel-disjoint world opts plans hub o pa pb fa fb complete h zero required ma mb ne ta tb fma
      fmb counted =
    let (valid, i) =
      valid-Integrated world opts plans (fresh hub) o (validate_stream_plans plans) refl complete h
        zero in
    gates-disjoint plans pa pb (changed_files world opts pa) (changed_files world opts pb) fa fb
      valid ma mb ne ta tb (gate_of world opts plans _ pa i required ma)
      (gate_of world opts plans _ pb i required mb) fma fmb counted
