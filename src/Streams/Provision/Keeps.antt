-- ===== src/Streams/Provision/Keeps.antt =====
-- memory/streams.py: what provisioning keeps of the plans, and which commands it gives to git.
use agentic_loop_template.Base.{
  List, [], ◌∷◌, Result, ok, err, ◌≡◌, refl, sym, ap, Bool-cases, inl, inr, subst, ok-eq-ok,
}
use agentic_loop_template.Base.Text.{Text, text, text_eq}
use agentic_loop_template.Streams.Plans.{StreamPlan}
use agentic_loop_template.StreamGit.{
  Log, Git, PathKind, absent, git_checkout, empty_directory, something_else, run_git,
}
use agentic_loop_template.StreamGit.Protected.{IsSafeLog, logged, names_protected}
use agentic_loop_template.Streams.Provision.{
  ProvisionError, provisioned, add_stream_worktree, provision_at, provision_one, with_first,
  provision_stream_worktrees, worktree_of, branch_of,
}

-- The same streams: the names and the owned paths, in order.
abbrev pub SameStreams : List StreamPlan → List StreamPlan → Type 0
SameStreams [] [] = Unit
SameStreams [] (q ∷ qs) = ⊥
SameStreams (p ∷ ps) [] = ⊥
SameStreams (p ∷ ps) (q ∷ qs) =
    ((q.name ≡ p.name) × (q.owned_paths ≡ p.owned_paths)) × SameStreams ps qs

pub SameStreams-refl : (ps : List StreamPlan) → SameStreams ps ps
SameStreams-refl [] = tt
SameStreams-refl (p ∷ ps) = ((refl, refl), SameStreams-refl ps)

module _ (git : Git) (repo_root wt_base cycle_id main_branch : Text) where
  -- One plan: the result keeps name and paths, and no push names main or master.
  record Fits (plan : StreamPlan) (log : Log) (x : Result ProvisionError StreamPlan × Log)
      : Type 0 where
    pub same :
        (p : StreamPlan) → x.0 ≡ ok p → (p.name ≡ plan.name) × (p.owned_paths ≡ plan.owned_paths)
    pub safe : IsSafeLog log → IsSafeLog x.1

  ready-Fits :
      (plan : StreamPlan) (log log1 : Log)
      → (IsSafeLog log → IsSafeLog log1)
      → Fits plan log (ok (provisioned git repo_root wt_base cycle_id main_branch plan), log1)
  unfolding provisioned
  ready-Fits plan log log1 safe = record {
    same = λ p e.
        let e' = ok-eq-ok e in
        (ap (λ (q : StreamPlan). q.name) (sym e'), ap (λ (q : StreamPlan). q.owned_paths) (sym e'));
    safe = safe;
  }

  refused-Fits :
      (plan : StreamPlan) (log log1 : Log) (e : ProvisionError)
      → (IsSafeLog log → IsSafeLog log1)
      → Fits plan log (err e, log1)
  refused-Fits plan log log1 e safe = record { same = λ p same. cc same; safe = safe }

  add-Fits :
      (plan : StreamPlan) (log : Log)
      → Fits plan log (add_stream_worktree git repo_root wt_base cycle_id main_branch plan log)
  unfolding add_stream_worktree run_git names_protected text_eq
  add-Fits plan log =
      let wt = worktree_of git repo_root wt_base cycle_id main_branch plan in
      let branch = branch_of git repo_root wt_base cycle_id main_branch plan in
      let new_branch = text "worktree" ∷ text "add" ∷ text "-b" ∷ branch ∷ wt ∷ main_branch ∷ [] in
      let (r, log1) = run_git git repo_root new_branch log in
      let (r2, log2) =
        run_git git repo_root (text "worktree" ∷ text "add" ∷ wt ∷ branch ∷ []) log1 in
      let safe1 : IsSafeLog log → IsSafeLog log1 = λ safe. logged _ _ refl safe in
      let safe2 : IsSafeLog log → IsSafeLog log2 = λ safe. logged _ _ refl (safe1 safe) in
      elim (Bool-cases r.failed) [
        | inr worked ↦ rw worked (ready-Fits plan log log1 safe1)
        | inl again ↦ elim (Bool-cases r2.failed) [
          | inr worked ↦ rw (again, worked) (ready-Fits plan log log2 safe2)
          | inl gone ↦ rw (again, gone) (refused-Fits plan log log2 _ safe2)
        ]
      ]

  provision_at-Fits :
      (plan : StreamPlan) (kind : PathKind) (log : Log)
      → Fits plan log (provision_at git repo_root wt_base cycle_id main_branch plan kind log)
  unfolding provision_at
  provision_at-Fits plan git_checkout log = ready-Fits plan log log (λ safe. safe)
  provision_at-Fits plan something_else log = refused-Fits plan log log _ (λ safe. safe)
  provision_at-Fits plan empty_directory log = add-Fits plan log
  provision_at-Fits plan absent log = add-Fits plan log

  -- All plans.
  pub record AllFit (plans : List StreamPlan) (log : Log)
      (x : Result ProvisionError (List StreamPlan) × Log) : Type 0 where
    pub same : (ps : List StreamPlan) → x.0 ≡ ok ps → SameStreams plans ps
    pub safe : IsSafeLog log → IsSafeLog x.1

  with_first-AllFit :
      (plan : StreamPlan) (plans : List StreamPlan) (log : Log)
      (x : Result ProvisionError StreamPlan × Log)
      (y : Result ProvisionError (List StreamPlan) × Log)
      → Fits plan log x
      → AllFit plans x.1 y
      → AllFit (plan ∷ plans) log (with_first git repo_root wt_base cycle_id main_branch x y)
  unfolding with_first
  with_first-AllFit plan plans log (err e, log1) y first rest = record {
    same = λ ps same. cc same;
    safe = first.safe;
  }
  with_first-AllFit plan plans log (ok p, log1) (err e, log2) first rest = record {
    same = λ ps same. cc same;
    safe = λ s. rest.safe (first.safe s);
  }
  with_first-AllFit plan plans log (ok p, log1) (ok qs, log2) first rest = record {
    same = λ ps e.
        subst (SameStreams (plan ∷ plans)) (ok-eq-ok e) (first.same p refl, rest.same qs refl);
    safe = λ s. rest.safe (first.safe s);
  }

  pub provision-AllFit :
      (plans : List StreamPlan) (log : Log)
      → AllFit plans log
          (provision_stream_worktrees git repo_root wt_base cycle_id main_branch plans log)
  unfolding provision_stream_worktrees provision_one
  provision-AllFit [] log = record {
    same = λ ps e. subst (SameStreams []) (ok-eq-ok e) tt;
    safe = λ s. s;
  }
  provision-AllFit (plan ∷ plans) log =
      let first = provision_one git repo_root wt_base cycle_id main_branch plan log in
      with_first-AllFit plan plans log first
        (provision_stream_worktrees git repo_root wt_base cycle_id main_branch plans first.1)
        (provision_at-Fits plan _ log) (provision-AllFit plans first.1)
