-- ===== src/Lease/Tests/Dead.antt =====
-- A claim on a path that a dead process still holds.
use agentic_loop_template.Base.{◌≡◌, refl, ap, subst, inl, inr, [], ◌∷◌, In, ok}
use agentic_loop_template.Base.Int.{pos}
use agentic_loop_template.Base.Text.{text, text_eq, is_space, strip, rstrip_by, lstrip_by}
use agentic_loop_template.Streams.Paths.{norm_owned, to_slashes}
use agentic_loop_template.Lease.Liveness.{lease, pid_dead, lease_pid, lease_pid_dead}
use agentic_loop_template.Lease.Registry.{
  Leases, registry, load_strict, find, norm_name, norm_each, norm_paths, owned_of, is_object,
  is_live,
}
use agentic_loop_template.Lease.Requests.{Reply, live_record, claim}
use agentic_loop_template.Lease.Progress.{ValidTokens, OthersDead, claim-progress}
use agentic_loop_template.Lease.Tests.{machine, wanted, held}

-- A lease of a process that is gone, on a path that the next claim wants.
abbrev dead_leases : Leases
dead_leases = (text "c", lease (held (text "docs/") (pos 30))) ∷ []

dead_tokens : ValidTokens dead_leases
unfolding owned_of norm_owned to_slashes strip is_space rstrip_by lstrip_by
dead_tokens m e (inl here) raw token =
    let owned : In raw (owned_of (lease (held (text "docs/") (pos 30)))) =
      subst (λ x. In raw (owned_of x.1)) here token in
    elim owned [
      | inl is_docs ↦ (text "docs/", ap norm_owned is_docs)
      | inr none_left ↦ elim none_left [ ]
    ]
dead_tokens m e (inr none_left) raw token = elim none_left [ ]

others_dead : OthersDead (machine (pos 20)) (text "b") dead_leases
unfolding is_live is_object lease_pid lease_pid_dead pid_dead
others_dead m e (inl here) ne = ap (λ x. is_live (machine (pos 20)) x.1) here
others_dead m e (inr none_left) ne = elim none_left [ ]

claim-progress_example :
    (reply : Reply) × (after : Leases) × (claim
        (machine (pos 20))
        (wanted (text "b") (text "docs/"))
        (registry dead_leases)
      ≡ ok (reply, after))
unfolding norm_name norm_paths norm_each norm_owned to_slashes strip is_space rstrip_by lstrip_by
    load_strict find live_record text_eq
claim-progress_example =
    claim-progress (machine (pos 20)) (wanted (text "b") (text "docs/")) (registry dead_leases)
      (text "b") (text "docs/" ∷ []) dead_leases refl refl refl dead_tokens others_dead refl
