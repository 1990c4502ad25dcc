-- ===== src/Parallel/Released.antt =====
-- memory/supervisor_parallel.py: the `finally` block leaves no lease of the run's process under a name that the run claimed.
use agentic_loop_template.Base.{
  ℕ, ◌≡◌, ◌≢◌, refl, sym, some, none, Option-cases, ◌⊎◌, subst, inl, inr, List, [], ◌∷◌, Result, ok,
  err, In,
}
use agentic_loop_template.Base.Int.{ℤ, pos}
use agentic_loop_template.Base.Text.{Text}
use agentic_loop_template.Errors.{ValueError}
use agentic_loop_template.Lease.Liveness.{System, Entry, lease_pid}
use agentic_loop_template.Lease.Registry.{RegistryFile, load_lenient, find, norm_name}
use agentic_loop_template.Lease.Registry.Entries.{Item}
use agentic_loop_template.Lease.Registry.Lookup.{find-In}
use agentic_loop_template.Lease.Requests.{Request, release_lease, serve}
use agentic_loop_template.Lease.Reach.{Reach}
use agentic_loop_template.Lease.Unique.{Reach-UniqueNames}
use agentic_loop_template.Lease.Freed.{HeldBy, serve-else, release-In, release-frees}
use agentic_loop_template.Streams.Plans.{StreamPlan, validate_stream_plans}
use agentic_loop_template.StreamGit.Protected.{empty-IsSafeLog}
use agentic_loop_template.Parallel.Hub.{Hub, HubWorld, Options, serve_all, lease_call, release_all}
use agentic_loop_template.Parallel.Run.{
  HubOutcome, phases, returned, released_after, fresh, run_valid, run_parallel,
}
use agentic_loop_template.Parallel.Claims.{release_all-claimed, run_parallel-claimed}
use agentic_loop_template.Parallel.Keeps.{IsSound, serve_all-Reach, lease_call-IsSound}
use agentic_loop_template.Parallel.Keeps.Whole.{phases-IsSound, returned-IsSound}

-- The run's own calls are those of the process `me`, and the calls between them are not.
pub record IsOwn (world : HubWorld) (me : ℤ) : Type 0 where
  pub own : (i : ℕ) → (world.system i).getpid ≡ me
  pub others :
      (i : ℕ) (sys : System) (req : Request)
      → In {A = System × Request} (sys, req) (world.others i)
      → sys.getpid ≢ me

-- No lease under the name is the process's.
abbrev pub IsFree : ℤ → Text → RegistryFile → Type 0
IsFree me name file = (e : Entry) → In {A = Item} (name, e) (load_lenient file) → HeldBy me e → ⊥

serve_all-In :
    (calls : List (System × Request)) (file : RegistryFile) (me : ℤ)
    → ((sys : System) (req : Request)
        → In {A = System × Request} (sys, req) calls
        → sys.getpid ≢ me)
    → (m : Text) (e : Entry) → In {A = Item} (m, e) (load_lenient (serve_all calls file))
    → HeldBy me e
    → In {A = Item} (m, e) (load_lenient file)
unfolding serve_all
serve_all-In [] file me others m e i mine = i
serve_all-In ((sys, req) ∷ calls) file me others m e i mine =
    let before =
      serve_all-In calls (serve sys req file).1 me (λ s r k. others s r (inr k)) m e i mine in
    serve-else sys req file me (others sys req (inl refl)) m e before mine

module _ (world : HubWorld) (me : ℤ) (who : IsOwn world me) where
  call_released-In :
      (raw : Text) (hub : Hub) (m : Text) (e : Entry)
      → In {A = Item} (m, e) (load_lenient (lease_call world (release_lease raw) hub).1.registry)
      → HeldBy me e
      → In {A = Item} (m, e) (load_lenient hub.registry)
  unfolding lease_call
  call_released-In raw hub m e i mine =
      serve_all-In (world.others hub.lease_calls) hub.registry me (who.others hub.lease_calls) m e
        (release-In (world.system hub.lease_calls) raw _ (m, e) i) mine

  release_all-In :
      (names : List Text) (hub : Hub) (m : Text) (e : Entry)
      → In {A = Item} (m, e) (load_lenient (release_all world names hub).registry)
      → HeldBy me e
      → In {A = Item} (m, e) (load_lenient hub.registry)
  unfolding release_all
  release_all-In [] hub m e i mine = i
  release_all-In (n ∷ names) hub m e i mine =
      call_released-In n hub m e (release_all-In names _ m e i mine) mine

  call_released-IsFree :
      (raw name : Text) (hub : Hub)
      → Reach hub.registry
      → norm_name raw ≡ ok name
      → IsFree me name (lease_call world (release_lease raw) hub).1.registry
  unfolding lease_call
  call_released-IsFree raw name hub reach en e i mine =
      release-frees (world.system hub.lease_calls) raw name
        (serve_all (world.others hub.lease_calls) hub.registry) e en
        (Reach-UniqueNames (serve_all-Reach (world.others hub.lease_calls) hub.registry reach)) i
        (subst (λ p. HeldBy p e) (sym (who.own hub.lease_calls)) mine)

  release_all-IsFree :
      (names : List Text) (hub : Hub) (raw name : Text)
      → IsSound hub
      → In raw names
      → norm_name raw ≡ ok name
      → IsFree me name (release_all world names hub).registry
  unfolding release_all
  release_all-IsFree [] hub raw name s m en e i mine = m
  release_all-IsFree (n ∷ names) hub raw name s (inl here) en e i mine =
      call_released-IsFree n name hub s.0 (subst (λ t. norm_name t ≡ ok name) here en) e
        (release_all-In names _ name e i mine) mine
  release_all-IsFree (n ∷ names) hub raw name s (inr later) en e i mine =
      release_all-IsFree names (lease_call world (release_lease n) hub).1 raw name
        (lease_call-IsSound world (release_lease n) hub s) later en e i mine

  run_valid-IsFree :
      (opts : Options) (plans : List StreamPlan) (valid : Result ValueError (Unit {0})) (hub : Hub)
      (raw name : Text)
      → IsSound hub
      → hub.claimed ≡ []
      → In raw (run_valid world opts plans valid hub).1.claimed
      → norm_name raw ≡ ok name
      → IsFree me name (run_valid world opts plans valid hub).1.registry
  unfolding run_valid released_after
  run_valid-IsFree opts plans (err e) hub raw name s none_yet m en = absurd (rw none_yet at m)
  run_valid-IsFree opts plans (ok u) hub raw name s none_yet m en =
      let ended = returned world opts (phases world opts plans hub) in
      let sound =
        returned-IsSound world opts (phases world opts plans hub)
          (phases-IsSound world opts plans hub s) in
      release_all-IsFree ended.1.claimed ended.1 raw name sound
        (subst (In raw) (release_all-claimed world opts ended.1.claimed ended.1) m) en

  run_parallel-IsFree :
      (opts : Options) (plans : List StreamPlan) (hub : Hub) (raw name : Text)
      → Reach hub.registry
      → In raw (run_parallel world opts plans hub).1.claimed
      → norm_name raw ≡ ok name
      → IsFree me name (run_parallel world opts plans hub).1.registry
  unfolding run_parallel fresh
  run_parallel-IsFree opts plans hub raw name reach m en =
      run_valid-IsFree opts plans (validate_stream_plans plans) (fresh hub) raw name
        (reach, empty-IsSafeLog) refl m en

  -- The run claimed the name; a run that returned exit code 0 claimed the name of every plan.
  abbrev pub ClaimedBy : Options → List StreamPlan → Hub → Text → Type 0
  ClaimedBy opts plans hub raw =
      In raw (run_parallel world opts plans hub).1.claimed
      ⊎ ((o : HubOutcome) × (p : StreamPlan) × ((run_parallel world opts plans hub).0 ≡ ok o)
          × (o.exit_code ≡ pos 0)
          × In p plans
          × (p.name ≡ raw))

  claimed_name :
      (opts : Options) (plans : List StreamPlan) (hub : Hub) (raw : Text)
      → ClaimedBy opts plans hub raw
      → In raw (run_parallel world opts plans hub).1.claimed
  claimed_name opts plans hub raw (inl m) = m
  claimed_name opts plans hub raw (inr (o, p, h, zero, m, named)) =
      subst (λ t. In t (run_parallel world opts plans hub).1.claimed) named
        (run_parallel-claimed world opts plans hub o p h zero m)

  -- However a run of streams ends, and whatever calls processes of other pids make between its own, under a name that the
  -- run claimed, and under the name of every plan where it returned exit code 0, the registry has no lease then, or one whose
  -- pid is not the run's; the registry that it finds is one that calls lead to.
  pub run_parallel-releases :
      (opts : Options) (plans : List StreamPlan) (hub : Hub) (raw name : Text)
      → Reach hub.registry
      → ClaimedBy opts plans hub raw
      → norm_name raw ≡ ok name
      → (find name (load_lenient (run_parallel world opts plans hub).1.registry) ≡ none)
        ⊎ ((e : Entry) × (find name (load_lenient (run_parallel world opts plans hub).1.registry)
              ≡ some e)
            × (lease_pid e ≢ some me))
  run_parallel-releases opts plans hub raw name reach claimed en =
      elim (Option-cases
        (find name (load_lenient (run_parallel world opts plans hub).1.registry))) [
          | inl gone ↦ inl gone
          | inr (e, found) ↦ inr (
            e,
            found,
            run_parallel-IsFree opts plans hub raw name reach
                (claimed_name opts plans hub raw claimed) en e (find-In name _ e found),
          )
        ]
