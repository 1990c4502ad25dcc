-- ===== src/Lease/Progress.antt =====
-- memory/stream_lease.py: dead leases do not keep a claim from its slot.
use agentic_loop_template.Base.{
  ◌≡◌, ◌≢◌, refl, ◌∙◌, inl, inr, Bool, true, false, List, [], ◌∷◌, Option, none, some, In,
  if◌then◌else◌, Bool-cases, Option-cases, ok, >>=-eq-ok, raise_if-eq-ok, ok-eq-ok,
}
use agentic_loop_template.Base.Text.{Text, text_eq, text_eq_iff, is_empty}
use agentic_loop_template.Errors.{no_owned_paths}
use agentic_loop_template.Streams.Paths.{norm_owned, token_covers, owned_covers}
use agentic_loop_template.Streams.Plans.{covers_either}
use agentic_loop_template.Streams.Plans.Specs.{norm_owned_idem}
use agentic_loop_template.Lease.Liveness.{System, Entry, lease, lease_pid_dead}
use agentic_loop_template.Lease.Registry.{
  Leases, RegistryFile, load_strict, find, put, norm_name, norm_each, norm_paths, or_later,
  overlap_with, overlap_pair, owned_of, is_object, is_live, check_live, no_pair, new_record, stays,
  drop_dead_overlapping, ClaimArgs,
}
use agentic_loop_template.Lease.Registry.Entries.{Item}
use agentic_loop_template.Lease.Requests.{Reply, granted, live_record, take_slot, claim}

-- Every token of the list can be normalised.
abbrev pub AllValid : List Text → Type 0
AllValid ps = (raw : Text) → In raw ps → (q : Text) × (norm_owned raw ≡ ok q)

covers_either-total :
    (oa ob a b : Text)
    → norm_owned oa ≡ ok a
    → norm_owned ob ≡ ok b
    → (c : Bool) × (covers_either oa ob ≡ ok c)
unfolding covers_either owned_covers
covers_either-total oa ob a b ea eb = elim (Bool-cases (token_covers a b)) [
  | inl covered ↦ (true, rw (ea, eb, covered) refl)
  | inr free ↦ (token_covers b a, rw (ea, eb, free) refl)
]

overlap_with-total :
    (oa a : Text) (obs : List Text)
    → norm_owned oa ≡ ok a
    → AllValid obs
    → (r : Option (Text × Text)) × (overlap_with oa obs ≡ ok r)
unfolding overlap_with
overlap_with-total oa a [] ea valid = (none, refl)
overlap_with-total oa a (ob ∷ obs) ea valid =
    let (b, eb) = valid ob (inl refl) in
    let (c, ec) = covers_either-total oa ob a b ea eb in
    let (r, er) = overlap_with-total oa a obs ea (λ raw m. valid raw (inr m)) in
    elim (Bool-cases c) [
      | inl hit ↦ (some (oa, ob), rw (ec, hit) refl)
      | inr clear ↦ (r, rw (ec, clear) er)
    ]

overlap_pair-total :
    (oas obs : List Text)
    → AllValid oas
    → AllValid obs
    → (r : Option (Text × Text)) × (overlap_pair oas obs ≡ ok r)
unfolding overlap_pair or_later
overlap_pair-total [] obs va vb = (none, refl)
overlap_pair-total (oa ∷ oas) obs va vb =
    let (a, ea) = va oa (inl refl) in
    let (found, ef) = overlap_with-total oa a obs ea vb in
    let (r, er) = overlap_pair-total oas obs (λ raw m. va raw (inr m)) vb in
    elim (Option-cases found) [
      | inl clear ↦ (r, rw (ef, clear) er)
      | inr (p, hit) ↦ (some p, rw (ef, hit) refl)
    ]

stays-total :
    (sys : System) (name : Text) (paths : List Text) (other : Text) (e : Entry)
    → AllValid paths
    → AllValid (owned_of e)
    → (keep : Bool) × (stays sys name paths other e ≡ ok keep)
unfolding stays
stays-total sys name paths other e vp ve = elim (Bool-cases (text_eq other name)) [
  | inl mine ↦ (true, rw mine refl)
  | inr another ↦ elim (Bool-cases (is_object e)) [
    | inr bad ↦ (false, rw (another, bad) refl)
    | inl object ↦ elim (Bool-cases (lease_pid_dead sys e)) [
      | inr alive ↦ (true, rw (another, object, alive) refl)
      | inl dead ↦
          let (pair, ep) = overlap_pair-total paths (owned_of e) vp ve in
          (no_pair pair, rw (another, object, dead, ep) refl)
    ]
  ]
]

-- The tokens of every entry can be normalised.
abbrev pub ValidTokens : Leases → Type 0
ValidTokens leases = (m : Text) (e : Entry) → In {A = Item} (m, e) leases → AllValid (owned_of e)

drop_dead-total :
    (sys : System) (name : Text) (paths : List Text) (leases : Leases)
    → AllValid paths
    → ValidTokens leases
    → (kept : Leases) × (drop_dead_overlapping sys name paths leases ≡ ok kept)
unfolding drop_dead_overlapping
drop_dead-total sys name paths [] vp vl = ([], refl)
drop_dead-total sys name paths ((other, e) ∷ leases) vp vl =
    let (keep, ek) = stays-total sys name paths other e vp (vl other e (inl refl)) in
    let (kept, er) = drop_dead-total sys name paths leases vp (λ m x i. vl m x (inr i)) in
    (if keep then (other, e) ∷ kept else kept, rw (ek, er) refl)

-- No lease of another stream is live.
abbrev pub OthersDead : System → Text → Leases → Type 0
OthersDead sys name leases =
    (m : Text) (e : Entry) → In {A = Item} (m, e) leases → m ≢ name → is_live sys e ≡ false

check_live-dead :
    (sys : System) (name : Text) (paths : List Text) (leases : Leases)
    → OthersDead sys name leases
    → check_live sys name paths leases ≡ ok tt
unfolding check_live
check_live-dead sys name paths [] dead = refl
check_live-dead sys name paths ((other, e) ∷ leases) dead =
    let later = check_live-dead sys name paths leases (λ m x i. dead m x (inr i)) in
    elim (Bool-cases (text_eq other name)) [
      | inl mine ↦ rw mine later
      | inr another ↦
          let not_live : is_live sys e ≡ false =
            dead other e (inl refl) (λ same. cc (another, (text_eq_iff other name).1 same)) in
          rw (another, not_live) later
    ]

norm_each-valid : (raws paths : List Text) → norm_each raws ≡ ok paths → AllValid paths
unfolding norm_each
norm_each-valid [] paths h raw m =
    let none_left : [] ≡ paths = ok-eq-ok h in absurd (rw (← none_left) at m)
norm_each-valid (r ∷ raws) paths h raw m =
    let (q, eq, h1) = >>=-eq-ok (norm_owned r) _ h in
    let (qs, es, h2) = >>=-eq-ok (norm_each raws) _ h1 in
    let same : q ∷ qs ≡ paths = ok-eq-ok h2 in
    elim (rw (← same) at m) [
      | inl here ↦ (q, rw here (norm_owned_idem r q eq))
      | inr there ↦ norm_each-valid raws qs es raw there
    ]

norm_paths-valid : (raws paths : List Text) → norm_paths raws ≡ ok paths → AllValid paths
unfolding norm_paths
norm_paths-valid raws paths h =
    let (out, each, h1) = >>=-eq-ok (norm_each raws) _ h in
    let (full, built) = raise_if-eq-ok (is_empty out) no_owned_paths (ok out) h1 in
    norm_each-valid raws paths (each ∙ built)

-- A claim whose name and paths are well formed returns when no lease of another stream is live and its own slot is free or
-- dead, whatever leases of dead processes overlap it, on a registry whose tokens can all be normalised and whose pids are all
-- within the model: `int` reads them, or raises a TypeError or a ValueError, and those read fit into a C int.
pub claim-progress :
    (sys : System) (args : ClaimArgs) (file : RegistryFile) (name : Text) (paths : List Text)
    (leases : Leases)
    → norm_name args.name ≡ ok name
    → norm_paths args.owned_paths ≡ ok paths
    → load_strict file ≡ ok leases
    → ValidTokens leases
    → OthersDead sys name leases
    → live_record sys (find name leases) ≡ none
    → (reply : Reply) × (after : Leases) × (claim sys args file ≡ ok (reply, after))
unfolding claim take_slot
claim-progress sys args file name paths leases en ep el valid dead slot =
    let (kept, ek) =
      drop_dead-total sys name paths leases (norm_paths-valid args.owned_paths paths ep) valid in
    (
      granted name (new_record sys args paths),
      put name (lease (new_record sys args paths)) kept,
      rw (en, ep, el, check_live-dead sys name paths leases dead, slot, ek) refl,
    )
