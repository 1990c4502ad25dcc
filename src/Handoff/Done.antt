-- ===== src/Handoff/Done.antt =====
-- memory/validate_handoff.py: what an accepted DONE handoff carries.
use agentic_loop_template.Base.{
  ◌≡◌, ◌≢◌, refl, ◌↔◌, ◌⊎◌, inl, inr, Bool, true, false, not, ◌&&◌, ◌||◌, List, [], ◌∷◌, ◌++◌,
  Bool-cases, if◌then◌else◌,
}
use agentic_loop_template.Base.Text.{Text, text}
use agentic_loop_template.Json.{
  Json, null, boolean, integer, float, string, array, object, Fields, get, truthy, equals_text,
  is_null, is_dict,
}
use agentic_loop_template.Json.Shapes.{is_dict_iff, is_null_iff, equals_text_iff}
use agentic_loop_template.Handoff.{
  Problem, done_needs_no_target, done_needs_git_sync, done_needs_lessons, done_needs_metrics,
  Schema, problems_of, when, is_verified, strict_extras, done_extras, validate_handoff,
}

-- Handed to nobody.
abbrev pub NoTarget : Fields → Type 0
NoTarget fs =
    (get (text "handoff_to") fs ≡ null) ⊎ (get (text "handoff_to") fs ≡ string (text "None"))

-- A git status that is an object and says that it is verified.
abbrev pub IsVerified : Json → Type 0
IsVerified v =
    (status : Fields) × (v ≡ object status) × (truthy (get (text "verified") status) ≡ true)

-- What the strict checks ask for beside the target.
pub record StrictEvidence (fs : Fields) : Type 0 where
  -- git verified, or waived
  pub git :
      (truthy (get (text "sync_waived") fs) ≡ true) ⊎ IsVerified (get (text "git_sync_status") fs)
  -- lessons, or a distillation
  pub lessons :
      (truthy (get (text "lessons_learned") fs) ≡ true)
      ⊎ (truthy (get (text "distillation_performed") fs) ≡ true)
  pub metrics : (found : Fields) × (get (text "metrics") fs ≡ object found)

-- The evidence that the program asks of a DONE handoff.
pub record DoneEvidence (fs : Fields) : Type 0 where
  pub no_target : NoTarget fs
  pub strict : StrictEvidence fs

is_verified_iff : (v : Json) → (is_verified v ≡ true) ↔ IsVerified v
unfolding is_verified
is_verified_iff (object fs) = (
  λ h. (fs, refl, h),
  λ h. let (status, e, verified) = h in let same : fs ≡ status = cc e in rw same verified,
)
is_verified_iff null = (λ h. cc h, λ h. cc h.1)
is_verified_iff (boolean b) = (λ h. cc h, λ h. cc h.1)
is_verified_iff (integer n) = (λ h. cc h, λ h. cc h.1)
is_verified_iff (float x) = (λ h. cc h, λ h. cc h.1)
is_verified_iff (string s) = (λ h. cc h, λ h. cc h.1)
is_verified_iff (array vs) = (λ h. cc h, λ h. cc h.1)

-- One of two tests passes.
either_iff : (a b : Bool) → (not a && not b ≡ false) ↔ ((a ≡ true) ⊎ (b ≡ true))
either_iff true b = (λ h. inl refl, λ h. refl)
either_iff false true = (λ h. inr refl, λ h. refl)
either_iff false false = (λ h. cc h, λ h. elim h [ inl x ↦ cc x | inr y ↦ cc y ])

or_iff : (a b : Bool) → (a || b ≡ true) ↔ ((a ≡ true) ⊎ (b ≡ true))
or_iff true b = (λ h. inl refl, λ h. refl)
or_iff false b = (λ h. inr h, λ h. elim h [ inl x ↦ cc x | inr y ↦ y ])

no_problem_iff :
    (c : Bool) (p : Problem) (rest : List Problem)
    → (when c p ++ rest ≡ []) ↔ ((c ≡ false) × (rest ≡ []))
unfolding when
no_problem_iff true p rest = (λ h. cc h, λ h. cc h.0)
no_problem_iff false p rest = (λ h. (refl, h), λ h. h.1)

negated_iff : (c : Bool) → (not c ≡ false) ↔ (c ≡ true)
negated_iff true = (λ h. refl, λ h. refl)
negated_iff false = (λ h. cc h, λ h. cc h)

-- The three tests, each with its problem.
tests_iff :
    (git lessons metrics : Bool)
    → (when git done_needs_git_sync
          ++ when lessons done_needs_lessons
          ++ when metrics done_needs_metrics
        ≡ [])
      ↔ ((git ≡ false) × (lessons ≡ false) × (metrics ≡ false))
unfolding when
tests_iff true l m = (λ h. cc h, λ h. cc h.0)
tests_iff false true m = (λ h. cc h, λ h. cc h.1)
tests_iff false false true = (λ h. cc h, λ h. cc h.2)
tests_iff false false false = (λ h. (refl, refl, refl), λ h. refl)

evidence_of : (fs : Fields) → strict_extras fs ≡ [] → StrictEvidence fs
unfolding strict_extras
evidence_of fs h =
    let (no_git, no_lessons, no_metrics) =
      (tests_iff
          (not (truthy (get (text "sync_waived") fs))
            && not (is_verified (get (text "git_sync_status") fs)))
          (not (truthy (get (text "lessons_learned") fs))
            && not (truthy (get (text "distillation_performed") fs)))
          (not (is_dict (get (text "metrics") fs)))).0
        h in
    record {
      git = elim ((either_iff _ _).0 no_git) [
        | inl waived ↦ inl waived
        | inr checked ↦ inr ((is_verified_iff _).0 checked)
      ];
      lessons = (either_iff _ _).0 no_lessons;
      metrics = (is_dict_iff _).0 ((negated_iff _).0 no_metrics);
    }

no_extras : (fs : Fields) → StrictEvidence fs → strict_extras fs ≡ []
unfolding strict_extras
no_extras fs e =
    (tests_iff
        (not (truthy (get (text "sync_waived") fs))
          && not (is_verified (get (text "git_sync_status") fs)))
        (not (truthy (get (text "lessons_learned") fs))
          && not (truthy (get (text "distillation_performed") fs)))
        (not (is_dict (get (text "metrics") fs)))).1
      (
        (either_iff _ _).1 (elim e.git [
          | inl waived ↦ inl waived
          | inr checked ↦ inr ((is_verified_iff _).1 checked)
        ]),
        (either_iff _ _).1 e.lessons,
        (negated_iff _).1 ((is_dict_iff _).1 e.metrics),
      )

strict_extras_iff : (fs : Fields) → (strict_extras fs ≡ []) ↔ StrictEvidence fs
strict_extras_iff fs = (evidence_of fs, no_extras fs)

target_iff :
    (fs : Fields)
    → (not (
          is_null (get (text "handoff_to") fs)
          || equals_text (text "None") (get (text "handoff_to") fs))
        ≡ false)
      ↔ NoTarget fs
target_iff fs = (
  λ h. elim ((or_iff _ _).0 ((negated_iff _).0 h)) [
    | inl nobody ↦ inl ((is_null_iff _).0 nobody)
    | inr named ↦ inr ((equals_text_iff (text "None") _).0 named)
  ],
  λ h. (negated_iff _).1 (
      (or_iff _ _).1 (elim h [
        | inl nobody ↦ inl ((is_null_iff _).1 nobody)
        | inr named ↦ inr ((equals_text_iff (text "None") _).1 named)
      ])),
)

strict_part_iff :
    (strict : Bool) (fs : Fields)
    → ((if strict then strict_extras fs else []) ≡ []) ↔ ((strict ≡ false) ⊎ StrictEvidence fs)
strict_part_iff true fs = (
  λ h. inr ((strict_extras_iff fs).0 h),
  λ h. elim h [ inl lax ↦ cc lax | inr e ↦ (strict_extras_iff fs).1 e ],
)
strict_part_iff false fs = (λ h. inl refl, λ h. refl)

-- The program's own checks note no problem exactly when the status is not DONE, or the handoff names no target and, where
-- the checks are strict, carries the evidence: git verified or waived, lessons or a distillation, and a metrics object.
pub done_extras_iff :
    (fs : Fields) (strict : Bool)
    → (done_extras fs strict ≡ []) ↔ (
        (get (text "status") fs ≢ string (text "DONE"))
        ⊎ (NoTarget fs × ((strict ≡ false) ⊎ StrictEvidence fs)))
unfolding done_extras
done_extras_iff fs strict = elim (Bool-cases (equals_text (text "DONE") (get (text "status") fs))) [
  | inr other ↦
      rw other
        (λ h. inl (λ is_done. cc (other, (equals_text_iff (text "DONE") _).1 is_done)), λ h. refl)
  | inl done ↦ rw done (
    λ h.
        let (target, rest) = (no_problem_iff _ done_needs_no_target _).0 h in
        inr ((target_iff fs).0 target, (strict_part_iff strict fs).0 rest),
    λ h. elim h [
      | inl other ↦ absurd (other ((equals_text_iff (text "DONE") _).0 done))
      | inr (target, rest) ↦
          (no_problem_iff _ done_needs_no_target _).1
            ((target_iff fs).1 target, (strict_part_iff strict fs).1 rest)
    ],
  )
]

-- A DONE handoff that the strict checks pass carries the evidence.
pub strict-DoneEvidence :
    (fs : Fields)
    → get (text "status") fs ≡ string (text "DONE")
    → done_extras fs true ≡ []
    → DoneEvidence fs
strict-DoneEvidence fs done h = elim ((done_extras_iff fs true).0 h) [
  | inl other ↦ absurd (other done)
  | inr (target, inl lax) ↦ cc lax
  | inr (target, inr strict) ↦ record { no_target = target; strict = strict }
]

pub append_empty : (xs ys : List Problem) → xs ++ ys ≡ [] → (xs ≡ []) × (ys ≡ [])
append_empty [] ys h = (refl, h)
append_empty (x ∷ xs) ys h = cc h

no_messages : (messages : List Text) → problems_of messages ≡ [] → messages ≡ []
unfolding problems_of
no_messages [] h = refl
no_messages (m ∷ ms) h = cc h

-- A handoff that is accepted has no message of the schema, and passes the program's own checks.
pub validate_handoff-ok :
    (schema : Schema) (fs : Fields) (strict : Bool)
    → validate_handoff schema (object fs) strict ≡ []
    → (schema (object fs) ≡ []) × (done_extras fs strict ≡ [])
unfolding validate_handoff
validate_handoff-ok schema fs strict h =
    let (no_problems, extras) = append_empty _ _ h in
    (no_messages (schema (object fs)) no_problems, extras)
