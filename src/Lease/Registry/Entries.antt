-- ===== src/Lease/Registry/Entries.antt =====
-- memory/stream_lease.py: which entries an update of the registry keeps.
use agentic_loop_template.Base.{◌≡◌, ◌≢◌, ap, ◌∙◌, ◌⊎◌, inl, inr, [], ◌∷◌, In, Bool-cases}
use agentic_loop_template.Base.Text.{Text, text_eq, text_eq_iff}
use agentic_loop_template.Lease.Liveness.{Entry}
use agentic_loop_template.Lease.Registry.{Leases, put, remove}

abbrev pub Item : Type 0
Item = Text × Entry

module _ (name : Text) (e : Entry) where
  pub put-In :
      (leases : Leases) (m : Text) (f : Entry)
      → In {A = Item} (m, f) (put name e leases)
      → ((m ≡ name) × (f ≡ e)) ⊎ In {A = Item} (m, f) leases
  unfolding put
  put-In [] m f (inl here) = inl (ap (λ (x : Item). x.0) here, ap (λ (x : Item). x.1) here)
  put-In [] m f (inr there) = elim there [ ]
  put-In ((n, e') ∷ leases) m f i = elim (Bool-cases (text_eq n name)) [
    | inl found ↦ elim (rw (found, put) at i) [
      | inl here ↦
          inl (
            ap (λ (x : Item). x.0) here ∙ (text_eq_iff n name).0 found,
            ap (λ (x : Item). x.1) here,
          )
      | inr there ↦ inr (inr there)
    ]
    | inr other ↦ elim (rw (other, put) at i) [
      | inl here ↦ inr (inl here)
      | inr there ↦ elim (put-In leases m f there) [ inl new ↦ inl new | inr old ↦ inr (inr old) ]
    ]
  ]

  pub put-In_other :
      (leases : Leases) (m : Text) (f : Entry)
      → m ≢ name
      → In {A = Item} (m, f) leases
      → In {A = Item} (m, f) (put name e leases)
  unfolding put
  put-In_other [] m f ne i = elim i [ ]
  put-In_other ((n, e') ∷ leases) m f ne i = elim (Bool-cases (text_eq n name)) [
    | inl found ↦ rw found (elim i [
      | inl here ↦ absurd (ne (ap (λ (x : Item). x.0) here ∙ (text_eq_iff n name).0 found))
      | inr there ↦ inr there
    ])
    | inr other ↦
        rw other
          (elim i [ inl here ↦ inl here | inr there ↦ inr (put-In_other leases m f ne there) ])
  ]

module _ (name : Text) where
  pub remove-In : (leases : Leases) (x : Item) → In x (remove name leases) → In x leases
  unfolding remove
  remove-In [] x i = elim i [ ]
  remove-In ((n, e) ∷ leases) x i = elim (Bool-cases (text_eq n name)) [
    | inl found ↦ inr (rw (found, remove) at i)
    | inr other ↦ elim (rw (other, remove) at i) [
      | inl here ↦ inl here
      | inr there ↦ inr (remove-In leases x there)
    ]
  ]

  pub remove-In_other :
      (leases : Leases) (m : Text) (f : Entry)
      → m ≢ name
      → In {A = Item} (m, f) leases
      → In {A = Item} (m, f) (remove name leases)
  unfolding remove
  remove-In_other [] m f ne i = elim i [ ]
  remove-In_other ((n, e) ∷ leases) m f ne i = elim (Bool-cases (text_eq n name)) [
    | inl found ↦ rw found (elim i [
      | inl here ↦ absurd (ne (ap (λ (x : Item). x.0) here ∙ (text_eq_iff n name).0 found))
      | inr there ↦ there
    ])
    | inr other ↦
        rw other
          (elim i [ inl here ↦ inl here | inr there ↦ inr (remove-In_other leases m f ne there) ])
  ]
