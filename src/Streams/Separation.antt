-- ===== src/Streams/Separation.antt =====
-- memory/streams.py, the parts together: plans, the gate and the cover test keep streams apart.
use agentic_loop_template.Base.{
  ◌≡◌, ◌≢◌, sym, subst, inl, inr, true, false, List, [], ◌∷◌, In, Bool-cases, ok, >>=-eq-ok,
}
use agentic_loop_template.Base.Text.{Text}
use agentic_loop_template.Streams.Paths.{
  norm_owned, norm_rel, token_owns, owned_by_any, path_is_owned, token_covers, owned_covers,
}
use agentic_loop_template.Streams.Paths.Cover.{token_covers-owns}
use agentic_loop_template.Streams.Gate.{is_skipped, files_outside_owned}
use agentic_loop_template.Streams.Gate.Owned.{gate_passed}
use agentic_loop_template.Streams.Plans.{StreamPlan, validate_stream_plans}
use agentic_loop_template.Streams.Plans.Disjoint.{AllTidy, validate-disjoint}

-- When two streams of a validated list of plans, whose tokens have at most one trailing slash, both
-- pass the gate, no counted file that the one changed has the normalised path of a file that the
-- other changed.
pub gates-disjoint :
    (plans : List StreamPlan) (pa pb : StreamPlan) (ca cb : List Text) (fa fb : Text)
    → validate_stream_plans plans ≡ ok tt
    → In pa plans
    → In pb plans
    → pa.name ≢ pb.name
    → AllTidy pa.owned_paths
    → AllTidy pb.owned_paths
    → files_outside_owned ca pa.owned_paths ≡ ok []
    → files_outside_owned cb pb.owned_paths ≡ ok []
    → In fa ca
    → In fb cb
    → is_skipped (norm_rel fa) ≡ false
    → norm_rel fa ≢ norm_rel fb
gates-disjoint plans pa pb ca cb fa fb h ma mb ne ta tb ga gb mfa mfb counted same =
    validate-disjoint plans pa pb (norm_rel fa) h ma mb ne ta tb
      (gate_passed ca pa.owned_paths ga fa mfa counted)
      (subst (λ r. path_is_owned r pb.owned_paths ≡ ok true) (sym same)
        (gate_passed cb pb.owned_paths gb fb mfb (rw (← same) counted)))

-- A token that `owned_covers` says is covered owns no path that the covering token does not own.
pub owned_covers-owns :
    (a b path : Text)
    → owned_covers a b ≡ ok true
    → path_is_owned path (b ∷ []) ≡ ok true
    → path_is_owned path (a ∷ []) ≡ ok true
unfolding owned_covers path_is_owned owned_by_any
owned_covers-owns a b path c o =
    let (a_n, ea, c') = >>=-eq-ok (norm_owned a) _ c in
    let (b_n, eb, c'') = >>=-eq-ok (norm_owned b) _ c' in
    let covers : token_covers a_n b_n ≡ true = cc c'' in
    let owns_b : token_owns (norm_rel path) b_n ≡ true =
      elim (Bool-cases (token_owns (norm_rel path) b_n)) [
        | inl x ↦ x
        | inr x ↦ cc (rw (eb, x) at o)
      ] in
    rw (ea, token_covers-owns a_n b_n (norm_rel path) covers owns_b)
