-- ===== src/Streams/Plans/Disjoint.antt =====
-- memory/streams.py: what a validated set of plans promises about the files of its streams.
use agentic_loop_template.Base.{
  ◌≡◌, ◌≢◌, refl, sym, ap, ◌∙◌, subst, inl, inr, Bool, true, false, ◌||◌, List, [], ◌∷◌, arith, In,
  Bool-cases, ok, >>=-eq-ok, >>-eq-ok, if_err-eq-ok,
}
use agentic_loop_template.Base.Text.{Text}
use agentic_loop_template.Streams.Paths.{
  norm_rel, norm_owned, token_owns, owned_by_any, path_is_owned, token_covers, owned_covers,
}
use agentic_loop_template.Streams.Paths.Cover.{IsTidy, uncovered_disjoint}
use agentic_loop_template.Streams.Plans.{
  StreamPlan, covers_either, check_token, check_tokens, check_against, check_pairs,
  validate_stream_plans,
}

-- Two raw tokens are accepted side by side: both are valid, and neither covers the other.
pub record Apart (oa ob : Text) : Type 0 where
  pub left : Text
  pub right : Text
  pub norm_left : norm_owned oa ≡ ok left
  pub norm_right : norm_owned ob ≡ ok right
  pub uncovered : (token_covers left right || token_covers right left) ≡ false

pub Apart-sym : (oa ob : Text) → Apart oa ob → Apart ob oa
Apart-sym oa ob h = record {
  left = h.right;
  right = h.left;
  norm_left = h.norm_right;
  norm_right = h.norm_left;
  uncovered = ground (arith, h.uncovered);
}

owned_covers-ok :
    (oa ob : Text) {c : Bool}
    → owned_covers oa ob ≡ ok c
    → (a : Text) × (b : Text) × (norm_owned oa ≡ ok a)
      × (norm_owned ob ≡ ok b)
      × (token_covers a b ≡ c)
unfolding owned_covers
owned_covers-ok oa ob h =
    let (a, ea, ha) = >>=-eq-ok (norm_owned oa) _ h in
    let (b, eb, hb) = >>=-eq-ok (norm_owned ob) _ ha in (a, b, ea, eb, ground arith)

pub covers_either-Apart : (oa ob : Text) → covers_either oa ob ≡ ok false → Apart oa ob
unfolding covers_either
covers_either-Apart oa ob h =
    let (c, first, rest) = >>=-eq-ok (owned_covers oa ob) _ h in
    let c_false : c ≡ false = elim (Bool-cases c) [ inl t ↦ cc (rw t at rest) | inr f ↦ f ] in
    let second : owned_covers ob oa ≡ ok false = rw c_false at rest in
    let (a, b, ea, eb, ab) = owned_covers-ok oa ob first in
    let (b', a', eb', ea', ba) = owned_covers-ok ob oa second in
    let same_a : a' ≡ a = ground arith in
    let same_b : b' ≡ b = ground arith in
    record {
      left = a;
      right = b;
      norm_left = ea;
      norm_right = eb;
      uncovered = rw (ab, c_false, ← same_a, ← same_b) ba;
    }

-- Every token of the one list is apart from every token of the other.
abbrev pub ListsApart : List Text → List Text → Type 0
ListsApart oas obs = (oa ob : Text) → In oa oas → In ob obs → Apart oa ob

module _ (pa pb : Text) where
  check_token-Apart :
      (oa : Text) (obs : List Text)
      → check_token pa pb oa obs ≡ ok tt
      → (ob : Text) → In ob obs
      → Apart oa ob
  unfolding check_token
  check_token-Apart oa [] h ob m = elim m [ ]
  check_token-Apart oa (ob' ∷ obs) h ob m =
      let (c, e, rest) = >>=-eq-ok (covers_either oa ob') _ h in
      let (none_found, later) = if_err-eq-ok c _ (check_token pa pb oa obs) rest in
      elim m [
        | inl here ↦
            subst (λ t. Apart oa t) (sym here) (covers_either-Apart oa ob' (e ∙ ap ok none_found))
        | inr there ↦ check_token-Apart oa obs later ob there
      ]

  check_tokens-Apart :
      (oas obs : List Text) → check_tokens pa pb oas obs ≡ ok tt → ListsApart oas obs
  unfolding check_tokens
  check_tokens-Apart [] obs h oa ob ma mb = elim ma [ ]
  check_tokens-Apart (oa' ∷ oas) obs h oa ob ma mb =
      let (first, later) = >>-eq-ok (check_token pa pb oa' obs) (check_tokens pa pb oas obs) h in
      elim ma [
        | inl here ↦ subst (λ t. Apart t ob) (sym here) (check_token-Apart oa' obs first ob mb)
        | inr there ↦ check_tokens-Apart oas obs later oa ob there mb
      ]

check_against-Apart :
    (pa : StreamPlan) (plans : List StreamPlan)
    → check_against pa plans ≡ ok tt
    → (pb : StreamPlan) → In pb plans
    → ListsApart pa.owned_paths pb.owned_paths
unfolding check_against
check_against-Apart pa [] h pb m = elim m [ ]
check_against-Apart pa (pb' ∷ plans) h pb m =
    let (first, later) = >>-eq-ok _ (check_against pa plans) h in
    elim m [
      | inl here ↦
          subst (λ p. ListsApart pa.owned_paths p.owned_paths) (sym here)
            (check_tokens-Apart pa.name pb'.name pa.owned_paths pb'.owned_paths first)
      | inr there ↦ check_against-Apart pa plans later pb there
    ]

check_pairs-Apart :
    (plans : List StreamPlan)
    → check_pairs plans ≡ ok tt
    → (pa pb : StreamPlan) → In pa plans
    → In pb plans
    → pa.name ≢ pb.name
    → ListsApart pa.owned_paths pb.owned_paths
unfolding check_pairs
check_pairs-Apart [] h pa pb ma mb ne = elim ma [ ]
check_pairs-Apart (p ∷ plans) h pa pb ma mb ne =
    let (first, later) = >>-eq-ok (check_against p plans) (check_pairs plans) h in
    go first (λ na nb. check_pairs-Apart plans later pa pb na nb ne) ma mb
  where
    go :
        check_against p plans ≡ ok tt
        → (In pa plans → In pb plans → ListsApart pa.owned_paths pb.owned_paths)
        → In pa (p ∷ plans)
        → In pb (p ∷ plans)
        → ListsApart pa.owned_paths pb.owned_paths
    go first later (inl ea) (inl eb) = absurd (ne (ap (λ q. q.name) (ea ∙ sym eb)))
    go first later (inl ea) (inr nb) =
        subst (λ q. ListsApart q.owned_paths pb.owned_paths) (sym ea)
          (check_against-Apart p plans first pb nb)
    go first later (inr na) (inl eb) = λ oa ob moa mob. Apart-sym ob oa (
        check_against-Apart p plans first pa na ob oa (subst (λ q. In ob q.owned_paths) eb mob) moa)
    go first later (inr na) (inr nb) = later na nb

-- Any two plans of different names in a validated list have tokens that are apart.
pub validate-Apart :
    (plans : List StreamPlan)
    → validate_stream_plans plans ≡ ok tt
    → (pa pb : StreamPlan) → In pa plans
    → In pb plans
    → pa.name ≢ pb.name
    → ListsApart pa.owned_paths pb.owned_paths
unfolding validate_stream_plans
validate-Apart plans h =
    let pairs : check_pairs plans ≡ ok tt = ground arith in check_pairs-Apart plans pairs

-- A path that is owned has a token in the list that owns it.
pub owner :
    (rel : Text) (paths : List Text)
    → owned_by_any rel paths ≡ ok true
    → (raw : Text) × (own : Text) × In raw paths
      × (norm_owned raw ≡ ok own)
      × (token_owns rel own ≡ true)
unfolding owned_by_any
owner rel [] h = cc
owner rel (raw ∷ paths) h =
    let (own, e, found) = >>=-eq-ok (norm_owned raw) _ h in
    elim (Bool-cases (token_owns rel own)) [
      | inl yes_owned ↦ (raw, own, inl refl, e, yes_owned)
      | inr not_owned ↦
          let (raw', own', m, e', o) = owner rel paths (rw not_owned at found) in
          (raw', own', inr m, e', o)
    ]

-- Every token of the list has at most one trailing slash once it is normalised.
abbrev pub AllTidy : List Text → Type 0
AllTidy paths = (raw own : Text) → In raw paths → norm_owned raw ≡ ok own → IsTidy own

-- A list of one token that is in normal form.
pub AllTidy-one : (t : Text) → norm_owned t ≡ ok t → IsTidy t → AllTidy (t ∷ [])
AllTidy-one t normal tidy raw own (inl same) e = subst IsTidy (cc (e, same, normal)) tidy
AllTidy-one t normal tidy raw own (inr none_left) e = elim none_left [ ]

pub ListsApart-owned :
    (oas obs : List Text) (rel : Text)
    → ListsApart oas obs
    → AllTidy oas
    → AllTidy obs
    → owned_by_any rel oas ≡ ok true
    → owned_by_any rel obs ≡ ok true
    → ⊥
ListsApart-owned oas obs rel apart ta tb ha hb =
    let (ra, a, ma, ea, oa) = owner rel oas ha in
    let (rb, b, mb, eb, ob) = owner rel obs hb in
    let ap_ab = apart ra rb ma mb in
    let same_a : ap_ab.left ≡ a = cc (ea, ap_ab.norm_left) in
    let same_b : ap_ab.right ≡ b = cc (eb, ap_ab.norm_right) in
    let free : (token_covers a b || token_covers b a) ≡ false =
      rw (← same_a, ← same_b) ap_ab.uncovered in
    ground (arith, uncovered_disjoint a b rel (ta ra a ma ea) (tb rb b mb eb) free)

-- In a list of plans that validation accepts, whose tokens have at most one trailing slash, no path
-- is owned by two plans of different names.
pub validate-disjoint :
    (plans : List StreamPlan) (pa pb : StreamPlan) (path : Text)
    → validate_stream_plans plans ≡ ok tt
    → In pa plans
    → In pb plans
    → pa.name ≢ pb.name
    → AllTidy pa.owned_paths
    → AllTidy pb.owned_paths
    → path_is_owned path pa.owned_paths ≡ ok true
    → path_is_owned path pb.owned_paths ≢ ok true
unfolding path_is_owned
validate-disjoint plans pa pb path h ma mb ne ta tb ha hb =
    ListsApart-owned pa.owned_paths pb.owned_paths (norm_rel path)
      (validate-Apart plans h pa pb ma mb ne) ta tb ha hb
