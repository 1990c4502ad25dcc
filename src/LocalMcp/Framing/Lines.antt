-- ===== src/LocalMcp/Framing/Lines.antt =====
-- memory/local_mcp/framing.py: `take_line` against the text of the stream, however it is cut into chunks.
use agentic_loop_template.Base.{
  List, [], ◌∷◌, ◌++◌, Option, none, some, ◌==◌, ◌≡◌, refl, sym, ap, ◌∙◌, inl, inr, Bool-cases,
  Option-cases,
}
use mathlib.Core.List.{append_assoc, append-nil}
use agentic_loop_template.LocalMcp.Framing.{
  Bytes, newline, Pull, woken, chunk, cut_line, Taken, after_cut, take_line,
}

-- The bytes of the pulls to come.
abbrev pub bytes_of : List Pull → Bytes
bytes_of [] = []
bytes_of (woken ∷ pulls) = bytes_of pulls
bytes_of (chunk c ∷ pulls) = c ++ bytes_of pulls

-- The bytes of a line that was taken.
abbrev pub line_of : Option Bytes → Bytes
line_of none = []
line_of (some line) = line

pub cut_line-append : (s line rest : Bytes) → cut_line s ≡ some (line, rest) → line ++ rest ≡ s
unfolding cut_line
cut_line-append [] line rest e = cc e
cut_line-append (c ∷ s) line rest e = elim (Bool-cases (c == newline)) [
  | inl here ↦
      let same : (c ∷ [], s) ≡ (line, rest) = cc (rw here at e) in
      ap (λ (x : Bytes × Bytes). x.0 ++ x.1) (sym same)
  | inr later ↦ elim (Option-cases (cut_line s)) [
    | inl no_line ↦ cc (rw (later, no_line) at e)
    | inr found ↦
        let (cut, f) = found in
        let same : (c ∷ cut.0, cut.1) ≡ (line, rest) = cc (rw (later, f) at e) in
        ap (λ (x : Bytes × Bytes). x.0 ++ x.1) (sym same)
        ∙ ap (λ t. c ∷ t) (cut_line-append s cut.0 cut.1 f)
  ]
]

-- More bytes at the end do not change the first line.
pub cut_line-more :
    (s line rest more : Bytes)
    → cut_line s ≡ some (line, rest)
    → cut_line (s ++ more) ≡ some (line, rest ++ more)
unfolding cut_line
cut_line-more [] line rest more e = cc e
cut_line-more (c ∷ s) line rest more e = elim (Bool-cases (c == newline)) [
  | inl here ↦
      let same : (c ∷ [], s) ≡ (line, rest) = cc (rw here at e) in
      rw here (ap (λ (x : Bytes × Bytes). some (x.0, x.1 ++ more)) same)
  | inr later ↦ elim (Option-cases (cut_line s)) [
    | inl no_line ↦ cc (rw (later, no_line) at e)
    | inr found ↦
        let (cut, f) = found in
        let same : (c ∷ cut.0, cut.1) ≡ (line, rest) = cc (rw (later, f) at e) in
        rw (later, cut_line-more s cut.0 cut.1 more f)
          (ap (λ (x : Bytes × Bytes). some (x.0, x.1 ++ more)) same)
  ]
]

-- What was taken and what is left are the bytes that were there.
abbrev Conserves : Bytes → Taken → Type 0
Conserves all taken = line_of taken.0 ++ (taken.1 ++ bytes_of taken.2) ≡ all

after_cut-Conserves :
    (pending : Bytes) (pulls : List Pull) (pulled : Taken) (cut : Option (Bytes × Bytes))
    → cut_line pending ≡ cut
    → Conserves (pending ++ bytes_of pulls) pulled
    → Conserves (pending ++ bytes_of pulls) (after_cut cut pulls pulled)
unfolding after_cut
after_cut-Conserves pending pulls pulled none e h = h
after_cut-Conserves pending pulls pulled (some (line, rest)) e h =
    sym (append_assoc line rest (bytes_of pulls))
    ∙ ap (λ t. t ++ bytes_of pulls) (cut_line-append pending line rest e)

-- No byte of the stream is lost or invented: what `take_line` returns, then the pending bytes, then those of the
-- pulls to come, are the bytes that were pending and to come before; also when the wake fd fires and when the
-- stream ends.
pub take_line-bytes :
    (pending : Bytes) (pulls : List Pull)
    → line_of (take_line pending pulls).0
        ++ ((take_line pending pulls).1 ++ bytes_of (take_line pending pulls).2)
      ≡ pending ++ bytes_of pulls
unfolding take_line
take_line-bytes pending [] = after_cut-Conserves pending [] _ (cut_line pending) refl refl
take_line-bytes pending (woken ∷ pulls) =
    after_cut-Conserves pending (woken ∷ pulls) _ (cut_line pending) refl refl
take_line-bytes pending (chunk [] ∷ pulls) =
    after_cut-Conserves pending (chunk [] ∷ pulls) _ (cut_line pending) refl refl
take_line-bytes pending (chunk (c ∷ cs) ∷ pulls) =
    after_cut-Conserves pending (chunk (c ∷ cs) ∷ pulls) (take_line (pending ++ c ∷ cs) pulls)
      (cut_line pending) refl
      (take_line-bytes (pending ++ c ∷ cs) pulls ∙ append_assoc pending (c ∷ cs) (bytes_of pulls))

-- A stream that is not woken and has not ended: every pull is a chunk with bytes.
abbrev pub AllChunks : List Pull → Type 0
AllChunks [] = Unit
AllChunks (woken ∷ pulls) = ⊥
AllChunks (chunk [] ∷ pulls) = ⊥
AllChunks (chunk (c ∷ cs) ∷ pulls) = AllChunks pulls

-- A line and the rest of the stream, once taken.
pub record TakesLine (line rest : Bytes) (taken : Taken) : Type 0 where
  pub line_taken : taken.0 ≡ some line
  pub rest_left : taken.1 ++ bytes_of taken.2 ≡ rest
  pub still_chunks : AllChunks taken.2

after_cut-TakesLine :
    (pending line rest : Bytes) (pulls : List Pull) (pulled : Taken) (cut : Option (Bytes × Bytes))
    → AllChunks pulls
    → cut_line (pending ++ bytes_of pulls) ≡ some (line, rest)
    → cut_line pending ≡ cut
    → (cut_line pending ≡ none → TakesLine line rest pulled)
    → TakesLine line rest (after_cut cut pulls pulled)
unfolding after_cut
after_cut-TakesLine pending line rest pulls pulled none h e c later = later c
after_cut-TakesLine pending line rest pulls pulled (some (l, r)) h e c later =
    let more = cut_line-more pending l r (bytes_of pulls) c in
    let same : (l, r ++ bytes_of pulls) ≡ (line, rest) = cc (more, e) in
    record {
      line_taken = ap (λ (x : Bytes × Bytes). some x.0) same;
      rest_left = ap (λ (x : Bytes × Bytes). x.1) same;
      still_chunks = h;
    }

-- Chunks do not matter: when every pull to come is a chunk with bytes, and the bytes pending and to come
-- have a first line, `take_line` gives that line and leaves the bytes after it, however they are cut.
pub take_line-chunks :
    (pending line rest : Bytes) (pulls : List Pull)
    → AllChunks pulls
    → cut_line (pending ++ bytes_of pulls) ≡ some (line, rest)
    → TakesLine line rest (take_line pending pulls)
unfolding take_line
take_line-chunks pending line rest [] h e =
    after_cut-TakesLine pending line rest [] _ (cut_line pending) h e refl
      (λ no_line. let e' = ap cut_line (append-nil pending) in cc (e', e, no_line))
take_line-chunks pending line rest (woken ∷ pulls) h e = elim h [ ]
take_line-chunks pending line rest (chunk [] ∷ pulls) h e = elim h [ ]
take_line-chunks pending line rest (chunk (c ∷ cs) ∷ pulls) h e =
    after_cut-TakesLine pending line rest (chunk (c ∷ cs) ∷ pulls)
      (take_line (pending ++ c ∷ cs) pulls) (cut_line pending) h e refl
      (λ no_line.
        take_line-chunks (pending ++ c ∷ cs) line rest pulls h
          (ap cut_line (append_assoc pending (c ∷ cs) (bytes_of pulls)) ∙ e))
