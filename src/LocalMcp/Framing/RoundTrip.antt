-- ===== src/LocalMcp/Framing/RoundTrip.antt =====
-- memory/local_mcp/framing.py: what was written is read.
use agentic_loop_template.Base.{
  ℕ, zero, suc, Bool, false, ◌||◌, List, [], ◌∷◌, ◌++◌, map, some, length, ◌==◌, if◌then◌else◌,
  Result, ok, ◌>>=◌, raise_if-eq-ok, >>=-eq-ok, ok-eq-ok, ◌≡◌, ◌≢◌, refl, sym, ap, ◌∙◌, subst, inl,
  inr, Bool-cases, arith,
}
use agentic_loop_template.Base.Text.{Text, is_empty}
use mathlib.Core.List.{append_assoc}
use agentic_loop_template.LocalMcp.Framing.{
  Bytes, newline, carriage_return, FramingError, embedded_newline, Pull, cut_line, take_line,
  drop_end, contains_char, has_line_end, Reading, message, Codec, loads_as, loads_message,
  decoded_as, decoded, read_after, read_message, dumps_message, write_frame, write_message,
}
use agentic_loop_template.LocalMcp.Framing.Lines.{bytes_of, AllChunks, take_line-chunks}

-- UTF-8 and JSON, as far as the round trip rests on them: UTF-8 gives the text back, keeps ASCII characters and
-- adds no ASCII character, and JSON text is not empty and gives the object back.
pub record IsCodec {A : Type 0} (codec : Codec A) : Type 0 where
  pub decode-encode : (t : Text) → codec.decode (codec.encode t) ≡ some t
  pub encode_newline :
      (t : Text) → codec.encode (t ++ newline ∷ []) ≡ codec.encode t ++ newline ∷ []
  pub encode_no_newline :
      (t : Text) → contains_char newline t ≡ false → contains_char newline (codec.encode t) ≡ false
  pub encode_no_return :
      (t : Text)
      → contains_char carriage_return t ≡ false
      → contains_char carriage_return (codec.encode t) ≡ false
  pub encode_some : (t : Text) → t ≢ [] → codec.encode t ≢ []
  pub dumps_some : (m : A) → codec.dumps m ≢ []
  pub loads-dumps : (m : A) → codec.loads (codec.dumps m) ≡ some m

cut_line-frame :
    (e rest : Bytes)
    → contains_char newline e ≡ false
    → cut_line (e ++ newline ∷ rest) ≡ some (e ++ newline ∷ [], rest)
unfolding cut_line contains_char
cut_line-frame [] rest h = refl
cut_line-frame (c ∷ e) rest h = elim (Bool-cases (c == newline)) [
  | inl here ↦ cc (rw here at h)
  | inr later ↦ rw (later, cut_line-frame e rest (rw later at h)) refl
]

drop_end-last : (x : ℕ) (e : Bytes) → drop_end x (e ++ x ∷ []) ≡ e
unfolding drop_end
drop_end-last x [] = ground arith
drop_end-last x (c ∷ []) = ap (λ t. c ∷ t) (drop_end-last x [])
drop_end-last x (c ∷ d ∷ e) = ap (λ t. c ∷ t) (drop_end-last x (d ∷ e))

drop_end-none : (x : ℕ) (e : Bytes) → contains_char x e ≡ false → drop_end x e ≡ e
unfolding drop_end contains_char
drop_end-none x [] h = refl
drop_end-none x (c ∷ []) h = ground arith
drop_end-none x (c ∷ d ∷ e) h = ap (λ t. c ∷ t) (drop_end-none x (d ∷ e) (ground arith))

or_false : (a b : Bool) → (a || b) ≡ false → (a ≡ false) × (b ≡ false)
or_false a b h = ground arith

module _ {A : Type 0} (codec : Codec A) where
  read_after-frame :
      (e pending : Bytes) (pulls : List Pull) (next : Reading A × Bytes × List Pull)
      → e ≢ []
      → contains_char carriage_return e ≡ false
      → read_after codec (some (e ++ newline ∷ [])) pending pulls next
        ≡ (decoded codec e, pending, pulls)
  unfolding read_after
  read_after-frame [] pending pulls next some_bytes no_return = absurd (some_bytes refl)
  read_after-frame (c ∷ e) pending pulls next some_bytes no_return =
      let line : drop_end carriage_return (drop_end newline (c ∷ e ++ newline ∷ [])) ≡ c ∷ e =
        ap (drop_end carriage_return) (drop_end-last newline (c ∷ e))
        ∙ drop_end-none carriage_return (c ∷ e) no_return in
      subst
        (λ l.
          (if is_empty l then next else (decoded codec l, pending, pulls))
          ≡ (decoded codec (c ∷ e), pending, pulls))
        (sym line) refl

  decoded-message :
      IsCodec codec
      → (m : A) → has_line_end (codec.dumps m) ≡ false
      → decoded codec (codec.encode (codec.dumps m)) ≡ message m
  unfolding decoded decoded_as loads_as loads_message
  decoded-message is_codec m fits =
      subst (λ d. decoded_as codec d ≡ message m) (sym (is_codec.decode-encode (codec.dumps m)))
        (rw fits (ap (loads_as codec) (is_codec.loads-dumps m)))

  -- One read of a stream that begins with the frame of a message.
  record ReadsFrame (m : A) (rest : Bytes) (x : Reading A × Bytes × List Pull) : Type 0 where
    pub got : x.0 ≡ message m
    pub rest_left : x.1 ++ bytes_of x.2 ≡ rest
    pub still_chunks : AllChunks x.2

  read_message-frame :
      IsCodec codec
      → (fuel : ℕ) (m : A) (rest pending : Bytes) (pulls : List Pull)
      → has_line_end (codec.dumps m) ≡ false
      → AllChunks pulls
      → pending ++ bytes_of pulls ≡ codec.encode (codec.dumps m) ++ newline ∷ rest
      → ReadsFrame m rest (read_message codec (suc fuel) pending pulls)
  unfolding read_message has_line_end
  read_message-frame is_codec fuel m rest pending pulls fits chunks bytes =
      let t = codec.dumps m in
      let e = codec.encode t in
      let (no_newline, no_return) = or_false _ _ fits in
      let taken = take_line pending pulls in
      let takes =
        take_line-chunks pending (e ++ newline ∷ []) rest pulls chunks
          (ap cut_line bytes ∙ cut_line-frame e rest (is_codec.encode_no_newline t no_newline)) in
      let after =
        read_after-frame e taken.1 taken.2 (read_message codec fuel taken.1 taken.2)
          (is_codec.encode_some t (is_codec.dumps_some m))
          (is_codec.encode_no_return t no_return) in
      let whole : read_message codec (suc fuel) pending pulls
          ≡ (decoded codec e, taken.1, taken.2) =
        subst
          (λ l.
            read_after codec l taken.1 taken.2 (read_message codec fuel taken.1 taken.2)
            ≡ (decoded codec e, taken.1, taken.2))
          (sym takes.line_taken) after in
      subst (ReadsFrame m rest) (sym whole) (record {
        got = decoded-message is_codec m fits;
        rest_left = takes.rest_left;
        still_chunks = takes.still_chunks;
      })

  -- One message after the other.
  abbrev pub read_each : ℕ → ℕ → Bytes → List Pull → List (Reading A)
  read_each fuel zero pending pulls = []
  read_each fuel (suc n) pending pulls =
      let (r, pending1, pulls1) = read_message codec (suc fuel) pending pulls in
      r ∷ read_each fuel n pending1 pulls1

  abbrev pub write_each : List A → Result FramingError Bytes
  write_each [] = ok []
  write_each (m ∷ ms) =
      write_message codec m >>= λ frame. write_each ms >>= λ frames. ok (frame ++ frames)

  write_message-frame :
      IsCodec codec
      → (m : A) (frame : Bytes) → write_message codec m ≡ ok frame
      → (has_line_end (codec.dumps m) ≡ false)
        × (frame ≡ codec.encode (codec.dumps m) ++ newline ∷ [])
  unfolding write_message dumps_message write_frame
  write_message-frame is_codec m frame e =
      let (t, dumped, written) = >>=-eq-ok (dumps_message codec m) _ e in
      let (fits, is_t) =
        raise_if-eq-ok (has_line_end (codec.dumps m)) embedded_newline (ok (codec.dumps m))
          dumped in
      let (fits_t, is_frame) = raise_if-eq-ok (has_line_end t) embedded_newline _ written in
      (
        fits,
        sym (ok-eq-ok is_frame)
            ∙ is_codec.encode_newline t
            ∙ ap (λ s. codec.encode s ++ newline ∷ []) (sym (ok-eq-ok is_t)),
      )

  read_each-written :
      IsCodec codec
      → (fuel : ℕ) (ms : List A) (out pending : Bytes) (pulls : List Pull) → write_each ms ≡ ok out
      → AllChunks pulls
      → pending ++ bytes_of pulls ≡ out
      → read_each fuel (length ms) pending pulls ≡ map message ms
  read_each-written is_codec fuel [] out pending pulls w chunks bytes = refl
  read_each-written is_codec fuel (m ∷ ms) out pending pulls w chunks bytes =
      let (frame, one, more) = >>=-eq-ok (write_message codec m) _ w in
      let (frames, rest, is_out) = >>=-eq-ok (write_each ms) _ more in
      let (fits, is_frame) = write_message-frame is_codec m frame one in
      let e = codec.encode (codec.dumps m) in
      let all : pending ++ bytes_of pulls ≡ e ++ newline ∷ frames =
        bytes
        ∙ sym (ok-eq-ok is_out)
        ∙ ap (λ f. f ++ frames) is_frame
        ∙ append_assoc e (newline ∷ []) frames in
      let left = read_message codec (suc fuel) pending pulls in
      let r = read_message-frame is_codec fuel m frames pending pulls fits chunks all in
      let rest_read =
        read_each-written is_codec fuel ms frames left.1 left.2 rest r.still_chunks r.rest_left in
      ap (λ x. x ∷ read_each fuel (length ms) left.1 left.2) r.got
      ∙ ap (λ xs. message m ∷ xs) rest_read

  -- When messages have been written one after the other and none was refused, reading the bytes, however
  -- they are cut into chunks that are not empty, and without a wake-up between them, gives the messages
  -- back in order. UTF-8 and JSON are as `IsCodec` says, and the reader has fuel for a line.
  pub read-write :
      IsCodec codec
      → (fuel : ℕ) (ms : List A) (out : Bytes) (pulls : List Pull) → write_each ms ≡ ok out
      → AllChunks pulls
      → bytes_of pulls ≡ out
      → read_each fuel (length ms) [] pulls ≡ map message ms
  read-write is_codec fuel ms out pulls = read_each-written is_codec fuel ms out [] pulls
