-- ===== src/LocalMcp/Framing/Reads.antt =====
-- memory/local_mcp/framing.py: the end of `read_message`, and what `try_write_message` leaves on the wire.
use agentic_loop_template.Base.{
  ℕ, zero, suc, ◌<◌, Bool, true, false, List, [], ◌∷◌, ◌++◌, Option, none, some, length,
  length-append, ltb, if◌then◌else◌, ok, >>=-eq-ok, ok-eq-pair, raise_if-eq-ok, ◌≡◌, ◌≢◌, refl, sym,
  ap, ◌∙◌, inl, inr, Bool-cases, arith,
}
use agentic_loop_template.Base.Text.{Text, is_empty}
use agentic_loop_template.LocalMcp.Framing.{
  Bytes, newline, carriage_return, embedded_newline, Pull, take_line, drop_end, has_line_end,
  Reading, out_of_fuel, Codec, loads_as, loads_message, decoded_as, decoded, read_after,
  read_message, FifoWrite, would_block, wrote, Sink, no_fifo, unreadable_flags, fifo, pipe_buf,
  dumps_message, write_fifo_nowait, try_write, try_write_message,
}
use agentic_loop_template.LocalMcp.Framing.Lines.{bytes_of, line_of, take_line-bytes}

length-some : (s : Bytes) → is_empty s ≡ false → 0 < length s
length-some [] e = cc e
length-some (c ∷ s) e = omega arith

module _ {A : Type 0} (codec : Codec A) where
  loads_as-ends : (o : Option A) → loads_as codec o ≢ out_of_fuel
  unfolding loads_as
  loads_as-ends none = λ e. cc e
  loads_as-ends (some m) = λ e. cc e

  decoded_as-ends : (o : Option Text) → decoded_as codec o ≢ out_of_fuel
  unfolding decoded_as loads_message
  decoded_as-ends none = λ e. cc e
  decoded_as-ends (some t) = elim (Bool-cases (has_line_end t)) [
    | inl bad ↦ rw bad (λ e. cc e)
    | inr good ↦ rw good (loads_as-ends (codec.loads t))
  ]

  decoded-ends : (line : Bytes) → decoded codec line ≢ out_of_fuel
  unfolding decoded
  decoded-ends line = decoded_as-ends (codec.decode line)

  read_after-ends :
      (taken : Option Bytes) (pending : Bytes) (pulls : List Pull)
      (next : Reading A × Bytes × List Pull)
      → (is_empty (line_of taken) ≡ false → next.0 ≢ out_of_fuel)
      → (read_after codec taken pending pulls next).0 ≢ out_of_fuel
  unfolding read_after
  read_after-ends none pending pulls next later = λ e. cc e
  read_after-ends (some []) pending pulls next later = λ e. cc e
  read_after-ends (some (c ∷ raw)) pending pulls next later =
      elim (Bool-cases (is_empty (drop_end carriage_return (drop_end newline (c ∷ raw))))) [
        | inl blank ↦ rw blank (later refl)
        | inr full ↦ rw full (decoded-ends _)
      ]

  -- `read_message` ends: fuel of one more than the bytes that are pending and to come is enough.
  pub read_message-ends :
      (fuel : ℕ) (pending : Bytes) (pulls : List Pull)
      → length (pending ++ bytes_of pulls) < fuel
      → (read_message codec fuel pending pulls).0 ≢ out_of_fuel
  unfolding read_message
  read_message-ends zero pending pulls enough = absurd (omega (arith, enough))
  read_message-ends (suc fuel) pending pulls enough =
      let (taken, pending1, pulls1) = take_line pending pulls in
      read_after-ends taken pending1 pulls1 (read_message codec fuel pending1 pulls1) (λ some_bytes.
        read_message-ends fuel pending1 pulls1 (
          let total = ap length (take_line-bytes pending pulls) in
          let cut = length-append (line_of taken) (pending1 ++ bytes_of pulls1) in
          let bytes = length-some (line_of taken) some_bytes in
          omega (arith, total, cut, bytes, enough)))

write_fifo-nothing :
    (answer : FifoWrite) (bytes : Bytes)
    → (write_fifo_nowait answer bytes).0 ≡ false
    → (write_fifo_nowait answer bytes).1 ≡ []
unfolding write_fifo_nowait
write_fifo-nothing would_block bytes e = refl
write_fifo-nothing (wrote zero) bytes e = refl
write_fifo-nothing (wrote (suc n)) bytes e = absurd (ground arith)

if_too_long :
    (c : Bool) (x : Bool × Bytes)
    → (x.0 ≡ false → x.1 ≡ [])
    → (if c then (false, []) else x).0 ≡ false
    → (if c then (false, []) else x).1 ≡ []
if_too_long true x keeps e = refl
if_too_long false x keeps e = keeps e

try_write-nothing :
    (sink : Sink) (bytes : Bytes) → (try_write sink bytes).0 ≡ false → (try_write sink bytes).1 ≡ []
unfolding try_write
try_write-nothing no_fifo bytes e = cc e
try_write-nothing unreadable_flags bytes e =
    if_too_long (ltb pipe_buf (length bytes)) (true, bytes) (λ h. cc h) e
try_write-nothing (fifo answer) bytes e =
    if_too_long (ltb pipe_buf (length bytes)) (write_fifo_nowait answer bytes)
      (write_fifo-nothing answer bytes) e

-- When `try_write_message` returns and does not raise, the JSON text has no line end, and if it returns False, no byte
-- has been written, whatever the FIFO answers.
pub try_write_message-nothing :
    {A : Type 0} (codec : Codec A) (sink : Sink) (m : A) (sent : Bool) (written : Bytes)
    → try_write_message codec sink m ≡ ok (sent, written)
    → (has_line_end (codec.dumps m) ≡ false) × (sent ≡ false → written ≡ [])
unfolding try_write_message dumps_message
try_write_message-nothing codec sink m sent written e =
    let (t, dumped, wrote_it) = >>=-eq-ok (dumps_message codec m) _ e in
    let frame = codec.encode (t ++ newline ∷ []) in
    let (fits, is_t) =
      raise_if-eq-ok (has_line_end (codec.dumps m)) embedded_newline (ok (codec.dumps m)) dumped in
    let same = ok-eq-pair wrote_it in
    (fits, λ not_sent. same.1 ∙ try_write-nothing sink frame (sym same.0 ∙ not_sent))
