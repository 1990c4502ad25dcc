-- ===== src/LocalMcp/Framing.antt =====
-- memory/local_mcp/framing.py: one JSON-RPC message a line. UTF-8 and JSON are parameters, and so is what
-- each pull of the stream gives.
pub mod Lines
pub mod Reads
pub mod RoundTrip
mod Tests
use agentic_loop_template.Base.{
  ℕ, zero, suc, ◌+◌, Bool, true, false, not, ◌&&◌, ◌||◌, List, [], ◌∷◌, ◌++◌, Option, none, some,
  take, length, ltb, ◌==◌, if◌then◌else◌, Result, ok, err, ◌>>=◌, ◌>>◌, raise_if,
}
use agentic_loop_template.Base.Text.{Text, is_empty, ends_with_char}

abbrev pub Bytes : Type 0
Bytes = List ℕ

abbrev pub newline : ℕ
newline = 10

abbrev pub carriage_return : ℕ
carriage_return = 13

-- `FramingError`, by its messages.
pub data FramingError : Type 0 where
  not_an_object embedded_newline invalid_json invalid_utf8 : FramingError

-- `_pull`: None when the wake fd fired, or a chunk, which is empty at the end of the stream.
pub data Pull : Type 0 where
  woken : Pull
  chunk : Bytes → Pull

-- The line up to the first newline, with it, and the bytes after it.
unfoldable pub cut_line : Bytes → Option (Bytes × Bytes)
cut_line [] = none
cut_line (c ∷ s) =
    if c == newline
    then some (c ∷ [], s)
    else elim (cut_line s) [ none ↦ none | some (line, rest) ↦ some (c ∷ line, rest) ]

-- What `take_line` gives, the pending bytes, and the pulls to come.
abbrev pub Taken : Type 0
Taken = Option Bytes × Bytes × List Pull

-- A line that is pending already, or what the next pull leads to.
unfoldable pub after_cut : Option (Bytes × Bytes) → List Pull → Taken → Taken
after_cut (some (line, rest)) pulls pulled = (some line, rest, pulls)
after_cut none pulls pulled = pulled

-- `take_line`; a stream without further pulls is at its end.
unfoldable pub take_line : Bytes → List Pull → Taken
take_line pending [] = after_cut (cut_line pending) [] (some pending, [], [])
take_line pending (woken ∷ pulls) =
    after_cut (cut_line pending) (woken ∷ pulls) (none, pending, pulls)
take_line pending (chunk [] ∷ pulls) =
    after_cut (cut_line pending) (chunk [] ∷ pulls) (some pending, [], pulls)
take_line pending (chunk (c ∷ cs) ∷ pulls) =
    let pulled = take_line (pending ++ c ∷ cs) pulls in
    after_cut (cut_line pending) (chunk (c ∷ cs) ∷ pulls) pulled

-- `if raw.endswith(b"\n"): raw = raw[:-1]`, for one byte
unfoldable pub drop_end : ℕ → Bytes → Bytes
drop_end e [] = []
drop_end e (c ∷ []) = if c == e then [] else c ∷ []
drop_end e (c ∷ d ∷ s) = c ∷ drop_end e (d ∷ s)

unfoldable pub contains_char : ℕ → Text → Bool
contains_char c [] = false
contains_char c (d ∷ s) = d == c || contains_char c s

-- `_reject_embedded_newline`
unfoldable pub has_line_end : Text → Bool
has_line_end s = contains_char newline s || contains_char carriage_return s

-- What a read ends in.
pub data Reading (A : Type 0) : Type 0 where
  message : A → Reading A
  end_of_stream : Reading A
  refused : FramingError → Reading A
  out_of_fuel : Reading A

-- What `os.write` on a FIFO that does not block does.
pub data FifoWrite : Type 0 where
  would_block : FifoWrite
  wrote : ℕ → FifoWrite

-- Where a frame goes: no FIFO, a FIFO whose flags cannot be read, or a FIFO.
pub data Sink : Type 0 where
  no_fifo : Sink
  unreadable_flags : Sink
  fifo : FifoWrite → Sink

-- The libraries' text and JSON.
pub record Codec (A : Type 0) : Type 0 where
  pub encode : Text → Bytes
  pub decode : Bytes → Option Text
  -- `json.dumps(...)`, of a dict, and `json.loads`
  pub dumps : A → Text
  pub loads : Text → Option A

unfoldable pub pipe_buf : ℕ
pipe_buf = 4096

-- `_write_fifo_nowait`: what it returns, and the bytes that are written.
unfoldable pub write_fifo_nowait : FifoWrite → Bytes → Bool × Bytes
write_fifo_nowait would_block bytes = (false, [])
write_fifo_nowait (wrote n) bytes = (n == length bytes || ltb 0 n, take n bytes)

unfoldable pub try_write : Sink → Bytes → Bool × Bytes
try_write no_fifo bytes = (true, bytes)
try_write unreadable_flags bytes =
    if ltb pipe_buf (length bytes) then (false, []) else (true, bytes)
try_write (fifo answer) bytes =
    if ltb pipe_buf (length bytes) then (false, []) else write_fifo_nowait answer bytes

module _ {A : Type 0} (codec : Codec A) where
  unfoldable pub loads_as : Option A → Reading A
  loads_as none = refused invalid_json
  loads_as (some m) = message m

  unfoldable pub loads_message : Text → Reading A
  loads_message t = if has_line_end t then refused embedded_newline else loads_as (codec.loads t)

  unfoldable pub decoded_as : Option Text → Reading A
  decoded_as none = refused invalid_utf8
  decoded_as (some t) = loads_message t

  -- A line without its end.
  unfoldable pub decoded : Bytes → Reading A
  decoded raw = decoded_as (codec.decode raw)

  -- What a line that was taken comes to; a blank one is skipped.
  unfoldable pub read_after :
      Option Bytes
      → Bytes
      → List Pull
      → Reading A × Bytes × List Pull
      → Reading A × Bytes × List Pull
  read_after none pending pulls next = (end_of_stream, pending, pulls)
  read_after (some raw) pending pulls next =
      let line = drop_end carriage_return (drop_end newline raw) in
      if is_empty raw
      then (end_of_stream, pending, pulls)
      else if is_empty line
      then next
      else (decoded line, pending, pulls)

  -- `read_message`, with a unit of fuel for each line
  unfoldable pub read_message : ℕ → Bytes → List Pull → Reading A × Bytes × List Pull
  read_message zero pending pulls = (out_of_fuel, pending, pulls)
  read_message (suc fuel) pending pulls =
      let (taken, pending1, pulls1) = take_line pending pulls in
      read_after taken pending1 pulls1 (read_message fuel pending1 pulls1)

  unfoldable pub dumps_message : A → Result FramingError Text
  dumps_message m = let t = codec.dumps m in raise_if (has_line_end t) embedded_newline >> ok t

  -- `write_frame`: the bytes that are written.
  unfoldable pub write_frame : Text → Result FramingError Bytes
  write_frame payload =
      raise_if (has_line_end payload) embedded_newline
      >> ok (codec.encode (payload ++ newline ∷ []))

  unfoldable pub write_message : A → Result FramingError Bytes
  write_message m = dumps_message m >>= λ t. write_frame t

  unfoldable pub try_write_message : Sink → A → Result FramingError (Bool × Bytes)
  try_write_message sink m =
      dumps_message m >>= λ t. ok (try_write sink (codec.encode (t ++ newline ∷ [])))
