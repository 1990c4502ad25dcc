-- ===== src/LocalMcp/Framing/Tests.antt =====
-- Frames over ASCII text, whose JSON is a quote before the text.
use agentic_loop_template.Base.{
  false, List, [], ◌∷◌, ◌++◌, map, Option, none, some, length, ok, ◌≡◌, ◌≢◌, refl, ◌<◌, arith,
}
use agentic_loop_template.Base.Text.{Text, text}
use agentic_loop_template.LocalMcp.Framing.{
  Bytes, newline, Pull, woken, chunk, cut_line, take_line, contains_char, has_line_end, message,
  out_of_fuel, Codec, read_message, dumps_message, write_frame, write_message, would_block, fifo,
  pipe_buf, write_fifo_nowait, try_write, try_write_message,
}
use agentic_loop_template.LocalMcp.Framing.Lines.{
  bytes_of, line_of, TakesLine, take_line-bytes, take_line-chunks,
}
use agentic_loop_template.LocalMcp.Framing.RoundTrip.{IsCodec, read_each, write_each, read-write}
use agentic_loop_template.LocalMcp.Framing.Reads.{read_message-ends, try_write_message-nothing}

abbrev unquote : Text → Option Text
unquote [] = none
unquote (c ∷ t) = some t

abbrev codec : Codec Text
codec = record {
  encode = λ t. t;
  decode = λ bytes. some bytes;
  dumps = λ m. b'"' ∷ m;
  loads = unquote;
}

codec-IsCodec : IsCodec codec
codec-IsCodec = record {
  decode-encode = λ t. refl;
  encode_newline = λ t. refl;
  encode_no_newline = λ t h. h;
  encode_no_return = λ t h. h;
  encode_some = λ t h. h;
  dumps_some = λ m e. cc e;
  loads-dumps = λ m. refl;
}

abbrev messages : List Text
messages = text "ab" ∷ text "" ∷ []

-- The second chunk has the end of one frame and the start of the next.
abbrev pulls : List Pull
pulls = chunk (text "\"a") ∷ chunk (b'b' ∷ newline ∷ b'"' ∷ []) ∷ chunk (newline ∷ []) ∷ []

written : write_each codec messages ≡ ok (bytes_of pulls)
unfolding write_message dumps_message write_frame has_line_end contains_char
written = refl

read-write_example : read_each codec 0 (length messages) [] pulls ≡ map message messages
read-write_example =
    read-write codec codec-IsCodec 0 messages (bytes_of pulls) pulls written tt refl

take_line-bytes_example :
    line_of (take_line (text "x") (woken ∷ pulls)).0
      ++ ((take_line (text "x") (woken ∷ pulls)).1
          ++ bytes_of (take_line (text "x") (woken ∷ pulls)).2)
    ≡ text "x" ++ bytes_of (woken ∷ pulls)
take_line-bytes_example = take_line-bytes (text "x") (woken ∷ pulls)

first_line : cut_line (bytes_of pulls) ≡ some (text "\"ab" ++ newline ∷ [], b'"' ∷ newline ∷ [])
unfolding cut_line
first_line = refl

take_line-chunks_example :
    TakesLine (text "\"ab" ++ newline ∷ []) (b'"' ∷ newline ∷ []) (take_line [] pulls)
take_line-chunks_example =
    take_line-chunks [] (text "\"ab" ++ newline ∷ []) (b'"' ∷ newline ∷ []) pulls tt first_line

enough_fuel : length (bytes_of pulls) < 9
enough_fuel = omega arith

read_message-ends_example : (read_message codec 9 [] pulls).0 ≢ out_of_fuel
read_message-ends_example = read_message-ends codec 9 [] pulls enough_fuel

full_pipe : try_write_message codec (fifo would_block) (text "ab") ≡ ok (false, [])
unfolding try_write_message dumps_message try_write write_fifo_nowait pipe_buf has_line_end
    contains_char
full_pipe = refl

try_write_message-nothing_example :
    (has_line_end (b'"' ∷ text "ab") ≡ false) × (false ≡ false → ◌≡◌ {A = Bytes} [] [])
try_write_message-nothing_example =
    try_write_message-nothing codec (fifo would_block) (text "ab") false [] full_pipe
