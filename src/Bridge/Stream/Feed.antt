-- ===== src/Bridge/Stream/Feed.antt =====
-- `feed`, `finish` and the lines between: the bytes of the upstream, cut into lines, each of which
-- is a JSON value, the end mark, or nothing.
pub mod Complete
use brigh_to_router.Prelude.{
  ℕ, Bool, true, false, Option, none, some, List, [], ◌∷◌, ◌++◌, length, ltb, ◌==◌, if◌then◌else◌,
}
use mathlib.Core.List.{reverse}
use brigh_to_router.Prelude.Eq.{list_beq}
use brigh_to_router.Prelude.Result.{Result, ok, err}
use brigh_to_router.Prelude.Text.{Text, codes, trim}
use brigh_to_router.Json.{Value, Codec, Bytes, is_empty}
use brigh_to_router.Bridge.{BridgeError, upstream, sse_line_limit}
use brigh_to_router.Bridge.Stream.Events.{SseTranslator, Event, Emit, ◌>>◌, fail}
use brigh_to_router.Bridge.Stream.Delta.{Try, process_value, finalize}

-- Before each newline a line, and what is left after the last one.
unfoldable pub split_lines : Bytes → Bytes → List Bytes × Bytes
split_lines line [] = ([], line)
split_lines line (b ∷ bs) =
    let rest = split_lines [] bs in
    let longer = split_lines (line ++ b ∷ []) bs in
    if b == b'\n' then (line ∷ rest.0, rest.1) else longer

drop_returns : Text → Text
drop_returns [] = []
drop_returns (c ∷ s) = if c == b'\r' then drop_returns s else c ∷ s

trim_returns : Text → Text
unfolding drop_returns
trim_returns line = reverse (drop_returns (reverse line))

strip_prefix : Text → Text → Option Text
strip_prefix [] s = some s
strip_prefix (c ∷ p) [] = none
strip_prefix (c ∷ p) (d ∷ s) = if c == d then strip_prefix p s else none

starts_object : Text → Bool
starts_object [] = false
starts_object (c ∷ s) = c == b'{'

data_or_object : Option Text → Text → Text
unfolding starts_object
data_or_object (some payload) line = trim payload
data_or_object none line = if starts_object (trim line) then trim line else []

-- The JSON text of a line, empty where the line says nothing.
unfoldable pub line_data : Text → Text
unfolding trim_returns strip_prefix data_or_object
line_data line = let s = trim_returns line in data_or_object (strip_prefix (codes "data:") s) s

module _ (codec : Codec) where
  process_parsed : Result Value Text → SseTranslator → Try
  process_parsed (err e) t = (t, [], some (upstream (codes "invalid upstream SSE JSON: " ++ e)))
  process_parsed (ok v) t = process_value codec v t

  process_data : Text → SseTranslator → Try
  unfolding process_parsed
  process_data payload t =
      if is_empty payload
      then (t, [], none)
      else if list_beq payload (codes "[DONE]")
      then finalize codec t
      else process_parsed (codec.parse payload) t

  -- `Ok(true)` is returned exactly where the translator is finished.
  unfoldable pub process_line : Text → SseTranslator → Try
  unfolding process_data
  process_line line t = process_data (line_data line) t

  or_fail : Try → Emit
  or_fail (t, es, none) = (t, es)
  or_fail (t, es, some e) = (t, es) >> fail codec e

  unfoldable pub process_lines : List Text → SseTranslator → Emit
  unfolding or_fail
  process_lines [] t = (t, [])
  process_lines (line ∷ lines) t =
      if t.finished then (t, []) else or_fail (process_line line t) >> process_lines lines

  lossy_all : List Bytes → List Text
  lossy_all [] = []
  lossy_all (l ∷ ls) = codec.lossy l ∷ lossy_all ls

  -- The buffer is cleared at the end of the stream, and has a bound while the stream goes on.
  bound_buffer : SseTranslator → Emit
  bound_buffer t =
      if t.finished
      then (record t { buffer = [] }, [])
      else if ltb sse_line_limit (length t.buffer)
      then fail codec (upstream (codes "upstream SSE line exceeded 1 MiB")) t
      else (t, [])

  -- While the lines are processed nothing reads the buffer, which holds what follows them.
  unfoldable pub feed : Bytes → SseTranslator → Emit
  unfolding lossy_all bound_buffer
  feed chunk t =
      let (lines, rest) = split_lines [] (t.buffer ++ chunk) in
      if t.finished
      then (t, [])
      else process_lines (lossy_all lines) (record t { buffer = rest }) >> bound_buffer

  unfoldable pub finalize_or_fail : SseTranslator → Emit
  unfolding or_fail
  finalize_or_fail t = if t.finished then (t, []) else or_fail (finalize codec t)

  -- `str::split('\n')` has one line more than the newlines.
  unfoldable pub finish : SseTranslator → Emit
  unfolding finalize_or_fail
  finish t =
      let (lines, last) = split_lines [] (codec.lossy t.buffer) in
      if t.finished
      then (t, [])
      else (if is_empty t.buffer
          then (t, [])
          else process_lines (lines ++ last ∷ []) (record t { buffer = [] }))
        >> finalize_or_fail

  unfoldable pub feed_all : List Bytes → SseTranslator → Emit
  feed_all [] t = (t, [])
  feed_all (chunk ∷ chunks) t = feed chunk t >> feed_all chunks

unfoldable pub is_finished : SseTranslator → Bool
is_finished t = t.finished

unfoldable pub take_error : SseTranslator → Option BridgeError × SseTranslator
take_error t = (t.error, record t { error = none })
