-- ===== src/Proxy/Tap.antt =====
-- `SseUsageTap` of src/proxy/mod.rs, which looks for the usage in the lines of a stream that comes in
-- arbitrary frames. The search for `"usage"` in a line is a package's.
pub mod Lines
pub mod Frames
use brigh_to_router.Prelude.{
  ℕ, ◌+◌, Bool, true, false, ◌&&◌, List, [], ◌∷◌, ◌++◌, length, leb, if◌then◌else◌, saturating_add,
}
use brigh_to_router.Prelude.Text.{codes}
use brigh_to_router.Contract.Config.{BackendFormat}
use brigh_to_router.Json.{Codec, Bytes, is_empty}
use brigh_to_router.Bridge.Stream.Feed.{split_lines}
use brigh_to_router.Proxy.Usage.{
  UsageAccumulator, default, strip_return, starts_with, process_sse_line,
}

pub record SseUsageTap : Type 0 where
  pub pending : Bytes
  pub skipping : Bool

abbrev pub fresh : SseUsageTap
fresh = record { pending = []; skipping = false }

abbrev pub limit : ℕ
limit = 1_048_576

-- The accumulator is borrowed by each call, so it goes along.
abbrev pub Tapped : Type 0
Tapped = SseUsageTap × UsageAccumulator

module _ (codec : Codec) (chunk_may_have_usage : Bytes → Bool) (format : BackendFormat) where
  data_line : Bytes → UsageAccumulator → UsageAccumulator
  data_line line acc =
      if starts_with (codes "data:") line then process_sse_line codec format line acc else acc

  unfoldable pub inspect : Bytes → UsageAccumulator → UsageAccumulator
  unfolding data_line
  inspect line acc =
      if leb (length line) limit && chunk_may_have_usage line
      then data_line (strip_return line) acc
      else acc

  -- The end of a line, after `part` of it.
  end_line : Bytes → Tapped → Tapped
  end_line part (tap, acc) = (
    record { pending = []; skipping = false },
    if tap.skipping
        then acc
        else if is_empty tap.pending
        then inspect part acc
        else if leb (saturating_add (length tap.pending) (length part)) limit
        then inspect (tap.pending ++ part) acc
        else acc,
  )

  -- What follows the last newline.
  keep_tail : Bytes → Tapped → Tapped
  keep_tail tail (tap, acc) =
      if tap.skipping
      then (tap, acc)
      else if leb (saturating_add (length tap.pending) (length tail)) limit
      then (record tap { pending = tap.pending ++ tail }, acc)
      else (record { pending = []; skipping = true }, acc)

  feed_parts : List Bytes → Bytes → Tapped → Tapped
  unfolding end_line keep_tail
  feed_parts [] tail t = keep_tail tail t
  feed_parts (part ∷ parts) tail t = feed_parts parts tail (end_line part t)

  unfoldable pub feed : Bytes → Tapped → Tapped
  unfolding feed_parts
  feed bytes t = let (parts, tail) = split_lines [] bytes in feed_parts parts tail t

  unfoldable pub finish : Tapped → UsageAccumulator
  finish (tap, acc) = if tap.skipping then acc else inspect tap.pending acc

  unfoldable pub feed_all : List Bytes → Tapped → Tapped
  feed_all [] t = t
  feed_all (frame ∷ frames) t = feed_all frames (feed frame t)

  -- A chunk by itself, line by line.
  fold_lines : List Bytes → UsageAccumulator → UsageAccumulator
  unfolding data_line
  fold_lines [] acc = acc
  fold_lines (line ∷ lines) acc = fold_lines lines (data_line (strip_return line) acc)

  unfoldable pub extract_usage_from_sse_chunk : Bytes → UsageAccumulator → UsageAccumulator
  unfolding fold_lines
  extract_usage_from_sse_chunk chunk acc =
      let (lines, last) = split_lines [] chunk in fold_lines (lines ++ last ∷ []) acc
