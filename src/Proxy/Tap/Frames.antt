-- ===== src/Proxy/Tap/Frames.antt =====
-- How the frames of a stream bear on what `SseUsageTap` of src/proxy/mod.rs finds.
use brigh_to_router.Prelude.{
  ◌≡◌, refl, sym, ap, ◌∙◌, Bool, true, false, List, [], ◌∷◌, ◌++◌, length, length-append, leb,
  if◌then◌else◌, arith,
}
use mathlib.Core.List.{append-nil}
use brigh_to_router.Contract.Config.{BackendFormat}
use brigh_to_router.Json.{Codec, Bytes}
use brigh_to_router.Bridge.Limited.{concat}
use brigh_to_router.Bridge.Stream.Feed.{split_lines}
use brigh_to_router.Proxy.Usage.{UsageAccumulator}
use brigh_to_router.Proxy.Tap.{
  SseUsageTap, fresh, limit, Tapped, inspect, end_line, keep_tail, feed_parts, feed, finish,
  feed_all,
}
use brigh_to_router.Proxy.Tap.Lines.{prefix, split_lines-prefix, split_lines-append}

-- The tap in the midst of a line, of which `p` has come.
within_line : Bytes → SseUsageTap
within_line p =
    if leb (length p) limit
    then record { pending = p; skipping = false }
    else record { pending = []; skipping = true }

within_nil : fresh ≡ within_line []
unfolding within_line
within_nil = refl

module _ (codec : Codec) (chunk_may_have_usage : Bytes → Bool) (format : BackendFormat) where
  abbrev inspect_line : Bytes → UsageAccumulator → UsageAccumulator
  inspect_line = inspect codec chunk_may_have_usage format

  -- Every line is inspected by itself.
  unfoldable pub inspect_all : List Bytes → UsageAccumulator → UsageAccumulator
  inspect_all [] acc = acc
  inspect_all (line ∷ lines) acc = inspect_all lines (inspect_line line acc)

  inspect_all-append :
      (xs ys : List Bytes) (acc : UsageAccumulator)
      → inspect_all (xs ++ ys) acc ≡ inspect_all ys (inspect_all xs acc)
  unfolding inspect_all
  inspect_all-append [] ys acc = refl
  inspect_all-append (x ∷ xs) ys acc = inspect_all-append xs ys (inspect_line x acc)

  -- A line above the limit says nothing.
  inspect_long :
      (line : Bytes) (acc : UsageAccumulator)
      → leb (length line) limit ≡ false
      → inspect_line line acc ≡ acc
  unfolding inspect
  inspect_long line acc h = ground arith

  end_line-within :
      (part p : Bytes) (acc : UsageAccumulator)
      → end_line codec chunk_may_have_usage format part (within_line p, acc)
        ≡ (fresh, inspect_line (p ++ part) acc)
  unfolding end_line within_line
  end_line-within part [] acc = refl
  end_line-within part (b ∷ p) acc =
      ground (arith, length-append (b ∷ p) part, inspect_long (b ∷ p ++ part) acc)

  keep_tail-within :
      (tail p : Bytes) (acc : UsageAccumulator)
      → keep_tail codec chunk_may_have_usage format tail (within_line p, acc)
        ≡ (within_line (p ++ tail), acc)
  unfolding keep_tail within_line
  keep_tail-within tail p acc = ground (arith, length-append p tail)

  -- What is left of a line, and the lines before it.
  seen : List Bytes × Bytes → UsageAccumulator → Tapped
  seen (lines, last) acc = (within_line last, inspect_all lines acc)

  prefix-nil : (r : List Bytes × Bytes) → prefix [] r ≡ r
  unfolding prefix
  prefix-nil ([], t) = refl
  prefix-nil (l ∷ ls, t) = refl

  feed_parts-seen :
      (parts : List Bytes) (tail p : Bytes) (acc : UsageAccumulator)
      → feed_parts codec chunk_may_have_usage format parts tail (within_line p, acc)
        ≡ seen (prefix p (parts, tail)) acc
  unfolding feed_parts seen prefix inspect_all
  feed_parts-seen [] tail p acc = keep_tail-within tail p acc
  feed_parts-seen (part ∷ parts) tail p acc =
      ap (feed_parts codec chunk_may_have_usage format parts tail) (end_line-within part p acc)
      ∙ ap
          (λ q.
            feed_parts codec chunk_may_have_usage format parts tail
              (q, inspect_line (p ++ part) acc))
          within_nil
      ∙ feed_parts-seen parts tail [] (inspect_line (p ++ part) acc)
      ∙ ap (λ r. seen r (inspect_line (p ++ part) acc)) (prefix-nil (parts, tail))

  feed-seen :
      (bytes p : Bytes) (acc : UsageAccumulator)
      → feed codec chunk_may_have_usage format bytes (within_line p, acc)
        ≡ seen (split_lines p bytes) acc
  unfolding feed
  feed-seen bytes p acc =
      let (parts, tail) = split_lines [] bytes in
      feed_parts-seen parts tail p acc
      ∙ ap (λ r. seen r acc)
          (sym (ap (λ q. split_lines q bytes) (sym (append-nil p)) ∙ split_lines-prefix bytes p []))

  feed_all-seen :
      (frames : List Bytes) (p : Bytes) (acc : UsageAccumulator)
      → feed_all codec chunk_may_have_usage format frames (within_line p, acc)
        ≡ seen (split_lines p (concat frames)) acc
  unfolding feed_all concat seen split_lines inspect_all
  feed_all-seen [] p acc = refl
  feed_all-seen (frame ∷ frames) p acc =
      let (lines, last) = split_lines p frame in
      ap (feed_all codec chunk_may_have_usage format frames) (feed-seen frame p acc)
      ∙ feed_all-seen frames last (inspect_all lines acc)
      ∙ ap (λ x. (within_line (split_lines last (concat frames)).1, x))
          (sym (inspect_all-append lines (split_lines last (concat frames)).0 acc))
      ∙ ap (λ r. seen r acc) (sym (split_lines-append frame (concat frames) p))

  finish-within :
      (p : Bytes) (acc : UsageAccumulator)
      → finish codec chunk_may_have_usage format (within_line p, acc) ≡ inspect_line p acc
  unfolding finish within_line
  finish-within p acc = ground (arith, inspect_long p acc)

  -- However the network frames a stream, the usage that the tap has found at the end is what comes of
  -- inspecting each line of the whole stream by itself, with the last one, newline or not. A line
  -- longer than the limit is passed over, and those after it are not.
  pub finish-feed_all :
      (frames : List Bytes) (acc : UsageAccumulator)
      → finish codec chunk_may_have_usage format
          (feed_all codec chunk_may_have_usage format frames (fresh, acc))
        ≡ inspect_all
            ((split_lines [] (concat frames)).0 ++ (split_lines [] (concat frames)).1 ∷ [])
            acc
  unfolding seen inspect_all
  finish-feed_all frames acc =
      let (lines, last) = split_lines [] (concat frames) in
      ap
        (λ q.
          finish codec chunk_may_have_usage format
            (feed_all codec chunk_may_have_usage format frames (q, acc)))
        within_nil
      ∙ ap (finish codec chunk_may_have_usage format) (feed_all-seen frames [] acc)
      ∙ finish-within last (inspect_all lines acc)
      ∙ sym (inspect_all-append lines (last ∷ []) acc)
