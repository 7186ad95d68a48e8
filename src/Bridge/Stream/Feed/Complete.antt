-- ===== src/Bridge/Stream/Feed/Complete.antt =====
-- The same of `feed` and `finish`, and of a whole stream.
use brigh_to_router.Prelude.{
  ◌≡◌, refl, ◌∙◌, ap, true, false, none, some, List, [], ◌∷◌, ◌++◌, length, ltb, if◌then◌else◌,
  if_intro, arith,
}
use brigh_to_router.Prelude.Eq.{list_beq}
use brigh_to_router.Prelude.Result.{Result, ok, err}
use brigh_to_router.Prelude.Text.{Text, codes}
use brigh_to_router.Json.{Value, Codec, Bytes, is_empty}
use brigh_to_router.Bridge.{BridgeContext, BridgeError, upstream, sse_line_limit}
use brigh_to_router.Bridge.Stream.Events.{SseTranslator, Emit, ◌>>◌, new, fail}
use brigh_to_router.Bridge.Stream.Phase.{before, ended, run}
use brigh_to_router.Bridge.Stream.Sound.{
  phase, Consistent, Sound, Sound-seq, fail-Sound, phase_finished,
}
use brigh_to_router.Bridge.Stream.Delta.{Try, finalize}
use brigh_to_router.Bridge.Stream.Delta.Going.{process_value-Sound}
use brigh_to_router.Bridge.Stream.Delta.Finalize.{Ends, finalize-Ends}
use brigh_to_router.Bridge.Stream.Feed.{
  split_lines, line_data, process_parsed, process_data, process_line, or_fail, process_lines,
  lossy_all, bound_buffer, feed, finalize_or_fail, finish, feed_all, is_finished,
}

-- An operation that sends what a client accepts, whether the stream is at its end or not.
abbrev pub Sends : (SseTranslator → Emit) → Type 0
Sends f = (t : SseTranslator) → Consistent t → Sound t (f t)

nothing-Sends : Sends (λ t. (t, []))
unfolding run
nothing-Sends t c = record { accepted = refl; consistent = c }

Sends-seq :
    (t : SseTranslator) (r : Emit) (f : SseTranslator → Emit)
    → Sound t r
    → Sends f
    → Sound t (r >> f)
Sends-seq t r f h k = Sound-seq t r f h (k r.0 h.consistent)

module _ (codec : Codec) where
  process_parsed-Sound :
      (v : Result Value Text) (t : SseTranslator)
      → t.finished ≡ false
      → Consistent t
      → Sound t ((process_parsed codec v t).0, (process_parsed codec v t).1)
  unfolding process_parsed
  process_parsed-Sound (err e) t f c = nothing-Sends t c
  process_parsed-Sound (ok v) t f c = process_value-Sound codec v t f c

  process_line-Sound :
      (line : Text) (t : SseTranslator)
      → t.finished ≡ false
      → Consistent t
      → Sound t ((process_line codec line t).0, (process_line codec line t).1)
  unfolding process_line process_data
  process_line-Sound line t f c =
      let s = line_data line in
      let P : Try → Type 0 = λ r. Sound t (r.0, r.1) in
      let later =
        if list_beq s (codes "[DONE]")
        then finalize codec t
        else process_parsed codec (codec.parse s) t in
      if_intro P (is_empty s) (t, [], none) later (λ e. nothing-Sends t c)
        (λ e.
          if_intro P (list_beq s (codes "[DONE]")) (finalize codec t)
            (process_parsed codec (codec.parse s) t) (λ e. (finalize-Ends codec t c).sound)
            (λ e. process_parsed-Sound (codec.parse s) t f c))

  or_fail-Sound : (t : SseTranslator) (r : Try) → Sound t (r.0, r.1) → Sound t (or_fail codec r)
  unfolding or_fail
  or_fail-Sound t (u, es, none) h = h
  or_fail-Sound t (u, es, some e) h = Sends-seq t (u, es) (fail codec e) h (fail-Sound codec e)

  -- After `fail` the stream is at its end.
  pub fail-ends : (e : BridgeError) (t : SseTranslator) → (fail codec e t).0.finished ≡ true
  unfolding fail
  fail-ends e t = ground arith

  or_fail-Ends :
      (t : SseTranslator) (r : Try) → Ends codec t r → (or_fail codec r).0.finished ≡ true
  unfolding or_fail
  or_fail-Ends t (u, es, none) h = h.ended refl
  or_fail-Ends t (u, es, some e) h = fail-ends e u

  process_lines-Sends : (lines : List Text) → Sends (process_lines codec lines)
  unfolding process_lines
  process_lines-Sends [] t c = nothing-Sends t c
  process_lines-Sends (line ∷ lines) t c =
      if_intro (Sound t) t.finished (t, [])
        (or_fail codec (process_line codec line t) >> process_lines codec lines)
        (λ e. nothing-Sends t c)
        (λ e.
          Sends-seq t _ (process_lines codec lines)
            (or_fail-Sound t (process_line codec line t) (process_line-Sound line t e c))
            (process_lines-Sends lines))

  set_buffer-Sends : (b : Bytes) → Sends (λ t. (record t { buffer = b }, []))
  unfolding run phase
  set_buffer-Sends b t c = record {
    accepted = refl;
    consistent = record {
      open_ok = c.open_ok;
      fresh_index = c.fresh_index;
      fresh_flag = c.fresh_flag;
    };
  }

  bound_buffer-Sends : Sends (bound_buffer codec)
  unfolding bound_buffer
  bound_buffer-Sends t c =
      let x = upstream (codes "upstream SSE line exceeded 1 MiB") in
      if_intro (Sound t) t.finished (record t { buffer = [] }, [])
        (if ltb sse_line_limit (length t.buffer) then fail codec x t else (t, []))
        (λ e. set_buffer-Sends [] t c)
        (λ e.
          if_intro (Sound t) (ltb sse_line_limit (length t.buffer)) (fail codec x t) (t, [])
            (λ e. fail-Sound codec x t c) (λ e. nothing-Sends t c))

  pub feed-Sends : (chunk : Bytes) → Sends (feed codec chunk)
  unfolding feed
  feed-Sends chunk t c =
      let (lines, rest) = split_lines [] (t.buffer ++ chunk) in
      let u = record t { buffer = rest } in
      if_intro (Sound t) t.finished (t, [])
        (process_lines codec (lossy_all codec lines) u >> bound_buffer codec)
        (λ e. nothing-Sends t c)
        (λ e.
          Sends-seq t _ (bound_buffer codec)
            (Sends-seq t (u, []) (process_lines codec (lossy_all codec lines))
              (set_buffer-Sends rest t c) (process_lines-Sends (lossy_all codec lines)))
            bound_buffer-Sends)

  feed_all-Sends : (chunks : List Bytes) → Sends (feed_all codec chunks)
  unfolding feed_all
  feed_all-Sends [] t c = nothing-Sends t c
  feed_all-Sends (chunk ∷ chunks) t c =
      Sends-seq t _ (feed_all codec chunks) (feed-Sends chunk t c) (feed_all-Sends chunks)

  finalize_or_fail-Sends : Sends (finalize_or_fail codec)
  unfolding finalize_or_fail
  finalize_or_fail-Sends t c =
      if_intro (Sound t) t.finished (t, []) (or_fail codec (finalize codec t))
        (λ e. nothing-Sends t c)
        (λ e. or_fail-Sound t (finalize codec t) (finalize-Ends codec t c).sound)

  finalize_or_fail-Ends :
      (t : SseTranslator) → Consistent t → (finalize_or_fail codec t).0.finished ≡ true
  unfolding finalize_or_fail
  finalize_or_fail-Ends t c =
      if_intro (λ r. r.0.finished ≡ true) t.finished (t, []) (or_fail codec (finalize codec t))
        (λ e. e) (λ e. or_fail-Ends t (finalize codec t) (finalize-Ends codec t c))

  -- What `finish` does with the tail, before the end.
  tail-Sends :
      (lines : List Text)
      → Sends (λ t.
        if is_empty t.buffer then (t, []) else process_lines codec lines (record t { buffer = [] }))
  tail-Sends lines t c =
      let u = record t { buffer = [] } in
      if_intro (Sound t) (is_empty t.buffer) (t, []) (process_lines codec lines u)
        (λ e. nothing-Sends t c)
        (λ e.
          Sends-seq t (u, []) (process_lines codec lines) (set_buffer-Sends [] t c)
            (process_lines-Sends lines))

  -- `finish` ends the stream.
  pub record Finishes (t : SseTranslator) (r : Emit) : Type 0 where
    pub sound : Sound t r
    pub at_end : r.0.finished ≡ true

  pub finish-Finishes : (t : SseTranslator) → Consistent t → Finishes t (finish codec t)
  unfolding finish
  finish-Finishes t c =
      let (lines, last) = split_lines [] (codec.lossy t.buffer) in
      let r =
        if is_empty t.buffer
        then (t, [])
        else process_lines codec (lines ++ last ∷ []) (record t { buffer = [] }) in
      if_intro (Finishes t) t.finished (t, []) (r >> finalize_or_fail codec)
        (λ e. record { sound = nothing-Sends t c; at_end = e })
        (λ e.
          let tail = tail-Sends (lines ++ last ∷ []) t c in
          record {
            sound = Sends-seq t r (finalize_or_fail codec) tail finalize_or_fail-Sends;
            at_end = finalize_or_fail-Ends r.0 tail.consistent;
          })

  pub new-Consistent : (ctx : BridgeContext) → Consistent (new ctx)
  unfolding new
  new-Consistent ctx = record { open_ok = tt; fresh_index = refl; fresh_flag = refl }

  -- Whatever bytes the upstream sends and however they are cut into chunks, what the client has got
  -- after `finish` is one complete stream: a message that starts, its blocks in order, each opened,
  -- filled and closed, and its end, or the same cut off between two blocks by one error. The
  -- translator is then finished. The parser and the printer of JSON may be any functions.
  pub feed_all-finish_complete :
      (ctx : BridgeContext) (chunks : List Bytes)
      → (run (some before) (feed_all codec chunks (new ctx) >> finish codec).1 ≡ some ended)
        × (is_finished (feed_all codec chunks (new ctx) >> finish codec).0 ≡ true)
  unfolding is_finished phase new
  feed_all-finish_complete ctx chunks =
      let fed = feed_all-Sends chunks (new ctx) (new-Consistent ctx) in
      let r = feed_all codec chunks (new ctx) in
      let done = finish-Finishes r.0 fed.consistent in
      let both = Sound-seq (new ctx) r (finish codec) fed done.sound in
      (both.accepted ∙ ap some (phase_finished (r >> finish codec).0 done.at_end), done.at_end)
