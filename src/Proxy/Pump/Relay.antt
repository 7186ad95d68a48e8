-- ===== src/Proxy/Pump/Relay.antt =====
-- What passes through the tasks of Proxy/Pump.antt where the client takes everything.
use brigh_to_router.Prelude.{
  ℕ, ◌+◌, ◌≤◌, ◌≡◌, refl, ap, ◌∙◌, Bool, true, false, Option, none, some, List, [], ◌∷◌, ◌++◌,
  length, length-append, leb, if◌then◌else◌, if_intro, saturating_add, arith,
}
use mathlib.Core.List.{append_assoc, append-nil}
use brigh_to_router.Prelude.Text.{Text, codes}
use brigh_to_router.Contract.Config.{BackendFormat}
use brigh_to_router.Json.{Codec, Bytes}
use brigh_to_router.Bridge.Limited.{concat}
use brigh_to_router.Bridge.Stream.Feed.{split_lines}
use brigh_to_router.Proxy.Usage.{default, parse_usage_from_body}
use brigh_to_router.Proxy.Tap
use brigh_to_router.Proxy.Tap.{Tapped, fresh, feed_all}
use brigh_to_router.Proxy.Tap.Frames.{inspect_all, finish-feed_all}
use brigh_to_router.Proxy.Pump.{
  Next, chunk, broken, idle, usage_buffer_limit, stream_turn, ended, pump_stream, keep, body_turn,
  kept_usage, measured, pump_body,
}

-- The chunks before the upstream fails, and how it fails.
unfoldable pub chunks_of : List Next → List Bytes
chunks_of [] = []
chunks_of (chunk bytes ∷ rest) = bytes ∷ chunks_of rest
chunks_of (broken e ∷ rest) = []
chunks_of (idle ∷ rest) = []

unfoldable pub failure_of : List Next → Option Text
failure_of [] = none
failure_of (chunk bytes ∷ rest) = failure_of rest
failure_of (broken e ∷ rest) = some e
failure_of (idle ∷ rest) = some (codes "idle timeout")

snoc_append :
    (xs : List Bytes) (x : Bytes) (ys : List Bytes) → (xs ++ x ∷ []) ++ ys ≡ xs ++ (x ∷ ys)
snoc_append xs x ys = append_assoc xs (x ∷ []) ys

module _ (codec : Codec) (chunk_may_have_usage : Bytes → Bool) (accepts : ℕ → Bool)
    (takes_all : (n : ℕ) → accepts n ≡ true) (format : BackendFormat) where
  stream_turn-all :
      (n : ℕ) (nexts : List Next) (t : Tapped) (out : List Bytes)
      → stream_turn codec chunk_may_have_usage accepts format n nexts t out ≡ (
        out ++ chunks_of nexts,
        (feed_all codec chunk_may_have_usage format (chunks_of nexts) t, (false, failure_of nexts)),
      )
  unfolding stream_turn chunks_of failure_of feed_all
  stream_turn-all n [] t out = rw (append-nil out) refl
  stream_turn-all n (broken e ∷ rest) t out = rw (append-nil out) refl
  stream_turn-all n (idle ∷ rest) t out = rw (append-nil out) refl
  stream_turn-all n (chunk bytes ∷ rest) t out = rw (takes_all n) (
      stream_turn-all (n + 1) rest (Tap.feed codec chunk_may_have_usage format bytes t)
        (out ++ bytes ∷ [])
      ∙ ap
          (λ l. (
            l,
            (
              feed_all codec chunk_may_have_usage format (chunks_of rest)
                  (Tap.feed codec chunk_may_have_usage format bytes t),
              (false, failure_of rest),
            ),
          ))
          (snoc_append out bytes (chunks_of rest)))

  -- A client that takes everything gets the upstream's chunks unchanged and in order, up to a failure,
  -- and what is reported is the usage in the lines of all of them together, and that failure.
  pub pump_stream-relays :
      (nexts : List Next)
      → pump_stream codec chunk_may_have_usage accepts format nexts ≡ record {
        out = chunks_of nexts;
        usage = record {
          acc =
              inspect_all codec chunk_may_have_usage format
                ((split_lines [] (concat (chunks_of nexts))).0
                  ++ (split_lines [] (concat (chunks_of nexts))).1 ∷ [])
                default;
          client_aborted = false;
          error_class = failure_of nexts;
        };
      }
  unfolding pump_stream ended
  pump_stream-relays nexts =
      rw (stream_turn-all 0 nexts (fresh, default) [])
        (rw (finish-feed_all codec chunk_may_have_usage format (chunks_of nexts) default) refl)

module _ (codec : Codec) (chunk_may_have_usage : Bytes → Bool) (accepts : ℕ → Bool) where
  keep_all : List Bytes → Bytes × Bool → Bytes × Bool
  keep_all [] b = b
  keep_all (x ∷ xs) b = keep_all xs (keep x b)

  keep_all-long : (xs : List Bytes) (buffer : Bytes) → keep_all xs (buffer, false) ≡ (buffer, false)
  unfolding keep_all keep
  keep_all-long [] buffer = refl
  keep_all-long (x ∷ xs) buffer = keep_all-long xs buffer

  kept_usage-long :
      (format : BackendFormat) (xs : List Bytes) (buffer : Bytes)
      → kept_usage codec chunk_may_have_usage accepts format (keep_all xs (buffer, false)) ≡ default
  unfolding kept_usage
  kept_usage-long format xs buffer = rw (keep_all-long xs buffer) refl

  kept_usage-all :
      (format : BackendFormat) (xs : List Bytes) (buffer : Bytes)
      → length buffer ≤ usage_buffer_limit
      → kept_usage codec chunk_may_have_usage accepts format (keep_all xs (buffer, true)) ≡ (
          if leb (length (buffer ++ concat xs)) usage_buffer_limit
          then parse_usage_from_body codec (buffer ++ concat xs) format
          else default)
  unfolding keep_all keep concat kept_usage
  kept_usage-all format [] buffer fits = rw (append-nil buffer) (ground (arith, fits))
  kept_usage-all format (x ∷ xs) buffer fits =
      let long = buffer ++ (x ++ concat xs) in
      if_intro
        (λ b. kept_usage codec chunk_may_have_usage accepts format (keep_all xs b) ≡ (
          if leb (length long) usage_buffer_limit
          then parse_usage_from_body codec long format
          else default))
        (leb (saturating_add (length buffer) (length x)) usage_buffer_limit) (buffer ++ x, true)
        ([], false)
        (λ e.
          kept_usage-all format xs (buffer ++ x) (ground (arith, e, length-append buffer x))
          ∙ ap
              (λ (l : Bytes).
                if leb (length l) usage_buffer_limit
                then parse_usage_from_body codec l format
                else default)
              (append_assoc buffer x (concat xs)))
        (λ e.
          kept_usage-long format xs []
          ∙ ground (arith, e, length-append buffer (x ++ concat xs), length-append x (concat xs)))

  module _ (takes_all : (n : ℕ) → accepts n ≡ true) (format : BackendFormat) where
    body_turn-all :
        (n : ℕ) (nexts : List Next) (b : Bytes × Bool) (out : List Bytes)
        → body_turn codec chunk_may_have_usage accepts n nexts b out
          ≡ (out ++ chunks_of nexts, (keep_all (chunks_of nexts) b, (false, failure_of nexts)))
    unfolding body_turn chunks_of failure_of keep_all
    body_turn-all n [] b out = rw (append-nil out) refl
    body_turn-all n (broken e ∷ rest) b out = rw (append-nil out) refl
    body_turn-all n (idle ∷ rest) b out = rw (append-nil out) refl
    body_turn-all n (chunk bytes ∷ rest) b out =
        let kept = keep bytes b in
        rw (takes_all n) (
          body_turn-all (n + 1) rest kept (out ++ bytes ∷ [])
          ∙ ap (λ l. (l, (keep_all (chunks_of rest) kept, (false, failure_of rest))))
              (snoc_append out bytes (chunks_of rest)))

    -- The same of a response that is no stream; its usage is read from all of it, if that is a
    -- mebibyte at most, and is nothing else.
    pub pump_body-relays :
        (nexts : List Next)
        → pump_body codec chunk_may_have_usage accepts format nexts ≡ record {
          out = chunks_of nexts;
          usage = record {
            acc =
                if leb (length (concat (chunks_of nexts))) usage_buffer_limit
                then parse_usage_from_body codec (concat (chunks_of nexts)) format
                else default;
            client_aborted = false;
            error_class = failure_of nexts;
          };
        }
    unfolding pump_body measured
    pump_body-relays nexts =
        rw (body_turn-all 0 nexts ([], true) [])
          (rw (kept_usage-all format (chunks_of nexts) [] (omega arith)) refl)
