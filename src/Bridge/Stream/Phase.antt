-- ===== src/Bridge/Stream/Phase.antt =====
-- What an Anthropic client accepts, independently of the translator: a message starts, its blocks
-- come one after the other with consecutive indices, each opened, filled by deltas of its kind and
-- closed (a thinking block after one signature, a tool block after one piece of JSON), at least one
-- of them, then the message's delta and stop; or an error ends the stream between two blocks.
use brigh_to_router.Prelude.{
  ℕ, ◌+◌, ◌%◌, ◌≡◌, refl, Bool, true, false, Option, none, some, List, [], ◌∷◌, ◌++◌, ◌==◌,
  if◌then◌else◌, u32_mod, arith,
}
use brigh_to_router.Bridge.Stream.Events.{
  Event, message_start, block_start, block_delta, block_stop, message_delta, message_stop,
  error_event, Block, text_block, thinking_block, tool_use_block, Delta, text_delta, thinking_delta,
  signature_delta, input_json_delta,
}

-- `between n any` awaits block `n`, after some block or none; the others are in block `n`.
pub data Phase : Type 0 where
  before : Phase
  between : ℕ → Bool → Phase
  in_text in_thinking signed in_tool filled : ℕ → Phase
  closing ended : Phase

abbrev inside : Block → ℕ → Phase
inside text_block n = in_text n
inside thinking_block n = in_thinking n
inside (tool_use_block id name) n = in_tool n

delta_at : Phase → ℕ → Delta → Option Phase
delta_at (in_text n) i (text_delta s) = if n == i then some (in_text n) else none
delta_at (in_thinking n) i (thinking_delta s) = if n == i then some (in_thinking n) else none
delta_at (in_thinking n) i (signature_delta s) = if n == i then some (signed n) else none
delta_at (in_tool n) i (input_json_delta s) = if n == i then some (filled n) else none
delta_at _ i d = none

after_block : ℕ → ℕ → Option Phase
after_block n i = if n == i then some (between ((n + 1) % u32_mod) true) else none

stop_at : Phase → ℕ → Option Phase
unfolding after_block
stop_at (in_text n) i = after_block n i
stop_at (signed n) i = after_block n i
stop_at (filled n) i = after_block n i
stop_at _ i = none

start_at : Phase → ℕ → Block → Option Phase
start_at (between n any) i b = if n == i then some (inside b n) else none
start_at _ i b = none

unfoldable pub accept : Phase → Event → Option Phase
unfolding delta_at stop_at start_at
accept before (message_start id model tokens) = some (between 0 false)
accept p (block_start i b) = start_at p i b
accept p (block_delta i d) = delta_at p i d
accept p (block_stop i) = stop_at p i
accept (between n true) (message_delta reason tokens) = some closing
accept closing message_stop = some ended
accept before (error_event s m) = some ended
accept (between n any) (error_event s m) = some ended
accept _ _ = none

-- A sequence of events, as long as they are accepted.
unfoldable pub run : Option Phase → List Event → Option Phase
run p [] = p
run none (e ∷ es) = none
run (some p) (e ∷ es) = run (accept p e) es

pub run-none : (es : List Event) → run none es ≡ none
unfolding run
run-none [] = refl
run-none (e ∷ es) = refl

pub run-append : (p : Option Phase) (es fs : List Event) → run p (es ++ fs) ≡ run (run p es) fs
unfolding run
run-append p [] fs = refl
run-append none (e ∷ es) fs = ground (arith, run-none fs)
run-append (some p) (e ∷ es) fs = run-append (accept p e) es fs
