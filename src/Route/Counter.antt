-- ===== src/Route/Counter.antt =====
-- `CounterBlock` and `next_persistent_counter` of src/route/mod.rs: the round-robin counter of a
-- model, taken from the table `model_route_counters` in blocks. The table is the number of each
-- model's row, and the query is its two forms, with the error of PostgreSQL above 63 bits. What the
-- connection makes of a query is given by its reply. The call is the round of the loop that returns.
pub mod Fresh
pub mod Runs
pub mod Tests
use brigh_to_router.Prelude.{ℕ, ◌+◌, ◌-◌, ◌^◌, Option, none, some, ltb, leb, if◌then◌else◌, min}
use brigh_to_router.Prelude.Eq.{list_eq}
use brigh_to_router.Prelude.Maps.{Map, lookup, insert}
use brigh_to_router.Prelude.Result.{Result, ok, err}
use brigh_to_router.Prelude.Text.{Text, codes}
use brigh_to_router.Route.Select.{AcquireError, counter_unavailable}

pub record CounterBlock : Type 0 where
  pub next : ℕ
  pub end : ℕ

pub empty : CounterBlock
empty = record { next = 0; end = 0 }

-- `model_name` and `next_value`.
abbrev pub Counters : Type 0
Counters = Map Text ℕ

-- The query is answered, or it fails, before or after its row is written.
pub data Reply : Type 0 where
  answered : Reply
  failed lost : Text → Reply

pub value_of : Option ℕ → ℕ
value_of none = 0
value_of (some v) = v

-- `INSERT ... ON CONFLICT (model_name) DO UPDATE SET next_value = next_value + $2
-- RETURNING next_value - $2, next_value`.
allocate : Text → ℕ → Counters → Counters × Result (ℕ × ℕ) Text
unfolding value_of
allocate name size counters =
    let next = value_of (lookup name counters) + size in
    if leb (2 ^ 63) next
    then (counters, err (codes "bigint out of range"))
    else (insert name next counters, ok (next - size, next))

query : Reply → Text → ℕ → Counters → Counters × Result (ℕ × ℕ) Text
unfolding allocate
query answered name size counters = allocate name size counters
query (failed e) name size counters = (counters, err e)
query (lost e) name size counters = ((allocate name size counters).0, err e)

abbrev pub Drawn : Type 0
Drawn = CounterBlock × Counters × Result ℕ AcquireError

take_block : CounterBlock → Counters × Result (ℕ × ℕ) Text → Drawn
take_block b (counters, err e) = (b, counters, err (counter_unavailable e))
take_block b (counters, ok (start, end)) =
    if leb end start
    then (
      b,
      counters,
      err (counter_unavailable (codes "route counter unavailable: empty allocated block")),
    )
    else (record { next = start + 1; end = end }, counters, ok start)

-- Without a reply there is no pool.
refill_block : Option Reply → Text → ℕ → CounterBlock → Counters → Drawn
unfolding take_block query
refill_block none name size b counters = (
  b,
  counters,
  err (counter_unavailable (codes "route counter unavailable: PostgreSQL pool is not configured")),
)
refill_block (some reply) name size b counters =
    take_block b (query reply name (min size (2 ^ 63 - 1)) counters)

unfoldable pub next_persistent_counter : Option Reply → Text → ℕ → CounterBlock → Counters → Drawn
unfolding refill_block
next_persistent_counter pool name size b counters =
    if ltb b.next b.end
    then (record b { next = b.next + 1 }, counters, ok b.next)
    else refill_block pool name size b counters
