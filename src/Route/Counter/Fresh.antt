-- ===== src/Route/Counter/Fresh.antt =====
-- One draw from a model's counter: what it does to the block of its router and to the table.
use brigh_to_router.Prelude.{
  ℕ, ◌+◌, ◌-◌, ◌^◌, ◌≤◌, ◌<◌, ◌≡◌, ◌⊎◌, inl, inr, refl, ap, ◌∙◌, Option, none, some, ltb, leb,
  if◌then◌else◌, if_intro, min, arith,
}
use brigh_to_router.Prelude.Eq.{list_eq, list_beq_iff}
use brigh_to_router.Prelude.Maps.{lookup, insert, lookup-insert}
use brigh_to_router.Prelude.Result.{Result, ok, err}
use brigh_to_router.Prelude.Text.{Text, codes}
use brigh_to_router.Route.Select.{AcquireError}
use brigh_to_router.Route.Counter.{
  CounterBlock, Counters, Reply, answered, failed, lost, value_of, allocate, query, Drawn,
  take_block, refill_block, next_persistent_counter,
}

-- What the row of the model says.
unfoldable pub high : Text → Counters → ℕ
high name counters = value_of (lookup name counters)

abbrev pub Mine : CounterBlock → ℕ → Type 0
Mine b k = (b.next ≤ k) × (k < b.end)

-- One call: its block takes nothing that the table had given out to others, and the value drawn is
-- the block's or new.
pub record Step (h h' : ℕ) (b b' : CounterBlock) : Type 0 where
  pub up : h ≤ h'
  pub within : b'.end ≤ h'
  pub mine : (j : ℕ) → Mine b' j → Mine b j ⊎ (h ≤ j)

pub record FreshDraw (h h' : ℕ) (b b' : CounterBlock) (k : ℕ) : Type 0 where
  pub from : Mine b k ⊎ (h ≤ k)
  pub below : k < h'
  pub behind : k < b'.next

unfoldable pub Got : ℕ → ℕ → CounterBlock → CounterBlock → Result ℕ AcquireError → Type 0
Got h h' b b' (err e) = Unit
Got h h' b b' (ok k) = FreshDraw h h' b b' k

abbrev pub Right : Text → CounterBlock → Counters → Drawn → Type 0
Right name b counters (b', later, result) =
    Step (high name counters) (high name later) b b'
    × Got (high name counters) (high name later) b b' result

same-Step : (h h' : ℕ) (b : CounterBlock) → h ≤ h' → b.end ≤ h → Step h h' b b
same-Step h h' b up end = record { up = up; within = omega (arith, up, end); mine = λ j m. inl m }

Given : Text → Counters → Counters × Result (ℕ × ℕ) Text → Type 0
Given name counters (later, err e) = high name counters ≤ high name later
Given name counters (later, ok (start, end)) =
    (high name counters ≤ start) × (end ≤ high name later) × (high name counters ≤ high name later)

lookup_self : (name : Text) (n : ℕ) (m : Counters) → high name (insert name n m) ≡ n
unfolding high value_of
lookup_self name n m =
    ap value_of (lookup-insert name name n m)
    ∙ ap (λ t. value_of (if t then some n else lookup name m)) ((list_beq_iff name name).1 refl)

allocate-Given :
    (name : Text) (size : ℕ) (counters : Counters)
    → Given name counters (allocate name size counters)
unfolding allocate Given high
allocate-Given name size counters =
    let next = value_of (lookup name counters) + size in
    if_intro (Given name counters) (leb (2 ^ 63) next) (counters, err (codes "bigint out of range"))
      (insert name next counters, ok (next - size, next)) (λ e. omega arith)
      (λ e.
        let self : value_of (lookup name (insert name next counters)) ≡ next =
          lookup_self name next counters in
        (omega arith, omega (arith, self), omega (arith, self)))

allocate-up :
    (name : Text) (size : ℕ) (counters : Counters)
    → high name counters ≤ high name (allocate name size counters).0
unfolding allocate high
allocate-up name size counters =
    let next = value_of (lookup name counters) + size in
    if_intro
      (λ (x : Counters × Result (ℕ × ℕ) Text).
        value_of (lookup name counters) ≤ value_of (lookup name x.0))
      (leb (2 ^ 63) next) (counters, err (codes "bigint out of range"))
      (insert name next counters, ok (next - size, next)) (λ e. omega arith)
      (λ e.
        let self : value_of (lookup name (insert name next counters)) ≡ next =
          lookup_self name next counters in
        omega (arith, self))

query-Given :
    (reply : Reply) (name : Text) (size : ℕ) (counters : Counters)
    → Given name counters (query reply name size counters)
unfolding query Given
query-Given answered name size counters = allocate-Given name size counters
query-Given (failed e) name size counters = omega arith
query-Given (lost e) name size counters = allocate-up name size counters

take_block-Right :
    (name : Text) (b : CounterBlock) (counters : Counters) (r : Counters × Result (ℕ × ℕ) Text)
    → b.end ≤ high name counters
    → Given name counters r
    → Right name b counters (take_block b r)
unfolding take_block Got Given
take_block-Right name b counters (later, err e) end up =
    (same-Step (high name counters) (high name later) b up end, tt)
take_block-Right name b counters (later, ok (start, last)) end (low, top, up) =
    if_intro (Right name b counters) (leb last start) _ _
      (λ e. (same-Step (high name counters) (high name later) b up end, tt))
      (λ e. (
        record { up = up; within = top; mine = λ j m. inr (omega (arith, m.0, low)) },
        record { from = inr low; below = ground (arith, e, top); behind = omega arith },
      ))

refill_block-Right :
    (pool : Option Reply) (name : Text) (size : ℕ) (b : CounterBlock) (counters : Counters)
    → b.end ≤ high name counters
    → Right name b counters (refill_block pool name size b counters)
unfolding refill_block Got
refill_block-Right none name size b counters end =
    (same-Step (high name counters) (high name counters) b (omega arith) end, tt)
refill_block-Right (some reply) name size b counters end =
    let n = min size (2 ^ 63 - 1) in
    take_block-Right name b counters (query reply name n counters) end
      (query-Given reply name n counters)

pub next-Right :
    (pool : Option Reply) (name : Text) (size : ℕ) (b : CounterBlock) (counters : Counters)
    → b.end ≤ high name counters
    → Right name b counters (next_persistent_counter pool name size b counters)
unfolding next_persistent_counter refill_block Got
next-Right pool name size b counters end =
    if_intro (Right name b counters) (ltb b.next b.end) _ _
      (λ e. (
        record {
          up = omega arith;
          within = end;
          mine = λ j m. let (l, u) = m in inl (omega (arith, l), u);
        },
        record {
          from = inl (omega arith, ground (arith, e));
          below = ground (arith, e, end);
          behind = omega arith;
        },
      ))
      (λ e. refill_block-Right pool name size b counters end)
