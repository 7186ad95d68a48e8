-- ===== src/Route/Counter/Runs.antt =====
-- No two draws of a model's counter give the same value, whatever routers make them.
use brigh_to_router.Prelude.{
  ℕ, ◌≤◌, ◌<◌, ◌≡◌, ◌≢◌, inl, inr, refl, ◌∙◌, sym, Option, List, [], ◌∷◌, ◌==◌, ==_iff,
  if◌then◌else◌, if_intro, arith, false, subst,
}
use brigh_to_router.Prelude.Eq.{list_eq}
use brigh_to_router.Prelude.Result.{Result, ok, err}
use brigh_to_router.Prelude.Text.{Text}
use brigh_to_router.Route.Select.{AcquireError}
use brigh_to_router.Route.Counter.Fresh.{high, Mine, Step, FreshDraw, Got, next-Right}
use brigh_to_router.Route.Counter.{CounterBlock, empty, Counters, Reply, next_persistent_counter}

-- What the routers do to one model's counter: one of them draws from it, with its own size of a
-- block and what becomes of its query, or is started again, with an empty block.
pub data Event : Type 0 where
  drawn : ℕ → ℕ → Option Reply → Event
  restarted : ℕ → Event

abbrev pub Blocks : Type 0
Blocks = ℕ → CounterBlock

unfoldable pub put : ℕ → CounterBlock → Blocks → Blocks
put r b blocks i = if r == i then b else blocks i

-- The values drawn, in order.
unfoldable pub values : Result ℕ AcquireError → List ℕ → List ℕ
values (err e) rest = rest
values (ok k) rest = k ∷ rest

unfoldable pub draw_all : Text → List Event → Blocks → Counters → List ℕ
unfolding values put
draw_all name [] blocks counters = []
draw_all name (restarted r ∷ evs) blocks counters = draw_all name evs (put r empty blocks) counters
draw_all name (drawn r size pool ∷ evs) blocks counters =
    let (b, later, result) = next_persistent_counter pool name size (blocks r) counters in
    values result (draw_all name evs (put r b blocks) later)

unfoldable pub Absent : ℕ → List ℕ → Type 0
Absent k [] = Unit
Absent k (j ∷ js) = (k ≢ j) × Absent k js

unfoldable pub Distinct : List ℕ → Type 0
Distinct [] = Unit
Distinct (k ∷ ks) = Absent k ks × Distinct ks

-- No two blocks have a number in common, and none goes beyond the row.
pub record Apart (blocks : Blocks) (h : ℕ) : Type 0 where
  pub within : (i : ℕ) → (blocks i).end ≤ h
  pub apart : (i j k : ℕ) → Mine (blocks i) k → Mine (blocks j) k → i ≡ j

-- A number that no router can draw any more.
record Spent (k : ℕ) (blocks : Blocks) (h : ℕ) : Type 0 where
  below : k < h
  free : (i : ℕ) → ¬ Mine (blocks i) k

put-cases :
    (P : CounterBlock → Type 0) (r i : ℕ) (b : CounterBlock) (blocks : Blocks)
    → (r ≡ i → P b)
    → ((r == i) ≡ false → P (blocks i))
    → P (put r b blocks i)
unfolding put
put-cases P r i b blocks here there =
    if_intro P (r == i) b (blocks i) (λ e. here ((==_iff r i).0 e)) there

module _ (h h' r : ℕ) (blocks : Blocks) (b' : CounterBlock) (step : Step h h' (blocks r) b')
    (safe : Apart blocks h) where
  Spent-kept : (k : ℕ) → Spent k blocks h → Spent k (put r b' blocks) h'
  Spent-kept k s = record {
    below = omega (arith, s.below, step.up);
    free = λ i.
        put-cases (λ b. ¬ Mine b k) r i b' blocks
          (λ e m. elim (step.mine k m) [
            | inl old ↦ s.free r old
            | inr new ↦ omega (arith, new, s.below)
          ])
          (λ e. s.free i);
  }

  -- A number of the new block is not in another router's.
  alone : (j k : ℕ) → (r == j) ≡ false → Mine b' k → Mine (blocks j) k → ⊥
  alone j k e m n = elim (step.mine k m) [
    | inl old ↦ absurd (ground (arith, e, safe.apart r j k old n))
    | inr new ↦ omega (arith, new, n.1, safe.within j)
  ]

  Apart-kept : Apart (put r b' blocks) h'
  Apart-kept = record {
    within = λ i.
        put-cases (λ b. b.end ≤ h') r i b' blocks (λ e. step.within)
          (λ e. omega (arith, safe.within i, step.up));
    apart = λ i j k.
        put-cases (λ b. Mine b k → Mine (put r b' blocks j) k → i ≡ j) r i b' blocks
          (λ e m.
            put-cases (λ b. Mine b k → i ≡ j) r j b' blocks (λ f n. sym e ∙ f)
              (λ f n. absurd (alone j k f m n)))
          (λ e m.
            put-cases (λ b. Mine b k → i ≡ j) r j b' blocks (λ f n. absurd (alone i k e n m))
              (λ f n. safe.apart i j k m n));
  }

  Spent-drawn : (k : ℕ) → FreshDraw h h' (blocks r) b' k → Spent k (put r b' blocks) h'
  Spent-drawn k f = record {
    below = f.below;
    free = λ i.
        put-cases (λ b. ¬ Mine b k) r i b' blocks (λ e m. omega (arith, m.0, f.behind))
          (λ e m. elim f.from [
            | inl old ↦ absurd (ground (arith, e, safe.apart r i k old m))
            | inr new ↦ omega (arith, new, m.1, safe.within i)
          ]);
  }

  FreshDraw-≢ : (k j : ℕ) → Spent k blocks h → FreshDraw h h' (blocks r) b' j → k ≢ j
  FreshDraw-≢ k j s f = λ e. elim f.from [
    | inl old ↦ s.free r (subst (Mine (blocks r)) (sym e) old)
    | inr new ↦ omega (arith, new, e, s.below)
  ]

restart-Step : (h : ℕ) (b : CounterBlock) → Step h h b empty
unfolding empty
restart-Step h b = record {
  up = omega arith;
  within = omega arith;
  mine = λ j m. absurd (omega (arith, m.1));
}

values-Absent :
    (k : ℕ) (result : Result ℕ AcquireError) (rest : List ℕ)
    → ((j : ℕ) → result ≡ ok j → k ≢ j)
    → Absent k rest
    → Absent k (values result rest)
unfolding values Absent
values-Absent k (err e) rest other h = h
values-Absent k (ok j) rest other h = (other j refl, h)

values-Distinct :
    (result : Result ℕ AcquireError) (rest : List ℕ)
    → ((j : ℕ) → result ≡ ok j → Absent j rest)
    → Distinct rest
    → Distinct (values result rest)
unfolding values Distinct
values-Distinct (err e) rest other h = h
values-Distinct (ok j) rest other h = (other j refl, h)

got :
    (h h' : ℕ) (b b' : CounterBlock) (result : Result ℕ AcquireError) (k : ℕ)
    → Got h h' b b' result
    → result ≡ ok k
    → FreshDraw h h' b b' k
unfolding Got
got h h' b b' result k g e = rw e at g

module _ (name : Text) where
  draw_all-Absent :
      (evs : List Event) (k : ℕ) (blocks : Blocks) (counters : Counters)
      → Apart blocks (high name counters)
      → Spent k blocks (high name counters)
      → Absent k (draw_all name evs blocks counters)
  unfolding draw_all Absent
  draw_all-Absent [] k blocks counters safe s = tt
  draw_all-Absent (restarted r ∷ evs) k blocks counters safe s =
      let h = high name counters in
      let step = restart-Step h (blocks r) in
      draw_all-Absent evs k (put r empty blocks) counters (Apart-kept h h r blocks empty step safe)
        (Spent-kept h h r blocks empty step safe k s)
  draw_all-Absent (drawn r size pool ∷ evs) k blocks counters safe s =
      let h = high name counters in
      let (b, later, result) = next_persistent_counter pool name size (blocks r) counters in
      let (step, g) = next-Right pool name size (blocks r) counters (safe.within r) in
      values-Absent k result _
        (λ j e.
          FreshDraw-≢ h (high name later) r blocks b step safe k j s
            (got h (high name later) (blocks r) b result j g e))
        (draw_all-Absent evs k (put r b blocks) later
          (Apart-kept h (high name later) r blocks b step safe)
          (Spent-kept h (high name later) r blocks b step safe k s))

  draw_all-Distinct :
      (evs : List Event) (blocks : Blocks) (counters : Counters)
      → Apart blocks (high name counters)
      → Distinct (draw_all name evs blocks counters)
  unfolding draw_all Distinct
  draw_all-Distinct [] blocks counters safe = tt
  draw_all-Distinct (restarted r ∷ evs) blocks counters safe =
      let h = high name counters in
      draw_all-Distinct evs (put r empty blocks) counters
        (Apart-kept h h r blocks empty (restart-Step h (blocks r)) safe)
  draw_all-Distinct (drawn r size pool ∷ evs) blocks counters safe =
      let h = high name counters in
      let (b, later, result) = next_persistent_counter pool name size (blocks r) counters in
      let (step, g) = next-Right pool name size (blocks r) counters (safe.within r) in
      let kept = Apart-kept h (high name later) r blocks b step safe in
      values-Distinct result _
        (λ j e. draw_all-Absent evs j (put r b blocks) later kept (
          Spent-drawn h (high name later) r blocks b step safe j
            (got h (high name later) (blocks r) b result j g e)))
        (draw_all-Distinct evs (put r b blocks) later kept)

  -- However many routers draw from the counter of a model, in whatever order, with whatever sizes of
  -- their blocks, queries that fail before or after they took effect, and routers that are started
  -- again, no value is drawn twice, whatever the table said at first. Every router begins with an
  -- empty block, and the row of the model is changed by nothing else.
  pub counter-Distinct :
      (evs : List Event) (counters : Counters) → Distinct (draw_all name evs (λ r. empty) counters)
  unfolding empty high
  counter-Distinct evs counters =
      draw_all-Distinct evs (λ r. empty) counters
        (record { within = λ i. omega arith; apart = λ i j k m n. absurd (omega (arith, m.1)) })
