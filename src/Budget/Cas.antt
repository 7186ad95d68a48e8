-- ===== src/Budget/Cas.antt =====
-- The compare-exchange loops of `reserve_scope` and `acquire_concurrency` (src/budget/mod.rs) as
-- interleavings. Any number of threads share one counter; each round of a thread's loop is the
-- model's own `reserve_round`, on the value that the thread last observed. A concurrency slot is
-- a reservation of 1.
pub mod Tests
use brigh_to_router.Prelude.{
  ℕ, zero, suc, ◌+◌, ◌-◌, ◌≤◌, ◌≡◌, some, List, [], ◌∷◌, arith, get_elem?, set,
}
use brigh_to_router.Prelude.Result.{ok, err}
use brigh_to_router.Budget.Usage.{reserve_round}

-- A thread before its first load, in its loop with the observed value, with its reservation,
-- refused, and after it gave the reservation back.
pub data Thread : Type 0 where
  idle : ℕ → Thread
  loaded : ℕ → ℕ → Thread
  granted : ℕ → Thread
  refused : Thread
  released : Thread

-- One atomic operation of a thread, on a counter that holds `c`.
pub data Move (limit c : ℕ) : Thread → ℕ → Thread → Type 0 where
  load : (a : ℕ) → Move limit c (idle a) c (loaded a c)
  refuse : (a o r : ℕ) → reserve_round limit a o ≡ err r → Move limit c (loaded a o) c refused
  exchange :
      (a o v : ℕ) → o ≡ c → reserve_round limit a o ≡ ok v → Move limit c (loaded a o) v (granted a)
  observe : (a o v : ℕ) → reserve_round limit a o ≡ ok v → Move limit c (loaded a o) c (loaded a c)
  give_back : (a : ℕ) → Move limit c (granted a) (c - a) released

pub record Shared : Type 0 where
  pub counter : ℕ
  pub threads : List Thread

pub data Step (limit : ℕ) (s : Shared) : Shared → Type 0 where
  move :
      (i c' : ℕ) (t t' : Thread)
      → get_elem? s.threads i ≡ some t
      → Move limit s.counter t c' t'
      → Step limit s (record { counter = c'; threads = set s.threads i t' })

pub data Reach (limit : ℕ) (s : Shared) : Shared → Type 0 where
  here : Reach limit s s
  next : {t u : Shared} → Reach limit s t → Step limit t u → Reach limit s u

-- The tokens that a thread, and all of them, hold.
abbrev holds : Thread → ℕ
holds (granted a) = a
holds _ = 0

unfoldable pub held : List Thread → ℕ
held [] = 0
held (t ∷ ts) = holds t + held ts

held-set :
    (ts : List Thread) (i : ℕ) (t t' : Thread)
    → get_elem? ts i ≡ some t
    → held (set ts i t') + holds t ≡ held ts + holds t'
unfolding held
held-set [] i t t' e = ground arith
held-set (x ∷ ts) zero t t' e = ground arith
held-set (x ∷ ts) (suc i) t t' e = omega (arith, held-set ts i t t' e)

rest_of :
    (ts : List Thread) (i : ℕ) (t : Thread)
    → get_elem? ts i ≡ some t
    → (r : ℕ) × (held ts ≡ holds t + r)
rest_of ts i t e = (held (set ts i refused), omega (arith, held-set ts i t refused e))

-- What a move does to the counter, and that it stays within the limit.
Move-effect :
    (limit base c c' : ℕ) (t t' : Thread) (rest : ℕ)
    → Move limit c t c' t'
    → c ≡ base + holds t + rest
    → (c' ≡ base + holds t' + rest) × (c ≤ limit → c' ≤ limit)
unfolding reserve_round
Move-effect limit base c c' _ _ rest (load a) e = (e, λ h. h)
Move-effect limit base c c' _ _ rest (refuse a o r q) e = (e, λ h. h)
Move-effect limit base c c' _ _ rest (exchange a o v same q) e = (ground arith, ground arith)
Move-effect limit base c c' _ _ rest (observe a o v q) e = (e, λ h. h)
Move-effect limit base c c' _ _ rest (give_back a) e = (omega arith, λ h. omega arith)

record Inv (limit base : ℕ) (s : Shared) : Type 0 where
  exact : s.counter ≡ base + held s.threads
  bounded : base ≤ limit → s.counter ≤ limit

Step-Inv : {s t : Shared} (limit base : ℕ) → Step limit s t → Inv limit base s → Inv limit base t
Step-Inv {s} limit base (move i c' t t' e m) v =
    let moved = held-set s.threads i t t' e in
    let rest : (r : ℕ) × (held s.threads ≡ holds t + r) = rest_of s.threads i t e in
    let effect =
      Move-effect limit base s.counter c' t t' rest.0 m (omega (arith, v.exact, rest.1)) in
    record { exact = omega (arith, effect.0, moved, rest.1); bounded = λ h. effect.1 (v.bounded h) }

Reach-Inv :
    {s : Shared} (limit base : ℕ) {t : Shared}
    → Inv limit base s
    → Reach limit s t
    → Inv limit base t
Reach-Inv limit base v here = v
Reach-Inv limit base v (next r st) = Step-Inv limit base st (Reach-Inv limit base v r)

-- However the loads, compare-exchanges and give-backs of any number of threads interleave, from a
-- counter within the limit and threads that hold nothing, the counter is where it began plus what
-- the threads hold, and it stays within the limit.
pub interleaved_reserves :
    {s t : Shared} (limit : ℕ)
    → held s.threads ≡ 0
    → s.counter ≤ limit
    → Reach limit s t
    → (t.counter ≡ s.counter + held t.threads) × (t.counter ≤ limit)
interleaved_reserves {s} limit none_held within r =
    let v =
      Reach-Inv limit s.counter (record { exact = omega (arith, none_held); bounded = λ h. h }) r in
    (v.exact, v.bounded within)
