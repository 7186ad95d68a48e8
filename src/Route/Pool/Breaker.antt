-- ===== src/Route/Pool/Breaker.antt =====
-- The circuit breaker under a sequence of results.
use brigh_to_router.Prelude.{
  ℕ, ◌+◌, ◌≡◌, refl, Bool, true, false, List, [], ◌∷◌, ltb, if◌then◌else◌, arith,
}
use brigh_to_router.Contract.Config.{Backend}
use brigh_to_router.Route.Pool.{BackendState, closed, opened, note, new_state}

-- Results with their times, oldest first.
pub notes : ℕ → List (Bool × ℕ) → BackendState → BackendState
notes dur [] s = s
notes dur ((ok, now) ∷ rs) s = notes dur rs (note ok now dur s)

-- The failures since the last success, beginning with `n`.
pub streak : ℕ → List (Bool × ℕ) → ℕ
streak n [] = n
streak n ((true, now) ∷ rs) = streak 0 rs
streak n ((false, now) ∷ rs) = streak (n + 1) rs

-- A state that `n` failures in a row have led to.
record Counts (n : ℕ) (s : BackendState) : Type 0 where
  circuit : s.circuit ≡ (if ltb n 3 then closed else opened)
  failures : (if ltb n 3 then s.consecutive_failures else n) ≡ n
  probe : s.half_open_probe ≡ ltb n 3

Counts-fail :
    (n dur now : ℕ) (s : BackendState) → Counts n s → Counts (n + 1) (note false now dur s)
unfolding note
Counts-fail n dur now s h = ground arith

Counts-ok : (dur now : ℕ) (s : BackendState) → Counts 0 (note true now dur s)
unfolding note
Counts-ok dur now s = record { circuit = refl; failures = refl; probe = refl }

Counts-notes :
    (n dur : ℕ) (rs : List (Bool × ℕ)) (s : BackendState)
    → Counts n s
    → Counts (streak n rs) (notes dur rs s)
unfolding streak notes
Counts-notes n dur [] s h = h
Counts-notes n dur ((true, now) ∷ rs) s h =
    Counts-notes 0 dur rs (note true now dur s) (Counts-ok dur now s)
Counts-notes n dur ((false, now) ∷ rs) s h =
    Counts-notes (n + 1) dur rs (note false now dur s) (Counts-fail n dur now s h)

-- A backend that starts anew is opened by a sequence of results exactly when the sequence ends in
-- three or more failures; otherwise its circuit is closed, and it has a probe exactly then.
pub notes-circuit :
    (dur : ℕ) (rs : List (Bool × ℕ)) (b : Backend)
    → ((notes dur rs (new_state b)).circuit ≡ (if ltb (streak 0 rs) 3 then closed else opened))
      × ((notes dur rs (new_state b)).half_open_probe ≡ ltb (streak 0 rs) 3)
unfolding new_state
notes-circuit dur rs b =
    let c =
      Counts-notes 0 dur rs (new_state b)
        (record { circuit = refl; failures = refl; probe = refl }) in
    (c.circuit, c.probe)
