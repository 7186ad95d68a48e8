-- ===== src/Proxy/Span/Blank.antt =====
-- The white space that the scanners of src/proxy/mod.rs skip.
use brigh_to_router.Prelude.{
  ℕ, zero, suc, ◌+◌, ◌≤◌, ◌≡◌, refl, ap, ◌∙◌, Bool, true, ◌&&◌, Option, none, some, [], ◌∷◌, length,
  get_elem?, if_intro, arith,
}
use brigh_to_router.Json.{Bytes}
use brigh_to_router.Proxy.Span.{slice, is_space, at_space, skip_ws_on, skip_ws}
use brigh_to_router.Proxy.Span.Strings.{slice_at, slice_none}

-- Only white space.
unfoldable pub blank : Bytes → Bool
blank [] = true
blank (c ∷ bs) = is_space c && blank bs

-- White space from one place to another.
pub record Blank (body : Bytes) (i j : ℕ) : Type 0 where
  pub in_order : i ≤ j
  pub spaces : blank (slice body i j) ≡ true

Blank-here : (body : Bytes) (i : ℕ) → Blank body i i
unfolding blank
Blank-here body i = record { in_order = omega arith; spaces = ap blank (slice_none body i) }

at_space-some : (o : Option ℕ) → at_space o ≡ true → (c : ℕ) × (o ≡ some c) × (is_space c ≡ true)
unfolding at_space
at_space-some none e = absurd (ground arith)
at_space-some (some c) e = (c, refl, e)

Blank-next :
    (body : Bytes) (i j : ℕ)
    → at_space (get_elem? body i) ≡ true
    → Blank body (i + 1) j
    → Blank body i j
unfolding blank
Blank-next body i j e h =
    let (c, found, space) = at_space-some (get_elem? body i) e in
    record {
      in_order = omega (arith, h.in_order);
      spaces = ap blank (slice_at body i j c found (omega (arith, h.in_order))) ∙ rw space h.spaces;
    }

skip_ws_on-Blank : (fuel : ℕ) (body : Bytes) (i : ℕ) → Blank body i (skip_ws_on fuel body i)
unfolding skip_ws_on
skip_ws_on-Blank zero body i = Blank-here body i
skip_ws_on-Blank (suc fuel) body i =
    if_intro (Blank body i) (at_space (get_elem? body i)) (skip_ws_on fuel body (i + 1)) i
      (λ e. Blank-next body i _ e (skip_ws_on-Blank fuel body (i + 1))) (λ e. Blank-here body i)

pub skip_ws-Blank : (body : Bytes) (i : ℕ) → Blank body i (skip_ws body i)
unfolding skip_ws
skip_ws-Blank body i = skip_ws_on-Blank (suc (length body)) body i
