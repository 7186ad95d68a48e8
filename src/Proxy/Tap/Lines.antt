-- ===== src/Proxy/Tap/Lines.antt =====
-- How the lines of a text are those of its pieces.
use brigh_to_router.Prelude.{◌≡◌, refl, ap, ◌∙◌, List, [], ◌∷◌, ◌++◌, ◌==◌, Bool-cases, inl, inr}
use mathlib.Core.List.{append_assoc}
use brigh_to_router.Json.{Bytes}
use brigh_to_router.Bridge.Stream.Feed.{split_lines}

-- A prefix of the first line, or of the rest where there is no line.
unfoldable pub prefix : Bytes → List Bytes × Bytes → List Bytes × Bytes
prefix p ([], t) = ([], p ++ t)
prefix p (l ∷ ls, t) = ((p ++ l) ∷ ls, t)

pub split_lines-prefix : (bs p q : Bytes) → split_lines (p ++ q) bs ≡ prefix p (split_lines q bs)
unfolding split_lines prefix
split_lines-prefix [] p q = refl
split_lines-prefix (b ∷ bs) p q = elim (Bool-cases (b == b'\n')) [
  | inl e ↦ rw e refl
  | inr e ↦ rw e (
      ap (λ l. split_lines l bs) (append_assoc p q (b ∷ []))
      ∙ split_lines-prefix bs p (q ++ b ∷ []))
]

-- The lines of two pieces are those of the first, and those of the second with what the first left.
pub split_lines-append :
    (xs ys p : Bytes)
    → split_lines p (xs ++ ys) ≡ (
      (split_lines p xs).0 ++ (split_lines (split_lines p xs).1 ys).0,
      (split_lines (split_lines p xs).1 ys).1,
    )
unfolding split_lines
split_lines-append [] ys p = refl
split_lines-append (x ∷ xs) ys p = elim (Bool-cases (x == b'\n')) [
  | inl e ↦ rw e (ap (λ r. (p ∷ r.0, r.1)) (split_lines-append xs ys []))
  | inr e ↦ rw e (split_lines-append xs ys (p ++ x ∷ []))
]
