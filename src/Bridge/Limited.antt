-- ===== src/Bridge/Limited.antt =====
-- `read_body_limited` of src/bridge/mod.rs: the length that the response declares, and its chunks, of
-- which any may be a read error.
use brigh_to_router.Prelude.{
  ℕ, ◌-◌, ◌≤◌, ◌<◌, ◌≡◌, ◌∙◌, sym, ap, Bool, false, Option, none, some, List, [], ◌∷◌, ◌++◌, map,
  length, length-append, ltb, if◌then◌else◌, if_intro, saturating_add, u64_mod, arith,
}
use mathlib.Core.List.{append_assoc, append-nil}
use brigh_to_router.Prelude.Result.{Result, ok, err}
use brigh_to_router.Prelude.Text.{Text}
use brigh_to_router.Json.{Bytes}
use brigh_to_router.Bridge.{BridgeError, upstream, too_large}

read_chunks : ℕ → Bytes → List (Result Bytes Text) → Result Bytes BridgeError
read_chunks limit out [] = ok out
read_chunks limit out (err e ∷ chunks) = err (upstream e)
read_chunks limit out (ok chunk ∷ chunks) =
    let rest = read_chunks limit (out ++ chunk) chunks in
    if ltb limit (saturating_add (length out) (length chunk)) then err too_large else rest

pub declares_more : Option ℕ → ℕ → Bool
declares_more none limit = false
declares_more (some n) limit = ltb limit n

unfoldable pub read_body_limited :
    Option ℕ → List (Result Bytes Text) → ℕ → Result Bytes BridgeError
unfolding read_chunks declares_more
read_body_limited content_length chunks limit =
    if declares_more content_length limit then err too_large else read_chunks limit [] chunks

unfoldable pub concat : List Bytes → Bytes
concat [] = []
concat (c ∷ cs) = c ++ concat cs

-- The body within the limit.
pub within : ℕ → Bytes → Result Bytes BridgeError
within limit body = if ltb limit (length body) then err too_large else ok body

read_chunks-within :
    (limit : ℕ) (out : Bytes) (chunks : List Bytes)
    → limit < u64_mod - 1
    → length out ≤ limit
    → read_chunks limit out (map ok chunks) ≡ within limit (out ++ concat chunks)
unfolding read_chunks within concat
read_chunks-within limit out [] h k =
    if_intro (λ r. ok out ≡ r) (ltb limit (length (out ++ []))) (err too_large) (ok (out ++ []))
      (λ e. ground (arith, length-append out [])) (λ e. ap ok (sym (append-nil out)))
read_chunks-within limit out (c ∷ cs) h k =
    let total = length-append out c in
    if_intro (λ r. r ≡ within limit (out ++ (c ++ concat cs)))
      (ltb limit (saturating_add (length out) (length c))) (err too_large)
      (read_chunks limit (out ++ c) (map ok cs))
      (λ e.
        let rest = length-append out (c ++ concat cs) in
        let all = length-append c (concat cs) in ground (arith, total, rest, all))
      (λ e.
        read_chunks-within limit (out ++ c) cs h (ground (arith, total))
        ∙ ap (within limit) (append_assoc out c (concat cs)))

-- A body that is read without an error is whole and within the limit, and is refused as too large
-- exactly when its declared length or its length is above the limit, however it is cut into chunks.
-- The limit is below the largest `usize`.
pub read_body_limited-within :
    (content_length : Option ℕ) (chunks : List Bytes) (limit : ℕ)
    → limit < u64_mod - 1
    → read_body_limited content_length (map ok chunks) limit
      ≡ (if declares_more content_length limit then err too_large else within limit (concat chunks))
unfolding read_body_limited
read_body_limited-within n chunks limit h =
    ap (λ r. if declares_more n limit then err too_large else r)
      (read_chunks-within limit [] chunks h (omega arith))
