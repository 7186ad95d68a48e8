-- ===== src/Proxy/Upload.antt =====
-- The bodies that the proxy sends, which tell their exact length: `ExactLengthUploadBody` and
-- `ExactLengthChunksBody` of src/proxy/mod.rs. Their locks are held for a whole call.
use brigh_to_router.Prelude.{
  ℕ, ◌+◌, ◌-◌, ◌<◌, ◌≡◌, refl, Bool, true, false, Option, none, some, List, [], ◌∷◌, ◌++◌, length,
  length-append, saturating_add, u64_mod, arith,
}
use brigh_to_router.Prelude.Text.{Text}
use brigh_to_router.Json.{Bytes}
use brigh_to_router.Bridge.Limited.{concat}

-- What the client's stream gives when it is polled.
pub data Polled : Type 0 where
  chunk : Bytes → Polled
  failed : Text → Polled
  at_end pending : Polled

pub record ExactLengthUploadBody : Type 0 where
  pub prefix : Option Bytes
  pub sent : ℕ
  pub ended : Bool
  pub content_length : ℕ

pub new_upload : Bytes → ℕ → ExactLengthUploadBody
new_upload prefix content_length = record {
  prefix = some prefix;
  sent = 0;
  ended = false;
  content_length = content_length;
}

poll_rest : Polled → ExactLengthUploadBody → Polled × ExactLengthUploadBody
poll_rest (chunk c) b = (chunk c, record b { sent = saturating_add b.sent (length c) })
poll_rest (failed e) b = (failed e, b)
poll_rest at_end b = (at_end, record b { ended = true })
poll_rest pending b = (pending, b)

-- The prefix goes first; an empty one makes no frame, and the stream is polled at once.
poll_upload_from : Option Bytes → Polled → ExactLengthUploadBody → Polled × ExactLengthUploadBody
unfolding poll_rest
poll_upload_from none rest b = poll_rest rest b
poll_upload_from (some []) rest b = poll_rest rest (record b { prefix = none })
poll_upload_from (some (x ∷ xs)) rest b =
    (chunk (x ∷ xs), record b { prefix = none; sent = saturating_add b.sent (length (x ∷ xs)) })

pub poll_upload : Polled → ExactLengthUploadBody → Polled × ExactLengthUploadBody
unfolding poll_upload_from
poll_upload rest b = poll_upload_from b.prefix rest b

pub size_hint_upload : ExactLengthUploadBody → ℕ
size_hint_upload b = b.content_length - b.sent

pub record ExactLengthChunksBody : Type 0 where
  pub chunks : List Bytes
  pub sent : ℕ
  pub ended : Bool
  pub content_length : ℕ

sum_lengths : List Bytes → ℕ
sum_lengths [] = 0
sum_lengths (c ∷ cs) = length c + sum_lengths cs

unfoldable pub new_chunks : List Bytes → ExactLengthChunksBody
unfolding sum_lengths
new_chunks chunks = record {
  chunks = chunks;
  sent = 0;
  ended = false;
  content_length = sum_lengths chunks;
}

-- An empty chunk is passed over.
poll_from : List Bytes → ExactLengthChunksBody → Option Bytes × ExactLengthChunksBody
poll_from [] b = (none, record b { chunks = []; ended = true })
poll_from ([] ∷ cs) b = poll_from cs b
poll_from ((x ∷ xs) ∷ cs) b =
    (some (x ∷ xs), record b { chunks = cs; sent = saturating_add b.sent (length (x ∷ xs)) })

unfoldable pub poll_chunks : ExactLengthChunksBody → Option Bytes × ExactLengthChunksBody
unfolding poll_from
poll_chunks b = poll_from b.chunks b

unfoldable pub size_hint : ExactLengthChunksBody → ℕ
size_hint b = b.content_length - b.sent

-- The frame of a poll.
unfoldable pub frame : Option Bytes → Bytes
frame none = []
frame (some c) = c

-- What has been sent and what is left make up the length that was told.
unfoldable pub Exact : ExactLengthChunksBody → Type 0
unfolding concat
Exact b = (b.sent + length (concat b.chunks) ≡ b.content_length) × (b.content_length < u64_mod)

sum_lengths-concat : (cs : List Bytes) → sum_lengths cs ≡ length (concat cs)
unfolding sum_lengths concat
sum_lengths-concat [] = refl
sum_lengths-concat (c ∷ cs) = ground (arith, sum_lengths-concat cs, length-append c (concat cs))

pub new_chunks-Exact : (cs : List Bytes) → length (concat cs) < u64_mod → Exact (new_chunks cs)
unfolding new_chunks Exact
new_chunks-Exact cs h = ground (arith, sum_lengths-concat cs, h)

-- A poll that gives the next of the bytes and keeps the length exact.
record Gives (bytes : Bytes) (r : Option Bytes × ExactLengthChunksBody) : Type 0 where
  in_order : bytes ≡ frame r.0 ++ concat r.1.chunks
  exact : Exact r.1
  ends : r.1.ended ≡ true → bytes ≡ []

poll_from-Gives :
    (cs : List Bytes) (b : ExactLengthChunksBody)
    → b.sent + length (concat cs) ≡ b.content_length
    → b.content_length < u64_mod
    → b.ended ≡ false
    → Gives (concat cs) (poll_from cs b)
unfolding poll_from concat frame Exact
poll_from-Gives [] b h k e = record { in_order = refl; exact = (h, k); ends = λ p. refl }
poll_from-Gives ([] ∷ cs) b h k e = poll_from-Gives cs b h k e
poll_from-Gives ((x ∷ xs) ∷ cs) b h k e = record {
  in_order = refl;
  exact = ground (arith, h, k, length-append (x ∷ xs) (concat cs));
  ends = λ p. ground arith;
}

-- A poll of a body of chunks gives the next of its bytes in order and ends the body only when there
-- are none left; the size hint is the number of the bytes that are left, before it and after it. The
-- length of the body is below 64 bits, and it has not ended.
pub poll_chunks-exact :
    (b : ExactLengthChunksBody)
    → Exact b
    → b.ended ≡ false
    → (concat b.chunks ≡ frame (poll_chunks b).0 ++ concat (poll_chunks b).1.chunks)
      × ((poll_chunks b).1.ended ≡ true → concat b.chunks ≡ [])
      × Exact (poll_chunks b).1
      × (size_hint b ≡ length (concat b.chunks))
      × (size_hint (poll_chunks b).1 ≡ length (concat (poll_chunks b).1.chunks))
unfolding poll_chunks size_hint Exact
poll_chunks-exact b (h, k) e =
    let given = poll_from-Gives b.chunks b h k e in
    (given.in_order, given.ends, given.exact, ground (arith, h), ground (arith, given.exact))
