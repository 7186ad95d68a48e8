-- ===== src/Handlers/Body/Whole.antt =====
-- What a body that was read is made of.
use brigh_to_router.Prelude.{
  ℕ, map, List, ap, false, ◌-◌, ◌≤◌, ◌<◌, ◌≡◌, refl, sym, ◌∙◌, Option, none, some, [], ◌∷◌, ◌++◌,
  length, length-append, ltb, leb, if_intro, saturating_add, u64_mod, arith, Bool-cases, inl, inr,
}
use mathlib.Core.List.{append_assoc, append-nil}
use brigh_to_router.Prelude.Result.{Result, ok, err}
use brigh_to_router.Json.{Bytes}
use brigh_to_router.Bridge.Limited.{concat}
use brigh_to_router.Contract.Config.{unwrap_or}
use brigh_to_router.Handlers.Body.{
  RequestHead, BodyReadError, too_large, PrefixScan, need_more, found, Chunks, IncomingBody, whole,
  streaming_candidate, collect_remaining_body, exceeds, is_long, with_head, parsed, after_scan,
  read_prefix, read_incoming_body, head_prefix_limit,
}

-- Bytes that are those of the first chunks, none of them an error, with the rest still to come.
pub record Read (chunks : Chunks) (bytes : Bytes) (rest : Chunks) : Type 0 where
  pub parts : List Bytes
  pub all_ok : chunks ≡ map ok parts ++ rest
  pub bytes_of : bytes ≡ concat parts

Read-nil : (chunks : Chunks) → Read chunks [] chunks
unfolding concat
Read-nil chunks = record { parts = []; all_ok = refl; bytes_of = refl }

concat-append : (xs ys : List Bytes) → concat (xs ++ ys) ≡ concat xs ++ concat ys
unfolding concat
concat-append [] ys = refl
concat-append (x ∷ xs) ys =
    ap (λ t. x ++ t) (concat-append xs ys) ∙ sym (append_assoc x (concat xs) (concat ys))

map-append_one :
    (xs : List Bytes) (x : Bytes) (rest : Chunks)
    → map ok (xs ++ x ∷ []) ++ rest ≡ map ok xs ++ ok x ∷ rest
map-append_one [] x rest = refl
map-append_one (y ∷ ys) x rest = ap (λ t. ok y ∷ t) (map-append_one ys x rest)

Read-next :
    (chunks : Chunks) (bytes chunk : Bytes) (rest : Chunks)
    → Read chunks bytes (ok chunk ∷ rest)
    → Read chunks (bytes ++ chunk) rest
unfolding concat
Read-next chunks bytes chunk rest h = record {
  parts = h.parts ++ chunk ∷ [];
  all_ok = h.all_ok ∙ sym (map-append_one h.parts chunk rest);
  bytes_of =
      ap (λ t. t ++ chunk) h.bytes_of
      ∙ ap (λ t. concat h.parts ++ t) (sym (append-nil chunk))
      ∙ sym (concat-append h.parts (chunk ∷ []));
}

collect_whole :
    (limit : ℕ) (all : Chunks) (out : Bytes) (chunks : Chunks) (body : Bytes)
    → limit < u64_mod - 1
    → length out ≤ limit
    → Read all out chunks
    → collect_remaining_body limit out chunks ≡ ok body
    → Read all body [] × (length body ≤ limit)
unfolding collect_remaining_body
collect_whole limit all out [] body small fits h e =
    let same : out ≡ body = ground (arith, e) in (rw (← same) h, rw (← same) fits)
collect_whole limit all out (err x ∷ rest) body small fits h e = absurd (ground arith)
collect_whole limit all out (ok chunk ∷ rest) body small fits h e =
    elim (Bool-cases (ltb limit (saturating_add (length out) (length chunk)))) [
      | inl over ↦ absurd (ground (arith, e, over))
      | inr within ↦
          let later : collect_remaining_body limit (out ++ chunk) rest ≡ ok body = rw within at e in
          collect_whole limit all (out ++ chunk) rest body small
            (ground (arith, within, length-append out chunk, small))
            (Read-next all out chunk rest h) later
    ]

module _ (parse_head : Bytes → Option RequestHead) (scan : Bytes → PrefixScan) (limit : ℕ) where
  -- A body that was read: all its chunks came, without an error, and its head is the one that they
  -- have; or a prefix of it came, whose scan found the head of a request that is not for a stream.
  unfoldable pub IsWhole : Chunks → IncomingBody → Type 0
  IsWhole chunks (whole head body) =
      Read chunks body [] × (length body ≤ limit) × (parse_head body ≡ some head)
  IsWhole chunks (streaming_candidate head prefix rest n) =
      Read chunks prefix rest
      × (length prefix ≤ limit)
      × (scan prefix ≡ found head)
      × (head.stream ≡ false)

  abbrev Right : Chunks → Result IncomingBody BodyReadError → Type 0
  Right chunks (err e) = Unit
  Right chunks (ok b) = IsWhole chunks b

  with_head-Right :
      (chunks : Chunks) (body : Bytes) (o : Option RequestHead)
      → Read chunks body []
      → length body ≤ limit
      → parse_head body ≡ o
      → Right chunks (with_head parse_head scan limit body o)
  unfolding with_head IsWhole
  with_head-Right chunks body none h fits e = tt
  with_head-Right chunks body (some head) h fits e = (h, fits, e)

  parsed-Right :
      (chunks : Chunks) (r : Result Bytes BodyReadError)
      → ((body : Bytes) → r ≡ ok body → Read chunks body [] × (length body ≤ limit))
      → Right chunks (parsed parse_head scan limit r)
  unfolding parsed
  parsed-Right chunks (err x) h = tt
  parsed-Right chunks (ok body) h =
      let (same, fits) = h body refl in with_head-Right chunks body (parse_head body) same fits refl

  after_scan-Right :
      (chunks : Chunks) (prefix : Bytes) (rest : Chunks) (n : ℕ) (x : PrefixScan)
      (later : Result IncomingBody BodyReadError)
      → Read chunks prefix rest
      → length prefix ≤ limit
      → scan prefix ≡ x
      → Right chunks later
      → Right chunks (after_scan parse_head scan limit prefix rest n x later)
  unfolding after_scan IsWhole
  after_scan-Right chunks prefix rest n need_more later h fits x r = r
  after_scan-Right chunks prefix rest n (found head) later h fits x r =
      if_intro (Right chunks) head.stream later (ok (streaming_candidate head prefix rest n))
        (λ e. r) (λ e. (h, fits, x, e))

  module _ (small : limit < u64_mod - 1) where
    collected-Right :
        (chunks : Chunks) (prefix : Bytes) (rest : Chunks)
        → Read chunks prefix rest
        → length prefix ≤ limit
        → Right chunks (parsed parse_head scan limit (collect_remaining_body limit prefix rest))
    collected-Right chunks prefix rest h fits =
        parsed-Right chunks (collect_remaining_body limit prefix rest)
          (λ body e. collect_whole limit chunks prefix rest body small fits h e)

    read_prefix-Right :
        (chunks : Chunks) (n : ℕ) (prefix : Bytes) (rest : Chunks)
        → Read chunks prefix rest
        → length prefix ≤ limit
        → Right chunks (read_prefix parse_head scan limit n prefix rest)
    unfolding read_prefix
    read_prefix-Right chunks n prefix [] h fits = parsed-Right chunks (ok prefix) (λ body e.
        let same : prefix ≡ body = ground (arith, e) in (rw (← same) h, rw (← same) fits))
    read_prefix-Right chunks n prefix (err e ∷ rest) h fits = tt
    read_prefix-Right chunks n prefix (ok chunk ∷ rest) h fits =
        let longer = prefix ++ chunk in
        let now = Read-next chunks prefix chunk rest h in
        if_intro (Right chunks) (ltb limit (saturating_add (length prefix) (length chunk)))
          (err too_large) _ (λ e. tt)
          (λ e.
            let short : length longer ≤ limit =
              ground (arith, e, length-append prefix chunk, small) in
            after_scan-Right chunks longer rest n (scan longer) _ now short refl (
              if_intro (Right chunks) (leb head_prefix_limit (length longer)) _ _
                (λ f. collected-Right chunks longer rest now short)
                (λ f. read_prefix-Right chunks n longer rest now short)))

    -- A body that is read is the client's: all its chunks came without an error, it is within the
    -- limit, and the head is its own; or what was read of it is chunks that came without an error,
    -- within the limit, with the head that a scan of them found, and the rest is still to come. The
    -- limit is any that is below the greatest number of 64 bits.
    pub read_incoming_body-IsWhole :
        (content_length : Option ℕ) (chunks : Chunks) (b : IncomingBody)
        → read_incoming_body parse_head scan limit content_length chunks ≡ ok b
        → IsWhole chunks b
    unfolding read_incoming_body
    read_incoming_body-IsWhole content_length chunks b e =
        let right : Right chunks (read_incoming_body parse_head scan limit content_length chunks) =
          if_intro (Right chunks) (exceeds content_length limit) (err too_large) _ (λ f. tt)
            (λ f.
              if_intro (Right chunks) (is_long content_length) _ _
                (λ g.
                  read_prefix-Right chunks (unwrap_or content_length 0) [] chunks (Read-nil chunks)
                    (omega arith))
                (λ g. collected-Right chunks [] chunks (Read-nil chunks) (omega arith))) in
        rw e at right
