-- ===== src/Proxy/Span/Find.antt =====
-- Which string of a body src/proxy/mod.rs takes for its model.
use brigh_to_router.Prelude.{
  ℕ, zero, suc, ◌+◌, ◌≡◌, ◌≢◌, refl, Bool, true, false, Option, some, length, get_elem?, arith,
}
use brigh_to_router.Prelude.Eq.{list_beq, list_beq_iff}
use brigh_to_router.Prelude.Text.{codes}
use brigh_to_router.Json.{Bytes}
use brigh_to_router.Proxy.Span.{
  slice, is_byte, scan_json_string_end, skip_ws, skip_json_value, after_colon, after_key, keys_on,
  find_top_level_model_string_span,
}
use brigh_to_router.Proxy.Span.Blank.{Blank, skip_ws-Blank}
use brigh_to_router.Proxy.Span.Strings.{
  OnSome, OnSome-and_then, OnSome-if, OnSome_at, is_byte_at, Quoted, scan_json_string_end-Quoted,
}

-- A key of an object and its colon: the string that begins at `i` and ends at `e`, and a colon after
-- it, at `c`, with only white space between them.
pub record Key (body : Bytes) (i e c : ℕ) : Type 0 where
  pub name : Quoted body i e
  pub between : Blank body (e + 1) c
  pub colon : get_elem? body c ≡ some b':'

-- The places in the outermost object where a member may begin, all those before being of other names
-- than `model`: after the brace that opens it, and after the comma behind a member's value.
pub data Member (body : Bytes) : ℕ → Type 0 where
  opening : get_elem? body (skip_ws body 0) ≡ some b'{' → Member body (skip_ws body 0 + 1)
  later :
      (i e c v : ℕ)
      → Member body i
      → Key body (skip_ws body i) e c
      → slice body (skip_ws body i + 1) e ≢ codes "model"
      → skip_json_value body (skip_ws body (c + 1)) ≡ some v
      → get_elem? body (skip_ws body v) ≡ some b','
      → Member body (skip_ws body v + 1)

-- The text between the quotes of the first member of the outermost object that is named `model`.
pub record IsModel (body : Bytes) (span : ℕ × ℕ) : Type 0 where
  pub start : ℕ
  pub key_end : ℕ
  pub colon_at : ℕ
  pub quote_at : ℕ
  pub member : Member body start
  pub key : Key body (skip_ws body start) key_end colon_at
  pub named : slice body (skip_ws body start + 1) key_end ≡ codes "model"
  pub between : Blank body (colon_at + 1) quote_at
  pub value : Quoted body quote_at span.1
  pub begins : span.0 ≡ quote_at + 1

after_colon-IsModel :
    (body : Bytes) (i e c : ℕ) (b : Bool) (rest : ℕ → Option (ℕ × ℕ))
    → Member body i
    → Key body (skip_ws body i) e c
    → list_beq (slice body (skip_ws body i + 1) e) (codes "model") ≡ b
    → ((j : ℕ) → Member body j → OnSome (IsModel body) (rest j))
    → OnSome (IsModel body) (after_colon body b (skip_ws body (c + 1)) rest)
unfolding after_colon OnSome
after_colon-IsModel body i e c true rest m k same h =
    let q = skip_ws body (c + 1) in
    OnSome-if (IsModel body) (is_byte (get_elem? body q) b'"') _ (λ f.
      OnSome-and_then (IsModel body) (scan_json_string_end body q) _ (λ z found. record {
        start = i;
        key_end = e;
        colon_at = c;
        quote_at = q;
        member = m;
        key = k;
        named = (list_beq_iff (slice body (skip_ws body i + 1) e) (codes "model")).0 same;
        between = skip_ws-Blank body (c + 1);
        value =
            OnSome_at (Quoted body q) (scan_json_string_end body q) z
              (scan_json_string_end-Quoted body q) found;
        begins = refl;
      }))
after_colon-IsModel body i e c false rest m k other h =
    let differs : slice body (skip_ws body i + 1) e ≢ codes "model" = λ same. absurd (
      ground (
        arith,
        other,
        (list_beq_iff (slice body (skip_ws body i + 1) e) (codes "model")).1 same,
      )) in
    OnSome-and_then (IsModel body) (skip_json_value body (skip_ws body (c + 1))) _ (λ v found.
      OnSome-if (IsModel body) (is_byte (get_elem? body (skip_ws body v)) b',') _ (λ f.
        h (skip_ws body v + 1)
          (later i e c v m k differs found (is_byte_at (get_elem? body (skip_ws body v)) b',' f))))

after_key-IsModel :
    (body : Bytes) (i e : ℕ) (rest : ℕ → Option (ℕ × ℕ))
    → Member body i
    → Quoted body (skip_ws body i) e
    → ((j : ℕ) → Member body j → OnSome (IsModel body) (rest j))
    → OnSome (IsModel body) (after_key body (skip_ws body i) rest e)
unfolding after_key
after_key-IsModel body i e rest m q h =
    let c = skip_ws body (e + 1) in
    OnSome-if (IsModel body) (is_byte (get_elem? body c) b':') _ (λ f.
      after_colon-IsModel body i e c _ rest m
        (record {
          name = q;
          between = skip_ws-Blank body (e + 1);
          colon = is_byte_at (get_elem? body c) b':' f;
        })
        refl h)

keys_on-IsModel :
    (fuel : ℕ) (body : Bytes) (start : ℕ)
    → Member body start
    → OnSome (IsModel body) (keys_on fuel body start)
unfolding keys_on OnSome
keys_on-IsModel zero body start m = tt
keys_on-IsModel (suc fuel) body start m =
    let i = skip_ws body start in
    OnSome-if (IsModel body) (is_byte (get_elem? body i) b'"') _ (λ f.
      OnSome-and_then (IsModel body) (scan_json_string_end body i) _ (λ e found.
        after_key-IsModel body start e (keys_on fuel body) m
          (OnSome_at (Quoted body i) (scan_json_string_end body i) e
            (scan_json_string_end-Quoted body i) found)
          (keys_on-IsModel fuel body)))

pub find_top_level_model_string_span-IsModel :
    (body : Bytes) → OnSome (IsModel body) (find_top_level_model_string_span body)
unfolding find_top_level_model_string_span
find_top_level_model_string_span-IsModel body =
    let i = skip_ws body 0 in
    OnSome-if (IsModel body) (is_byte (get_elem? body i) b'{') _ (λ f.
      keys_on-IsModel (suc (length body)) body (i + 1)
        (opening (is_byte_at (get_elem? body i) b'{' f)))
