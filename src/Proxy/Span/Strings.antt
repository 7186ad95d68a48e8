-- ===== src/Proxy/Span/Strings.antt =====
-- The strings that the scanners of src/proxy/mod.rs find, described without them.
use brigh_to_router.Prelude.{
  ℕ, zero, suc, ◌+◌, ◌-◌, ◌≤◌, ◌<◌, ◌≡◌, refl, ap, ◌∙◌, Bool, true, false, not, ◌&&◌, Option, none,
  some, List, [], ◌∷◌, length, get_elem?, take, ◌==◌, if◌then◌else◌, if_intro, arith, subst,
}
use brigh_to_router.Json.{Bytes, and_then}
use brigh_to_router.Proxy.Span.{skip, slice, string_turn, string_end, is_byte, scan_json_string_end}

-- A property of a result, where there is one.
unfoldable pub OnSome {ℓ} : {A : Type ℓ} → (A → Type 0) → Option A → Type 0
OnSome P none = Unit
OnSome P (some a) = P a

pub OnSome-and_then {ℓ κ} :
    {A : Type ℓ} {B : Type κ} (P : B → Type 0) (o : Option A) (f : A → Option B)
    → ((a : A) → o ≡ some a → OnSome P (f a))
    → OnSome P (and_then o f)
unfolding OnSome
OnSome-and_then P none f h = tt
OnSome-and_then P (some a) f h = h a refl

pub OnSome-map {ℓ} :
    {A : Type ℓ} (P Q : A → Type 0) (o : Option A) → ((a : A) → P a → Q a) → OnSome P o → OnSome Q o
unfolding OnSome
OnSome-map P Q none f h = tt
OnSome-map P Q (some a) f h = f a h

pub OnSome-if {ℓ} :
    {A : Type ℓ} (P : A → Type 0) (b : Bool) (o : Option A)
    → (b ≡ true → OnSome P o)
    → OnSome P (if b then o else none)
unfolding OnSome
OnSome-if P true o h = h refl
OnSome-if P false o h = tt

pub OnSome_at {ℓ} :
    {A : Type ℓ} (P : A → Type 0) (o : Option A) (a : A) → OnSome P o → o ≡ some a → P a
unfolding OnSome
OnSome_at P none a h e = absurd (ground arith)
OnSome_at P (some b) a h e = subst P (ground (arith, e)) h

-- Bytes that may stand between the quotes of a string: every quote is behind a backslash, and every
-- backslash is before another byte.
unfoldable pub unquoted : Bytes → Bool
unquoted [] = true
unquoted (c ∷ []) = not (c == b'"') && not (c == b'\\')
unquoted (c ∷ d ∷ bs) =
    let escaped = unquoted bs in
    let plain = unquoted (d ∷ bs) in if c == b'\\' then escaped else not (c == b'"') && plain

unquoted-cons :
    (c : ℕ) (bs : Bytes)
    → (c == b'"') ≡ false
    → (c == b'\\') ≡ false
    → unquoted bs ≡ true
    → unquoted (c ∷ bs) ≡ true
unfolding unquoted
unquoted-cons c [] e f h = ground (arith, e, f)
unquoted-cons c (d ∷ bs) e f h = ground (arith, e, f, h)

in_bounds : {A : Type 0} (xs : List A) (i : ℕ) (x : A) → get_elem? xs i ≡ some x → i < length xs
in_bounds [] i x h = ground arith
in_bounds (y ∷ xs) zero x h = omega arith
in_bounds (y ∷ xs) (suc i) x h = omega (arith, in_bounds xs i x h)

get_elem_some : (xs : Bytes) (i : ℕ) → i < length xs → (x : ℕ) × (get_elem? xs i ≡ some x)
get_elem_some [] i h = absurd (omega (arith, h))
get_elem_some (x ∷ xs) zero h = (x, refl)
get_elem_some (x ∷ xs) (suc i) h = get_elem_some xs i (omega (arith, h))

skip_at : (xs : Bytes) (i x : ℕ) → get_elem? xs i ≡ some x → skip i xs ≡ x ∷ skip (i + 1) xs
unfolding skip
skip_at [] i x h = absurd (ground arith)
skip_at (y ∷ xs) zero x h = ground (arith, h)
skip_at (y ∷ xs) (suc i) x h =
    let one_more : suc (i + 1) ≡ suc i + 1 = omega arith in
    skip_at xs i x h ∙ ap (λ n. x ∷ skip n (y ∷ xs)) one_more

pub slice_at :
    (xs : Bytes) (i j x : ℕ)
    → get_elem? xs i ≡ some x
    → i < j
    → slice xs i j ≡ x ∷ slice xs (i + 1) j
unfolding slice
slice_at xs i j x h less =
    let one_less : j - i ≡ suc (j - (i + 1)) = omega (arith, less) in
    ap (take (j - i)) (skip_at xs i x h) ∙ ap (λ n. take n (x ∷ skip (i + 1) xs)) one_less

pub slice_none : (xs : Bytes) (i : ℕ) → slice xs i i ≡ []
unfolding slice
slice_none xs i = let none_left : i - i ≡ 0 = omega arith in ap (λ n. take n (skip i xs)) none_left

-- A closing quote, from `i` on.
pub record Quote (body : Bytes) (i e : ℕ) : Type 0 where
  pub in_order : i ≤ e
  pub in_body : e < length body
  pub closes : get_elem? body e ≡ some b'"'
  pub inside : unquoted (slice body i e) ≡ true

Quote_here :
    (body : Bytes) (i b : ℕ) → get_elem? body i ≡ some b → (b == b'"') ≡ true → Quote body i i
unfolding unquoted
Quote_here body i b h e = record {
  in_order = omega arith;
  in_body = in_bounds body i b h;
  closes = ground (arith, h, e);
  inside = ap unquoted (slice_none body i);
}

Quote_plain :
    (body : Bytes) (i b e : ℕ)
    → get_elem? body i ≡ some b
    → (b == b'"') ≡ false
    → (b == b'\\') ≡ false
    → Quote body (i + 1) e
    → Quote body i e
Quote_plain body i b e h f g q = record {
  in_order = omega (arith, q.in_order);
  in_body = q.in_body;
  closes = q.closes;
  inside =
      ap unquoted (slice_at body i e b h (omega (arith, q.in_order)))
      ∙ unquoted-cons b (slice body (i + 1) e) f g q.inside;
}

Quote_escaped :
    (body : Bytes) (i b e : ℕ)
    → get_elem? body i ≡ some b
    → (b == b'\\') ≡ true
    → Quote body (i + 2) e
    → Quote body i e
unfolding unquoted
Quote_escaped body i b e h g q =
    let (d, there) = get_elem_some body (i + 1) (omega (arith, q.in_order, q.in_body)) in
    let two : i + 1 + 1 ≡ i + 2 = omega arith in
    let cut : slice body i e ≡ b ∷ d ∷ slice body (i + 2) e =
      slice_at body i e b h (omega (arith, q.in_order))
      ∙ ap (λ r. b ∷ r) (slice_at body (i + 1) e d there (omega (arith, q.in_order)))
      ∙ ap (λ n. b ∷ d ∷ slice body n e) two in
    record {
      in_order = omega (arith, q.in_order);
      in_body = q.in_body;
      closes = q.closes;
      inside = ap unquoted cut ∙ rw g q.inside;
    }

string_turn-Quote :
    (body : Bytes) (i : ℕ) (o p n : Option ℕ)
    → get_elem? body i ≡ o
    → OnSome (Quote body (i + 2)) p
    → OnSome (Quote body (i + 1)) n
    → OnSome (Quote body i) (string_turn o i p n)
unfolding string_turn OnSome
string_turn-Quote body i none p n h hp hn = tt
string_turn-Quote body i (some b) p n h hp hn =
    if_intro (OnSome (Quote body i)) (b == b'\\') p _
      (λ g. OnSome-map (Quote body (i + 2)) (Quote body i) p (λ e. Quote_escaped body i b e h g) hp)
      (λ g.
        if_intro (OnSome (Quote body i)) (b == b'"') (some i) n (λ f. Quote_here body i b h f)
          (λ f.
            OnSome-map (Quote body (i + 1)) (Quote body i) n (λ e. Quote_plain body i b e h f g)
              hn))

string_end-Quote :
    (fuel : ℕ) (body : Bytes) (i : ℕ) → OnSome (Quote body i) (string_end fuel body i)
unfolding string_end OnSome
string_end-Quote zero body i = tt
string_end-Quote (suc fuel) body i =
    string_turn-Quote body i (get_elem? body i) (string_end fuel body (i + 2))
      (string_end fuel body (i + 1)) refl (string_end-Quote fuel body (i + 2))
      (string_end-Quote fuel body (i + 1))

pub is_byte_at : (o : Option ℕ) (c : ℕ) → is_byte o c ≡ true → o ≡ some c
unfolding is_byte
is_byte_at none c e = absurd (ground arith)
is_byte_at (some b) c e = ground (arith, e)

-- A string from its opening quote to its closing one.
pub record Quoted (body : Bytes) (i e : ℕ) : Type 0 where
  pub opens : get_elem? body i ≡ some b'"'
  pub end : Quote body (i + 1) e

pub scan_json_string_end-Quoted :
    (body : Bytes) (i : ℕ) → OnSome (Quoted body i) (scan_json_string_end body i)
unfolding scan_json_string_end
scan_json_string_end-Quoted body i =
    OnSome-if _ (is_byte (get_elem? body i) b'"') (string_end (suc (length body)) body (i + 1))
      (λ e.
        OnSome-map (Quote body (i + 1)) (Quoted body i) _
          (λ k q. record { opens = is_byte_at (get_elem? body i) b'"' e; end = q })
          (string_end-Quote (suc (length body)) body (i + 1)))
