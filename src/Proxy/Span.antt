-- ===== src/Proxy/Span.antt =====
-- `rewrite_top_level_model_chunks` of src/proxy/mod.rs and the scanners below it, which find the name
-- of the model in a JSON body without parsing it. A scanner's fuel is one more than the length of the
-- body, and each turn moves it forward.
pub mod Strings
pub mod Blank
pub mod Find
pub mod Bounds
pub mod Tests
use brigh_to_router.Prelude.{
  ℕ, zero, suc, ◌+◌, ◌-◌, ◌≤◌, ◌<◌, ◌≡◌, refl, Bool, true, false, ◌||◌, Option, none, some, List,
  [], ◌∷◌, ◌++◌, length, get_elem?, take, ltb, ◌==◌, if◌then◌else◌, arith,
}
use brigh_to_router.Prelude.Eq.{list_beq}
use brigh_to_router.Prelude.Text.{Text, codes}
use brigh_to_router.Json.{str, Codec, Bytes, and_then}

pub skip : ℕ → Bytes → Bytes
skip zero bs = bs
skip (suc n) [] = []
skip (suc n) (b ∷ bs) = skip n bs

-- `body[a..b]`.
pub slice : Bytes → ℕ → ℕ → Bytes
unfolding skip
slice body a b = take (b - a) (skip a body)

pub is_space : ℕ → Bool
is_space b = b == 0x20 || b == b'\n' || b == b'\r' || b == b'\t'

at_space : Option ℕ → Bool
unfolding is_space
at_space none = false
at_space (some b) = is_space b

skip_ws_on : ℕ → Bytes → ℕ → ℕ
unfolding at_space
skip_ws_on zero body i = i
skip_ws_on (suc fuel) body i =
    let next = skip_ws_on fuel body (i + 1) in if at_space (get_elem? body i) then next else i

pub skip_ws : Bytes → ℕ → ℕ
unfolding skip_ws_on
skip_ws body i = skip_ws_on (suc (length body)) body i

-- One turn inside a string: an escape takes two bytes.
string_turn : Option ℕ → ℕ → Option ℕ → Option ℕ → Option ℕ
string_turn none i escaped next = none
string_turn (some b) i escaped next =
    if b == b'\\' then escaped else if b == b'"' then some i else next

string_end : ℕ → Bytes → ℕ → Option ℕ
unfolding string_turn
string_end zero body i = none
string_end (suc fuel) body i =
    string_turn (get_elem? body i) i (string_end fuel body (i + 2)) (string_end fuel body (i + 1))

pub is_byte : Option ℕ → ℕ → Bool
is_byte none c = false
is_byte (some b) c = b == c

pub scan_json_string_end : Bytes → ℕ → Option ℕ
unfolding string_end is_byte
scan_json_string_end body quote_pos =
    if is_byte (get_elem? body quote_pos) b'"'
    then string_end (suc (length body)) body (quote_pos + 1)
    else none

opens : ℕ → Bool
opens b = b == b'{' || b == b'['

closes : ℕ → Bool
closes b = b == b'}' || b == b']'

-- The end of an object or an array, at some depth; `checked_sub` refuses a closing one at depth 0.
nested_end : ℕ → Bytes → ℕ → ℕ → Option ℕ
unfolding scan_json_string_end opens closes
nested_end zero body i depth = none
nested_end (suc fuel) body i depth =
    let after_string =
      and_then (scan_json_string_end body i) (λ e. nested_end fuel body (e + 1) depth) in
    let deeper = nested_end fuel body (i + 1) (depth + 1) in
    let higher = nested_end fuel body (i + 1) (depth - 1) in
    let next = nested_end fuel body (i + 1) depth in
    and_then (get_elem? body i) λ b.
      if b == b'"'
      then after_string
      else if opens b
      then deeper
      else if closes b
      then if depth == 0 then none else if depth == 1 then some (i + 1) else higher
      else next

ends_scalar : Option ℕ → Bool
unfolding is_space closes
ends_scalar none = true
ends_scalar (some b) = b == b',' || closes b || is_space b

scalar_end : ℕ → Bytes → ℕ → ℕ
unfolding ends_scalar
scalar_end zero body i = i
scalar_end (suc fuel) body i =
    let next = scalar_end fuel body (i + 1) in if ends_scalar (get_elem? body i) then i else next

value_end : Bytes → ℕ → ℕ → Option ℕ
unfolding nested_end scalar_end
value_end body i b =
    if b == b'"'
    then and_then (scan_json_string_end body i) (λ e. some (e + 1))
    else if opens b
    then nested_end (suc (length body)) body i 0
    else some (scalar_end (suc (length body)) body i)

pub skip_json_value : Bytes → ℕ → Option ℕ
unfolding skip_ws value_end
skip_json_value body start =
    let i = skip_ws body start in and_then (get_elem? body i) (value_end body i)

-- The value of the key `model`, or the key after another value.
after_colon : Bytes → Bool → ℕ → (ℕ → Option (ℕ × ℕ)) → Option (ℕ × ℕ)
unfolding skip_json_value
after_colon body true i rest =
    if is_byte (get_elem? body i) b'"'
    then and_then (scan_json_string_end body i) (λ e. some (i + 1, e))
    else none
after_colon body false i rest =
    and_then (skip_json_value body i) λ e.
      if is_byte (get_elem? body (skip_ws body e)) b',' then rest (skip_ws body e + 1) else none

after_key : Bytes → ℕ → (ℕ → Option (ℕ × ℕ)) → ℕ → Option (ℕ × ℕ)
unfolding slice after_colon
after_key body i rest key_end =
    let colon = skip_ws body (key_end + 1) in
    if is_byte (get_elem? body colon) b':'
    then after_colon body (list_beq (slice body (i + 1) key_end) (codes "model"))
        (skip_ws body (colon + 1)) rest
    else none

keys_on : ℕ → Bytes → ℕ → Option (ℕ × ℕ)
unfolding after_key
keys_on zero body start = none
keys_on (suc fuel) body start =
    let i = skip_ws body start in
    if is_byte (get_elem? body i) b'"'
    then and_then (scan_json_string_end body i) (after_key body i (keys_on fuel body))
    else none

unfoldable pub find_top_level_model_string_span : Bytes → Option (ℕ × ℕ)
unfolding keys_on
find_top_level_model_string_span body =
    let i = skip_ws body 0 in
    if is_byte (get_elem? body i) b'{' then keys_on (suc (length body)) body (i + 1) else none

module _ (codec : Codec) where
  -- The quoted name without its quotes.
  escaped : Bytes → Option Bytes
  unfolding slice
  escaped quoted = if ltb (length quoted) 2 then none else some (slice quoted 1 (length quoted - 1))

  rewrite_span : Bytes → Text → ℕ × ℕ → Option (List Bytes)
  unfolding slice escaped
  rewrite_span body name (start, last) =
      if list_beq (slice body start last) (codec.utf8 name)
      then some (body ∷ [])
      else and_then (escaped (codec.utf8 (codec.encode (str name))))
          λ e. some (take start body ∷ e ∷ skip last body ∷ [])

  unfoldable pub rewrite_top_level_model_chunks : Bytes → Text → Option (List Bytes)
  unfolding rewrite_span
  rewrite_top_level_model_chunks body name =
      and_then (find_top_level_model_string_span body) (rewrite_span body name)
