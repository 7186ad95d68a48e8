-- ===== src/Contract/Names.antt =====
-- The stored names of protocols and policies are read back as written, around spaces and in either
-- case, and each endpoint is accepted by the protocols that claim it.
use mathlib.Core.List.{reverse, reverse-cons, reverse-append, map-append}
use brigh_to_router.Prelude.{ℕ, ◌≡◌, ◌∙◌, ap, refl, true, [], ◌∷◌, ◌++◌, All, All-reverse, arith}
use brigh_to_router.Prelude.Text.{
  Text, is_whitespace, trim_start, trim_end, trim, ascii_lower, to_ascii_lowercase,
}
use brigh_to_router.Contract.Protocol
use brigh_to_router.Contract.Protocol.{ProviderProtocol, open_ai_chat}
use brigh_to_router.Contract.Policy
use brigh_to_router.Contract.Policy.{RoutingPolicy, round_robin}

abbrev pub IsSpaces : Text → Type 0
IsSpaces = All λ c. is_whitespace c ≡ true

trim_start-append : (ws s : Text) → IsSpaces ws → trim_start (ws ++ s) ≡ trim_start s
unfolding trim_start
trim_start-append [] s h = refl
trim_start-append (c ∷ ws) s h = ground (arith, trim_start-append ws s h.1)

trim_start_spaces : (ws : Text) → IsSpaces ws → trim_start ws ≡ []
unfolding trim_start
trim_start_spaces [] h = refl
trim_start_spaces (c ∷ ws) h = ground (arith, trim_start_spaces ws h.1)

trim_end-append : (s ws : Text) → IsSpaces ws → trim_end (s ++ ws) ≡ trim_end s
unfolding trim_end
trim_end-append s ws h =
    rw (reverse-append s ws, trim_start-append (reverse ws) (reverse s) (All-reverse _ ws h))

trim-append : (s ws : Text) → IsSpaces ws → trim (s ++ ws) ≡ trim s
unfolding trim trim_start
trim-append [] ws h = ap trim_end (trim_start_spaces ws h)
trim-append (c ∷ s) ws h = ground (arith, trim-append s ws h, trim_end-append (c ∷ s) ws h)

is_whitespace-ascii_lower : (c : ℕ) → is_whitespace (ascii_lower c) ≡ is_whitespace c
unfolding is_whitespace ascii_lower
is_whitespace-ascii_lower c = ground arith

trim_start-lower :
    (s : Text) → trim_start (to_ascii_lowercase s) ≡ to_ascii_lowercase (trim_start s)
unfolding trim_start to_ascii_lowercase
trim_start-lower [] = refl
trim_start-lower (c ∷ s) = ground (arith, is_whitespace-ascii_lower c, trim_start-lower s)

reverse-lower : (s : Text) → reverse (to_ascii_lowercase s) ≡ to_ascii_lowercase (reverse s)
unfolding to_ascii_lowercase
reverse-lower [] = refl
reverse-lower (c ∷ s) =
    simp (reverse-cons, map-append) (ap (λ t. t ++ ascii_lower c ∷ []) (reverse-lower s))

trim-lower : (s : Text) → trim (to_ascii_lowercase s) ≡ to_ascii_lowercase (trim s)
unfolding trim trim_end
trim-lower s = simp (trim_start-lower, reverse-lower)

trim-append_left : (ws s : Text) → IsSpaces ws → trim (ws ++ s) ≡ trim s
unfolding trim
trim-append_left ws s h = ap trim_end (trim_start-append ws s h)

trim_spaces : (ws s ws' : Text) → IsSpaces ws → IsSpaces ws' → trim (ws ++ (s ++ ws')) ≡ trim s
trim_spaces ws s ws' h h' = trim-append_left ws (s ++ ws') h ∙ trim-append s ws' h'

-- What a protocol's stored name reads back as.
protocol_as_str : (p : ProviderProtocol) → Protocol.of_name (trim (Protocol.as_str p)) ≡ p
unfolding Protocol.of_name Protocol.as_str trim trim_start trim_end is_whitespace
protocol_as_str open_ai_chat = refl
protocol_as_str p = refl

-- A text that is a protocol's stored name in any mixture of cases, with any white space around it,
-- is parsed to that protocol.
pub parse-protocol_name :
    (p : ProviderProtocol) (ws s ws' : Text)
    → IsSpaces ws
    → IsSpaces ws'
    → to_ascii_lowercase s ≡ Protocol.as_str p
    → Protocol.parse (ws ++ (s ++ ws')) ≡ p
unfolding Protocol.parse
parse-protocol_name p ws s ws' h h' e =
    rw (trim_spaces ws s ws' h h', ← trim-lower s, e) (protocol_as_str p)

policy_as_str : (p : RoutingPolicy) → Policy.policy_of_name (trim (Policy.as_str p)) ≡ p
unfolding Policy.policy_of_name Policy.as_str trim trim_start trim_end is_whitespace
policy_as_str round_robin = refl
policy_as_str p = refl

-- A text that is a routing policy's stored name in any mixture of cases, with any white space around
-- it, is parsed to that policy.
pub parse-policy_name :
    (p : RoutingPolicy) (ws s ws' : Text)
    → IsSpaces ws
    → IsSpaces ws'
    → to_ascii_lowercase s ≡ Policy.as_str p
    → Policy.parse (ws ++ (s ++ ws')) ≡ p
unfolding Policy.parse
parse-policy_name p ws s ws' h h' e =
    rw (trim_spaces ws s ws' h h', ← trim-lower s, e) (policy_as_str p)
