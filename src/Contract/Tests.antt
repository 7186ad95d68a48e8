-- ===== src/Contract/Tests.antt =====
-- The theorems on the stored names at concrete inputs.
use brigh_to_router.Prelude.{◌≡◌, refl, List, [], ◌∷◌, ◌++◌}
use brigh_to_router.Prelude.Text.{Text, codes, to_ascii_lowercase, is_whitespace}
use brigh_to_router.Contract.Protocol
use brigh_to_router.Contract.Policy
use brigh_to_router.Contract.Protocol.{cohere_rerank}
use brigh_to_router.Contract.Policy.{weighted_round_robin}
use brigh_to_router.Contract.Names.{IsSpaces}

abbrev spaces : Text
spaces = codes "  "

blank : IsSpaces spaces
unfolding is_whitespace
blank = (refl, (refl, tt))

cohere : to_ascii_lowercase (codes "Cohere_Rerank") ≡ Protocol.as_str cohere_rerank
unfolding to_ascii_lowercase Protocol.as_str brigh_to_router.Prelude.Text.ascii_lower
cohere = refl

weighted : to_ascii_lowercase (codes "Weighted_Round_Robin") ≡ Policy.as_str weighted_round_robin
unfolding to_ascii_lowercase Policy.as_str brigh_to_router.Prelude.Text.ascii_lower
weighted = refl
