-- ===== src/Route/Health.antt =====
-- `model_probe_urls` of src/route/mod.rs: where the health loop asks a backend for its models.
pub mod Tests
use brigh_to_router.Prelude.{
  ℕ, Bool, true, false, List, [], ◌∷◌, ◌++◌, ◌==◌, ◌≡◌, ap, if◌then◌else◌,
}
use brigh_to_router.Prelude.Text.{Text, codes}
use brigh_to_router.Prelude.Eq.{list_beq}
use mathlib.Core.List.{reverse, reverse-cons, reverse-append}

-- The slashes at the start.
skip_slashes : Text → Text
skip_slashes [] = []
skip_slashes (c ∷ s) = if c == b'/' then skip_slashes s else c ∷ s

-- `trim_end_matches('/')`.
unfoldable pub trim_end_slashes : Text → Text
unfolding skip_slashes
trim_end_slashes s = reverse (skip_slashes (reverse s))

starts_with : Text → Text → Bool
starts_with [] s = true
starts_with (c ∷ p) [] = false
starts_with (c ∷ p) (d ∷ s) = if c == d then starts_with p s else false

ends_with : Text → Text → Bool
unfolding starts_with
ends_with p s = starts_with (reverse p) (reverse s)

urls_at : Text → List Text
unfolding ends_with
urls_at base =
    if ends_with (codes "/v1") base
    then (base ++ codes "/models") ∷ []
    else (base ++ codes "/v1/models") ∷ (base ++ codes "/models") ∷ []

pub model_probe_urls : Text → List Text
model_probe_urls base_url = urls_at (trim_end_slashes base_url)

-- Slashes at the end of the address make no difference: one more gives the same places to ask.
pub model_probe_urls_slash :
    (base_url : Text) → model_probe_urls (base_url ++ codes "/") ≡ model_probe_urls base_url
unfolding model_probe_urls trim_end_slashes
model_probe_urls_slash base_url =
    ap (λ s. urls_at (reverse (skip_slashes s))) (reverse-append base_url (codes "/"))
