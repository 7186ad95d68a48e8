-- ===== src/Proxy/Span/Bounds.antt =====
-- What the rewriting of a model's name by src/proxy/mod.rs changes in a body.
use brigh_to_router.Prelude.{ℕ, ◌-◌, ◌≤◌, ◌≡◌, ◌⊎◌, List, ◌++◌, length, take}
use brigh_to_router.Prelude.Text.{Text}
use brigh_to_router.Json.{str, Codec, Bytes}
use brigh_to_router.Bridge.Limited.{concat}
use brigh_to_router.Proxy.Span.{skip, slice}
use brigh_to_router.Proxy.Span.Find.{IsModel}

-- The text that a name has between quotes, as the codec prints it.
pub Printed : Codec → Text → Bytes → Type 0
Printed codec name text =
    let quoted = codec.utf8 (codec.encode (str name)) in
    (2 ≤ length quoted) × (text ≡ slice quoted 1 (length quoted - 1))

-- Chunks that have the name in the place of the body's model, and the body as it was around it. The
-- model is kept as it is written where it is the name already.
pub record Rewritten (codec : Codec) (body : Bytes) (name : Text) (chunks : List Bytes)
    : Type 0 where
  pub start : ℕ
  pub last : ℕ
  pub replaced : Bytes
  pub inserted : Bytes
  pub model : IsModel body (start, last)
  pub names : ((inserted ≡ replaced) × (replaced ≡ codec.utf8 name)) ⊎ Printed codec name inserted
  pub before : body ≡ take start body ++ (replaced ++ skip last body)
  pub after : concat chunks ≡ take start body ++ (inserted ++ skip last body)
