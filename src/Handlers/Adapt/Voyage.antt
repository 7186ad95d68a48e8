-- ===== src/Handlers/Adapt/Voyage.antt =====
-- The fields of a body that src/handlers.rs rewrote for Voyage.
use brigh_to_router.Prelude.{
  ◌≡◌, refl, sym, ap, ◌∙◌, Bool-cases, inl, inr, true, Option, none, some, if◌then◌else◌, arith,
}
use brigh_to_router.Prelude.Eq.{list_beq, list_beq_iff}
use brigh_to_router.Prelude.Result.{ok}
use brigh_to_router.Prelude.Text.{Text, codes}
use brigh_to_router.Contract.Config.{ModelRoute, or_else}
use brigh_to_router.Contract.Protocol.{voyage_rerank}
use brigh_to_router.Json.{Value, str, obj, Fields, Codec, Bytes, get_field, as_str, and_then}
use brigh_to_router.Handlers.Adapt.{
  Edits, printed, named_so, set_model, rename_count, voyage_object, adapted, rewrite_value,
  rewrite_json_proxy_body,
}

-- What Voyage gets in a field of an object: the count of results has its own name there.
unfoldable pub voyage_field : Fields → Text → Option Value
voyage_field o j =
    if list_beq (codes "top_n") j
    then none
    else if list_beq (codes "top_k") j
    then or_else (get_field o (codes "top_k")) (get_field o (codes "top_n"))
    else get_field o j

module _ (codec : Codec) (edits : Edits) where
  named_so-str :
      (v : Option Value) (name : Text)
      → named_so codec edits (and_then v as_str) name ≡ true
      → v ≡ some (str name)
  unfolding named_so as_str
  named_so-str (some (str s)) name e = ground (arith, list_beq_iff s name, e)
  named_so-str _ name e = absurd (ground arith)

  set_model-get :
      (name : Text) (o : Fields) (j : Text)
      → get_field (set_model codec edits name o).0 j
        ≡ (if list_beq (codes "model") j then some (str name) else get_field o j)
  unfolding set_model
  set_model-get name o j =
      elim (Bool-cases
        (named_so codec edits (and_then (get_field o (codes "model")) as_str) name)) [
          | inl same ↦ elim (Bool-cases (list_beq (codes "model") j)) [
            | inl here ↦
                rw (here, same)
                  (ap (get_field o) (sym ((list_beq_iff (codes "model") j).0 here))
                    ∙ named_so-str (get_field o (codes "model")) name same)
            | inr other ↦ rw (other, same) refl
          ]
          | inr other ↦ rw other (edits.get-insert (codes "model") j (str name) o)
        ]

  rename_count-get :
      (k n : Option Value) (o : Fields) (j : Text)
      → get_field o (codes "top_k") ≡ k
      → get_field (rename_count codec edits k n o) j
        ≡ (if list_beq (codes "top_k") j then or_else k n else get_field o j)
  unfolding rename_count
  rename_count-get none (some n) o j e = edits.get-insert (codes "top_k") j n o
  rename_count-get none none o j e = ground (arith, e, list_beq_iff (codes "top_k") j)
  rename_count-get (some k) n o j e = ground (arith, e, list_beq_iff (codes "top_k") j)

  voyage_object-get :
      (o : Fields) (j : Text) → get_field (voyage_object codec edits o) j ≡ voyage_field o j
  unfolding voyage_object voyage_field
  voyage_object-get o j =
      edits.get-remove (codes "top_n") j _
      ∙ ap (λ x. if list_beq (codes "top_n") j then none else x)
          (rename_count-get (get_field o (codes "top_k")) (get_field o (codes "top_n")) o j refl)

  voyage_field-named :
      (name : Text) (o : Fields) (j : Text)
      → voyage_field (set_model codec edits name o).0 j
        ≡ (if list_beq (codes "model") j then some (str name) else voyage_field o j)
  unfolding voyage_field
  voyage_field-named name o j =
      rw
        (
          set_model-get name o (codes "top_k"),
          set_model-get name o (codes "top_n"),
          set_model-get name o j,
        )
        (ground (arith, list_beq_iff (codes "model") j))

  -- An object for Voyage is always rewritten, and its every field is known: the model is the
  -- provider's, the count of results is under its name of Voyage, unless the client gave that one, and
  -- no longer under the name of the router, and every other field is the client's.
  pub rewrite_json_proxy_body-voyage :
      (body : Bytes) (route : ModelRoute) (o : Fields)
      → codec.parse_bytes body ≡ ok (obj o)
      → (out : Fields) × (rewrite_json_proxy_body codec edits body route voyage_rerank
          ≡ some (codec.utf8 (codec.encode (obj out))))
        × ((j : Text)
            → get_field out j ≡ (
                if list_beq (codes "model") j
                then some (str route.provider_model_name)
                else voyage_field o j))
  unfolding rewrite_json_proxy_body rewrite_value adapted printed
  rewrite_json_proxy_body-voyage body route o e =
      let name = route.provider_model_name in
      let named = (set_model codec edits name o).0 in
      rw e (
        voyage_object codec edits named,
        refl,
        λ j. voyage_object-get named j ∙ voyage_field-named name o j,
      )
