-- ===== src/Handlers/Adapt.antt =====
-- The changes of a buffered body in src/handlers.rs: `json_proxy_body_needs_rewrite`,
-- `rewrite_json_proxy_body` and `rewrite_qwen_rerank_object`. The edits of a JSON object are a package's,
-- and printing a value does not fail.
pub mod Voyage
use brigh_to_router.Prelude.{
  ◌≡◌, Bool, true, false, not, ◌||◌, Option, none, some, List, [], ◌∷◌, if◌then◌else◌,
}
use brigh_to_router.Prelude.Eq.{list_beq}
use brigh_to_router.Prelude.Result.{Result, ok}
use brigh_to_router.Prelude.Text.{Text, codes}
use brigh_to_router.Contract.Config.{ModelRoute}
use brigh_to_router.Contract.Protocol.{ProviderProtocol, qwen_rerank, voyage_rerank}
use brigh_to_router.Json.{Value, str, obj, Fields, end, Codec, Bytes, get_field, as_str, and_then}
use brigh_to_router.Handlers.{is_qwen3}

-- `serde_json::Map::insert` and `remove`.
pub record Edits : Type 0 where
  pub insert : Text → Value → Fields → Fields
  pub remove : Text → Fields → Fields
  pub get-insert :
      (k j : Text) (v : Value) (fs : Fields)
      → get_field (insert k v fs) j ≡ (if list_beq k j then some v else get_field fs j)
  pub get-remove :
      (k j : Text) (fs : Fields)
      → get_field (remove k fs) j ≡ (if list_beq k j then none else get_field fs j)

is_rerank_adapter : ProviderProtocol → Bool
is_rerank_adapter qwen_rerank = true
is_rerank_adapter voyage_rerank = true
is_rerank_adapter _ = false

pub json_proxy_body_needs_rewrite : ModelRoute → Text → ProviderProtocol → Bool
unfolding is_rerank_adapter
json_proxy_body_needs_rewrite route public_model protocol =
    not (list_beq route.provider_model_name public_model) || is_rerank_adapter protocol

is_end : Fields → Bool
is_end end = true
is_end _ = false

module _ (codec : Codec) (edits : Edits) where
  printed : Value → Bytes
  printed v = codec.utf8 (codec.encode v)

  -- The keys that an object has are copied.
  insert_some : Text → Option Value → Fields → Fields
  insert_some key none to = to
  insert_some key (some v) to = edits.insert key v to

  copy_keys : List Text → Fields → Fields → Fields
  unfolding insert_some
  copy_keys [] from to = to
  copy_keys (key ∷ keys) from to = copy_keys keys from (insert_some key (get_field from key) to)

  with_parameters : Fields → Fields → Fields
  unfolding is_end
  with_parameters parameters flat =
      if is_end parameters then flat else edits.insert (codes "parameters") (obj parameters) flat

  qwen_object : Text → Fields → Value → Value → Fields
  unfolding copy_keys with_parameters
  qwen_object name o query documents =
      let named = edits.insert (codes "model") (str name) end in
      if is_qwen3 name
      then copy_keys (codes "top_n" ∷ codes "instruct" ∷ []) o
          (edits.insert (codes "documents") documents (edits.insert (codes "query") query named))
      else with_parameters
          (copy_keys
            (codes "top_n" ∷ codes "return_documents" ∷ codes "instruct" ∷ codes "fps" ∷ []) o end)
          (edits.insert (codes "input")
            (obj
              (edits.insert (codes "documents") documents (edits.insert (codes "query") query end)))
            named)

  pub rewrite_qwen_rerank_object : Fields → Text → Option Bytes
  unfolding printed qwen_object
  rewrite_qwen_rerank_object o name = and_then (get_field o (codes "query")) λ query.
      and_then (get_field o (codes "documents"))
        λ documents. some (printed (obj (qwen_object name o query documents)))

  named_so : Option Text → Text → Bool
  named_so none name = false
  named_so (some m) name = list_beq m name

  set_model : Text → Fields → Fields × Bool
  unfolding named_so
  set_model name o =
      if named_so (and_then (get_field o (codes "model")) as_str) name
      then (o, false)
      else (edits.insert (codes "model") (str name) o, true)

  -- Voyage names the count of results `top_k`.
  rename_count : Option Value → Option Value → Fields → Fields
  rename_count none (some top_n) o = edits.insert (codes "top_k") top_n o
  rename_count none none o = o
  rename_count (some top_k) top_n o = o

  voyage_object : Fields → Fields
  unfolding rename_count
  voyage_object o =
      edits.remove (codes "top_n")
        (rename_count (get_field o (codes "top_k")) (get_field o (codes "top_n")) o)

  adapted : ProviderProtocol → Text → Fields × Bool → Option Bytes
  unfolding printed voyage_object
  adapted qwen_rerank name (o, changed) = rewrite_qwen_rerank_object o name
  adapted voyage_rerank name (o, changed) = some (printed (obj (voyage_object o)))
  adapted _ name (o, changed) = if changed then some (printed (obj o)) else none

  -- A value that is no object is not changed.
  rewrite_value : ProviderProtocol → Text → Result Value Text → Option Bytes
  unfolding adapted set_model
  rewrite_value protocol name (ok (obj o)) = adapted protocol name (set_model name o)
  rewrite_value protocol name _ = none

  pub rewrite_json_proxy_body : Bytes → ModelRoute → ProviderProtocol → Option Bytes
  unfolding rewrite_value
  rewrite_json_proxy_body body route protocol =
      rewrite_value protocol route.provider_model_name (codec.parse_bytes body)
