-- ===== src/Proxy/Span/Tests.antt =====
-- The rewriting of a model's name at a concrete body.
use brigh_to_router.Prelude.{◌≡◌, refl, some, List, [], ◌∷◌, ◌++◌}
use brigh_to_router.Prelude.Result.{err}
use brigh_to_router.Prelude.Text.{Text, codes}
use brigh_to_router.Json.{Value, str, Codec, Bytes}
use brigh_to_router.Proxy.Span.{
  skip, slice, is_space, at_space, skip_ws_on, skip_ws, string_turn, string_end, is_byte,
  scan_json_string_end, after_colon, after_key, keys_on, find_top_level_model_string_span, escaped,
  rewrite_span, rewrite_top_level_model_chunks, skip_json_value, value_end, scalar_end, ends_scalar,
  opens, closes,
}

abbrev quote : Value → Text
quote (str s) = b'"' ∷ s ++ b'"' ∷ []
quote v = []

abbrev quoting : Codec
quoting = record {
  parse = λ s. err [];
  parse_bytes = λ s. err [];
  encode = quote;
  lossy = λ b. b;
  utf8 = λ s. s;
}

abbrev body : Bytes
body = codes "{\"\":0,\"model\":\"a\"}"

abbrev pieces : List Bytes
pieces = codes "{\"\":0,\"model\":\"" ∷ codes "bc" ∷ codes "\"}" ∷ []

rewritten : rewrite_top_level_model_chunks quoting body (codes "bc") ≡ some pieces
unfolding skip slice is_space at_space skip_ws_on skip_ws string_turn string_end is_byte
    scan_json_string_end after_colon after_key keys_on find_top_level_model_string_span escaped
    rewrite_span rewrite_top_level_model_chunks skip_json_value value_end scalar_end ends_scalar
    opens closes
rewritten = refl
