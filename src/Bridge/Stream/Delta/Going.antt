-- ===== src/Bridge/Stream/Delta/Going.antt =====
-- The same of the operations that process a JSON value.
use brigh_to_router.Prelude.{
  ℕ, ◌+◌, ◌≡◌, refl, subst, ◌∙◌, sym, ap, false, Option, none, some, List, [], ◌∷◌,
}
use brigh_to_router.Prelude.Maps.{Map}
use brigh_to_router.Prelude.Text.{Text, codes}
use brigh_to_router.Contract.Config.{unwrap_or}
use brigh_to_router.Json.{
  Value, null, boolean, num, other_num, str, arr, obj, Fields, Codec, get_field, as_object,
  as_array, and_then,
}
use brigh_to_router.Bridge.Stream.Events.{SseTranslator, ToolCallState, Emit, ◌>>◌, close_open}
use brigh_to_router.Bridge.Stream.Phase.{run}
use brigh_to_router.Bridge.Stream.Sound.{
  phase, Consistent, Sound, Sound-seq, Going, emit_text-Going, emit_thinking-Going,
  close_open-Sound,
}
use brigh_to_router.Bridge.Stream.Delta.{
  tool_delta, maybe_tool, legacy_tool_delta, tool_deltas, maybe_legacy, tools_of, part_text,
  emit_parts, emit_content, maybe_content, reasoning, process_delta, delta_or_message, finish_with,
  process_choice, note_usage, note_chunk, first_choice, process_object, as_chunk, process_value,
}

module _ (codec : Codec) where
  -- An operation that keeps the stream well-formed and going.
  abbrev Keeps : (SseTranslator → Emit) → Type 0
  Keeps f = (t : SseTranslator) → t.finished ≡ false → Consistent t → Going codec t (f t)

  pub Going-seq :
      (t : SseTranslator) (r : Emit) (f : SseTranslator → Emit)
      → Going codec t r
      → Keeps f
      → Going codec t (r >> f)
  Going-seq t r f h k =
      let next = k r.0 h.going h.sound.consistent in
      record { sound = Sound-seq t r f h.sound next.sound; going = next.going }

  stay-Keeps : Keeps (λ t. (t, []))
  unfolding run
  stay-Keeps t f c = record { sound = record { accepted = refl; consistent = c }; going = f }

  -- A change of the tools alone.
  OnlyTools : SseTranslator → SseTranslator → Type 0
  OnlyTools t u = u ≡ record t { tools = u.tools }

  OnlyTools-trans : (t u v : SseTranslator) → OnlyTools t u → OnlyTools u v → OnlyTools t v
  unfolding OnlyTools
  OnlyTools-trans t u v p q = q ∙ ap {A = SseTranslator} (λ x. record x { tools = v.tools }) p

  maybe_tool-OnlyTools :
      (o : Option Fields) (i : ℕ) (t : SseTranslator) → OnlyTools t (maybe_tool codec o i t)
  unfolding maybe_tool tool_delta OnlyTools
  maybe_tool-OnlyTools none i t = refl
  maybe_tool-OnlyTools (some call) i t = refl

  tool_deltas-OnlyTools :
      (vs : List Value) (i : ℕ) (t : SseTranslator) → OnlyTools t (tool_deltas codec vs i t)
  unfolding tool_deltas OnlyTools
  tool_deltas-OnlyTools [] i t = refl
  tool_deltas-OnlyTools (v ∷ vs) i t =
      OnlyTools-trans t (maybe_tool codec (as_object v) i t) _
        (maybe_tool-OnlyTools (as_object v) i t)
        (tool_deltas-OnlyTools vs (i + 1) (maybe_tool codec (as_object v) i t))

  maybe_legacy-OnlyTools :
      (o : Option Fields) (t : SseTranslator) → OnlyTools t (maybe_legacy codec o t)
  unfolding maybe_legacy legacy_tool_delta OnlyTools
  maybe_legacy-OnlyTools none t = refl
  maybe_legacy-OnlyTools (some call) t = refl

  set_tools-Keeps : (m : Map ℕ ToolCallState) → Keeps (λ t. (record t { tools = m }, []))
  unfolding run phase
  set_tools-Keeps m t f c = record {
    sound = record {
      accepted = refl;
      consistent = record {
        open_ok = c.open_ok;
        fresh_index = c.fresh_index;
        fresh_flag = c.fresh_flag;
      };
    };
    going = f;
  }

  tools_of-OnlyTools : (o : Fields) (t : SseTranslator) → OnlyTools t (tools_of codec o t)
  unfolding tools_of
  tools_of-OnlyTools o t =
      let calls = unwrap_or (and_then (get_field o (codes "tool_calls")) as_array) [] in
      OnlyTools-trans t (tool_deltas codec calls 0 t) _ (tool_deltas-OnlyTools calls 0 t) (
        maybe_legacy-OnlyTools (and_then (get_field o (codes "function_call")) as_object)
          (tool_deltas codec calls 0 t))

  tools_of-Keeps : (o : Fields) → Keeps (λ t. (tools_of codec o t, []))
  unfolding OnlyTools
  tools_of-Keeps o t f c =
      subst (λ u. Going codec t (u, [])) (sym (tools_of-OnlyTools o t))
        (set_tools-Keeps (tools_of codec o t).tools t f c)

  emit_parts-Keeps : (vs : List Value) → Keeps (emit_parts codec vs)
  unfolding emit_parts
  emit_parts-Keeps [] t f c = stay-Keeps t f c
  emit_parts-Keeps (v ∷ vs) t f c =
      Going-seq t _ (emit_parts codec vs) (emit_text-Going codec (part_text codec v) t f c)
        (emit_parts-Keeps vs)

  maybe_content-Keeps : (o : Option Value) → Keeps (maybe_content codec o)
  unfolding maybe_content emit_content
  maybe_content-Keeps none = stay-Keeps
  maybe_content-Keeps (some (str s)) = emit_text-Going codec s
  maybe_content-Keeps (some null) = emit_parts-Keeps (unwrap_or (as_array null) [])
  maybe_content-Keeps (some (boolean b)) = emit_parts-Keeps (unwrap_or (as_array (boolean b)) [])
  maybe_content-Keeps (some (num n)) = emit_parts-Keeps (unwrap_or (as_array (num n)) [])
  maybe_content-Keeps (some (other_num s)) =
      emit_parts-Keeps (unwrap_or (as_array (other_num s)) [])
  maybe_content-Keeps (some (arr vs)) = emit_parts-Keeps (unwrap_or (as_array (arr vs)) [])
  maybe_content-Keeps (some (obj fs)) = emit_parts-Keeps (unwrap_or (as_array (obj fs)) [])

  process_delta-Keeps : (o : Fields) → Keeps (process_delta codec o)
  unfolding process_delta
  process_delta-Keeps o t f c =
      Going-seq t _ _
        (Going-seq t _ _ (emit_thinking-Going codec (reasoning codec o) t f c)
          (maybe_content-Keeps (get_field o (codes "content"))))
        (tools_of-Keeps o)

  delta_or_message-Keeps : (d m : Option Fields) → Keeps (delta_or_message codec d m)
  unfolding delta_or_message
  delta_or_message-Keeps (some d) m = process_delta-Keeps d
  delta_or_message-Keeps none (some m) = process_delta-Keeps m
  delta_or_message-Keeps none none = stay-Keeps

  finish_with-Keeps : (o : Option Text) → Keeps (finish_with codec o)
  unfolding finish_with close_open phase
  finish_with-Keeps none t f c = stay-Keeps t f c
  finish_with-Keeps (some reason) t f c =
      let named = record t { finish_reason = some reason } in
      let closed =
        close_open-Sound codec named named.open_block refl f (record {
          open_ok = c.open_ok;
          fresh_index = c.fresh_index;
          fresh_flag = c.fresh_flag;
        }) in
      record {
        sound = record { accepted = closed.accepted; consistent = closed.consistent };
        going = f;
      }

  process_choice-Keeps : (o : Option Fields) → Keeps (process_choice codec o)
  unfolding process_choice
  process_choice-Keeps none t f c = stay-Keeps t f c
  process_choice-Keeps (some choice) t f c =
      Going-seq t _ _ (delta_or_message-Keeps _ _ t f c) (finish_with-Keeps _)

  -- A value that is refused emits nothing.
  process_object-Sound :
      (v : Value) (o : Fields) (e : Option Value) (t : SseTranslator)
      → t.finished ≡ false
      → Consistent t
      → Sound t ((process_object codec v o e t).0, (process_object codec v o e t).1)
  unfolding process_object note_chunk note_usage phase
  process_object-Sound v o (some e) t f c = (stay-Keeps t f c).sound
  process_object-Sound v o none t f c =
      let noted = note_chunk codec v o t in
      let kept =
        process_choice-Keeps (first_choice codec o) noted f (record {
          open_ok = c.open_ok;
          fresh_index = c.fresh_index;
          fresh_flag = c.fresh_flag;
        }) in
      record { accepted = kept.sound.accepted; consistent = kept.sound.consistent }

  as_chunk-Sound :
      (v : Value) (o : Option Fields) (t : SseTranslator)
      → t.finished ≡ false
      → Consistent t
      → Sound t ((as_chunk codec v o t).0, (as_chunk codec v o t).1)
  unfolding as_chunk
  as_chunk-Sound v none t f c = (stay-Keeps t f c).sound
  as_chunk-Sound v (some o) t f c = process_object-Sound v o _ t f c

  pub process_value-Sound :
      (v : Value) (t : SseTranslator)
      → t.finished ≡ false
      → Consistent t
      → Sound t ((process_value codec v t).0, (process_value codec v t).1)
  unfolding process_value
  process_value-Sound v t f c = as_chunk-Sound v (as_object v) t f c
