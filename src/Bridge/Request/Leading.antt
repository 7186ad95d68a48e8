-- ===== src/Bridge/Request/Leading.antt =====
-- The place of the system message in what src/bridge/request.rs sends.
use brigh_to_router.Prelude.{
  ◌≡◌, ◌≢◌, refl, subst, Bool, true, false, Option, List, [], ◌∷◌, ◌++◌, if◌then◌else◌, if_intro,
  All, All-append,
}
use brigh_to_router.Prelude.Eq.{list_beq}
use brigh_to_router.Prelude.Result.{Result, ok, err}
use brigh_to_router.Prelude.Text.{Text, codes}
use brigh_to_router.Contract.Config.{unwrap_or}
use brigh_to_router.Json.{
  Value, null, boolean, num, other_num, str, arr, obj, Fields, Codec, get, get_field, get_str,
  as_str, and_then, is_empty,
}
use brigh_to_router.Bridge.{BridgeError}
use brigh_to_router.Bridge.Response.{◌>>=◌, push}
use brigh_to_router.Bridge.Request.Content.{
  needed, message_of, convert_tool_result, Parts, text_part, unsupported_kind, is_thinking,
  convert_image, user_block, user_blocks, user_message, convert_user_message,
}
use brigh_to_router.Bridge.Request.Body.{system_message_text, unless_blank}
use brigh_to_router.Bridge.Request.Messages.{
  Said, assistant_blocks, assistant_message, convert_assistant_message, by_role, convert_message,
  collect, lead, some_messages, converted_messages,
}

pub is_system : Value → Bool
is_system v = list_beq (unwrap_or (and_then (get v (codes "role")) as_str) []) (codes "system")

-- A property of a result, where it is one.
OnOk {ℓ} : {A : Type ℓ} → (A → Type 0) → Result A BridgeError → Type 0
OnOk P (ok a) = P a
OnOk P (err e) = Unit

bind {ℓ κ} :
    {A : Type ℓ} {B : Type κ} (P : B → Type 0) (r : Result A BridgeError)
    (f : A → Result B BridgeError)
    → ((a : A) → OnOk P (f a))
    → OnOk P (r >>= f)
unfolding OnOk ◌>>=◌
bind P (ok a) f h = h a
bind P (err e) f h = tt

bind_on {ℓ κ} :
    {A : Type ℓ} {B : Type κ} (Q : A → Type 0) (P : B → Type 0) (r : Result A BridgeError)
    (f : A → Result B BridgeError)
    → OnOk Q r
    → ((a : A) → Q a → OnOk P (f a))
    → OnOk P (r >>= f)
unfolding OnOk ◌>>=◌
bind_on Q P (ok a) f q h = h a q
bind_on Q P (err e) f q h = tt

Others : List Value → Type 0
Others = All λ v. is_system v ≡ false

convert_tool_result-other :
    (object : Fields) → OnOk (λ v. is_system v ≡ false) (convert_tool_result object)
unfolding convert_tool_result is_system get get_field as_str OnOk
convert_tool_result-other object =
    bind _ _ _ λ id. bind _ _ _ λ content. bind _ _ _ λ converted. refl

-- A choice between two results.
OnOk-if {ℓ} :
    {A : Type ℓ} (P : A → Type 0) (b : Bool) (r s : Result A BridgeError)
    → OnOk P r
    → OnOk P s
    → OnOk P (if b then r else s)
OnOk-if P true r s h k = h
OnOk-if P false r s h k = k

ToolsOther : Parts → Type 0
ToolsOther p = Others p.0

user_block-other : (kind : Text) (object : Fields) → OnOk ToolsOther (user_block kind object)
unfolding user_block ToolsOther Others OnOk
user_block-other kind object =
    OnOk-if _ (list_beq kind (codes "text"))
      (needed (get_str object (codes "text")) (codes "text block is missing text")
        >>= (λ s. ok ([], text_part s ∷ [])))
      _ (bind _ _ _ λ s. tt)
      (OnOk-if _ (list_beq kind (codes "image"))
        (convert_image object >>= (λ image. ok ([], image ∷ []))) _ (bind _ _ _ λ image. tt)
        (OnOk-if _ (list_beq kind (codes "tool_result"))
          (convert_tool_result object >>= (λ result. ok (result ∷ [], []))) _
          (bind_on _ _ _ _ (convert_tool_result-other object) λ v h. (h, tt))
          (OnOk-if _ (is_thinking kind) (ok ([], []))
            (err (
              unsupported_kind (codes "user content block type '") kind
                (codes "' is not supported")))
            tt tt)))

user_blocks-other : (vs : List Value) → OnOk ToolsOther (user_blocks vs)
unfolding user_blocks ToolsOther Others OnOk
user_blocks-other [] = tt
user_blocks-other (v ∷ vs) = bind _ _ _ λ object. bind _ _ _ λ typed. bind _ _ _ λ kind.
    bind_on _ _ _ _ (user_block-other kind object)
      λ block h. bind_on _ _ _ _ (user_blocks-other vs) λ rest k. All-append _ block.0 rest.0 h k

user_message-other : (vs : List Value) → Others (user_message vs)
unfolding user_message Others message_of is_system get get_field as_str
user_message-other [] = tt
user_message-other (v ∷ vs) = (refl, tt)

user_value-other :
    (blocks : Result (List Value) BridgeError)
    → OnOk Others (blocks >>= (λ vs. user_blocks vs >>= (λ c. ok (c.0 ++ user_message c.1))))
unfolding ToolsOther Others OnOk
user_value-other blocks = bind _ _ _ λ vs.
    bind_on _ _ _ _ (user_blocks-other vs)
      λ c h. All-append _ c.0 (user_message c.1) h (user_message-other c.1)

convert_user_message-other : (v : Value) → OnOk Others (convert_user_message v)
unfolding convert_user_message Others message_of is_system get get_field as_str OnOk
convert_user_message-other (str s) = (refl, tt)
convert_user_message-other null = user_value-other _
convert_user_message-other (boolean b) = user_value-other _
convert_user_message-other (num n) = user_value-other _
convert_user_message-other (other_num s) = user_value-other _
convert_user_message-other (arr vs) = user_value-other _
convert_user_message-other (obj fs) = user_value-other _

assistant_message-other : (s : Said) → Others (assistant_message s)
unfolding assistant_message Others is_system get get_field as_str
assistant_message-other ([], []) = tt
assistant_message-other ([], c ∷ cs) = (refl, tt)
assistant_message-other (s ∷ ss, cs) = (refl, tt)

module _ (codec : Codec) (as_finite : Value → Option Value) where
  assistant_value-other :
      (blocks : Result (List Value) BridgeError)
      → OnOk Others (
          blocks
          >>= (λ vs. assistant_blocks codec as_finite vs >>= (λ said. ok (assistant_message said))))
  unfolding OnOk
  assistant_value-other blocks = bind _ _ _ λ vs. bind _ _ _ λ said. assistant_message-other said

  convert_assistant_message-other :
      (v : Value) → OnOk Others (convert_assistant_message codec as_finite v)
  unfolding convert_assistant_message Others message_of is_system get get_field as_str OnOk
  convert_assistant_message-other (str s) =
      if_intro (All λ v. is_system v ≡ false) (is_empty s) []
        (message_of (codes "assistant") (str s) ∷ []) (λ e. tt) (λ e. (refl, tt))
  convert_assistant_message-other null = assistant_value-other _
  convert_assistant_message-other (boolean b) = assistant_value-other _
  convert_assistant_message-other (num n) = assistant_value-other _
  convert_assistant_message-other (other_num s) = assistant_value-other _
  convert_assistant_message-other (arr vs) = assistant_value-other _
  convert_assistant_message-other (obj fs) = assistant_value-other _

  by_role-other :
      (role : Text) (content : Value) → OnOk Others (by_role codec as_finite role content)
  unfolding by_role OnOk
  by_role-other role content =
      OnOk-if _ (list_beq role (codes "user")) (convert_user_message content) _
        (convert_user_message-other content)
        (OnOk-if _ (list_beq role (codes "assistant"))
          (convert_assistant_message codec as_finite content) _
          (convert_assistant_message-other content)
          (OnOk-if _ (list_beq role (codes "system")) (err _) (err _) tt tt))

  convert_message-other : (v : Value) → OnOk Others (convert_message codec as_finite v)
  unfolding convert_message
  convert_message-other v =
      bind _ _ _ λ object. bind _ _ _ λ role. bind _ _ _ λ content. by_role-other role content

  RestOther : List Text × List Value → Type 0
  RestOther r = Others r.1

  collect-other : (vs : List Value) → OnOk RestOther (collect codec as_finite vs)
  unfolding collect RestOther Others OnOk get is_system
  collect-other [] = tt
  collect-other (v ∷ vs) =
      let rest = collect codec as_finite vs in
      OnOk-if _ (is_system v)
        (needed (get v (codes "content")) (codes "message content is missing") >>= (λ content.
          system_message_text content
          >>= (λ text. rest >>= (λ r. ok (push (and_then text unless_blank) r.0, r.1)))))
        (convert_message codec as_finite v
          >>= (λ messages. rest >>= (λ r. ok (r.0, messages ++ r.1))))
        (bind _ _ _ λ content. bind _ _ _ λ text. bind_on _ _ _ _ (collect-other vs) λ r h. h)
        (bind_on _ _ _ _ (convert_message-other v)
          λ messages h. bind_on _ _ _ _ (collect-other vs) λ r k. All-append _ messages r.1 h k)

-- The messages after a system message in front.
pub after_system : List Value → List Value
after_system [] = []
after_system (v ∷ vs) = if is_system v then vs else v ∷ vs

Led : List Value → Type 0
Led out = (All (λ v. is_system v ≡ false) (after_system out)) × (after_system out ≢ [])

module _ (codec : Codec) (as_finite : Value → Option Value) where
  lead-Led :
      (texts : List Text) (v : Value) (vs : List Value)
      → Others (v ∷ vs)
      → Led (lead codec as_finite texts (v ∷ vs))
  unfolding lead Led after_system Others message_of is_system get get_field as_str
  lead-Led [] v vs (h, k) = rw h ((h, k), λ e. cc)
  lead-Led (s ∷ ss) v vs h = (h, λ e. cc)

  some_messages-Led :
      (texts : List Text) (vs : List Value)
      → Others vs
      → OnOk Led
          (some_messages codec as_finite vs >>= (λ others. ok (lead codec as_finite texts others)))
  unfolding some_messages OnOk ◌>>=◌
  some_messages-Led texts [] h = tt
  some_messages-Led texts (v ∷ vs) h = lead-Led texts v vs h

  converted_messages-Led :
      (system : Option Value) (messages : List Value)
      → OnOk Led (converted_messages codec as_finite system messages)
  unfolding converted_messages RestOther
  converted_messages-Led system messages = bind _ _ _ λ top.
      bind_on _ _ _ _ (collect-other codec as_finite messages) λ collected h.
        some_messages-Led (push (and_then top unless_blank) collected.0) collected.1 h

  -- Of the messages that are sent upstream one at most has the role `system`, and only the first:
  -- whatever system texts the request has at its top and among its messages, what follows is one
  -- message at least, and none of the role `system`.
  pub converted_messages_led :
      (system : Option Value) (messages out : List Value)
      → converted_messages codec as_finite system messages ≡ ok out
      → All (λ v. is_system v ≡ false) (after_system out) × (after_system out ≢ [])
  unfolding Led OnOk
  converted_messages_led system messages out e =
      subst (OnOk Led) e (converted_messages-Led system messages)
