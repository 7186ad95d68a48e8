-- ===== src/Contract/Protocol.antt =====
-- `ProviderProtocol` of src/contract.rs: the protocol that a route speaks, its stored name, and
-- the endpoint at which a client reaches it.
use brigh_to_router.Prelude.{Bool, true, false, ◌||◌, ◌&&◌, if◌then◌else◌}
use brigh_to_router.Prelude.Eq.{list_beq}
use brigh_to_router.Prelude.Text.{Text, codes, trim, to_ascii_lowercase}

pub data ProviderProtocol : Type 0 where
  open_ai_chat open_ai_responses open_ai_completions open_ai_embeddings : ProviderProtocol
  open_ai_rerank qwen_rerank cohere_rerank voyage_rerank jina_rerank : ProviderProtocol
  open_ai_audio_transcriptions system_one anthropic_messages : ProviderProtocol
  local_open_ai_chat custom_open_ai_chat : ProviderProtocol

-- The match of `parse`, on the trimmed text in lower case.
unfoldable pub of_name : Text → ProviderProtocol
of_name s =
    if list_beq s (codes "openai_responses") || list_beq s (codes "responses")
    then open_ai_responses
    else if list_beq s (codes "openai_completions") || list_beq s (codes "completions")
    then open_ai_completions
    else if list_beq s (codes "openai_embeddings") || list_beq s (codes "embeddings")
    then open_ai_embeddings
    else if list_beq s (codes "openai_rerank")
        || list_beq s (codes "rerank")
        || list_beq s (codes "custom_rerank")
    then open_ai_rerank
    else if list_beq s (codes "qwen_rerank") || list_beq s (codes "dashscope_rerank")
    then qwen_rerank
    else if list_beq s (codes "cohere_rerank")
    then cohere_rerank
    else if list_beq s (codes "voyage_rerank")
    then voyage_rerank
    else if list_beq s (codes "jina_rerank")
    then jina_rerank
    else if list_beq s (codes "openai_audio_transcriptions")
        || list_beq s (codes "openai_asr")
        || list_beq s (codes "asr")
        || list_beq s (codes "transcriptions")
    then open_ai_audio_transcriptions
    else if list_beq s (codes "systemone")
        || list_beq s (codes "system_one")
        || list_beq s (codes "typesafe_systemone")
        || list_beq s (codes "jev_systemone")
        || list_beq s (codes "decisions")
    then system_one
    else if list_beq s (codes "anthropic_messages") || list_beq s (codes "messages")
    then anthropic_messages
    else if list_beq s (codes "local_openai_chat")
    then local_open_ai_chat
    else if list_beq s (codes "custom_openai_chat")
    then custom_open_ai_chat
    else open_ai_chat

unfoldable pub parse : Text → ProviderProtocol
parse s = of_name (to_ascii_lowercase (trim s))

unfoldable pub as_str : ProviderProtocol → Text
as_str open_ai_chat = codes "openai_chat"
as_str open_ai_responses = codes "openai_responses"
as_str open_ai_completions = codes "openai_completions"
as_str open_ai_embeddings = codes "openai_embeddings"
as_str open_ai_rerank = codes "openai_rerank"
as_str qwen_rerank = codes "qwen_rerank"
as_str cohere_rerank = codes "cohere_rerank"
as_str voyage_rerank = codes "voyage_rerank"
as_str jina_rerank = codes "jina_rerank"
as_str open_ai_audio_transcriptions = codes "openai_audio_transcriptions"
as_str system_one = codes "systemone"
as_str anthropic_messages = codes "anthropic_messages"
as_str local_open_ai_chat = codes "local_openai_chat"
as_str custom_open_ai_chat = codes "custom_openai_chat"

unfoldable pub incoming_path : ProviderProtocol → Text
incoming_path open_ai_chat = codes "/v1/chat/completions"
incoming_path local_open_ai_chat = codes "/v1/chat/completions"
incoming_path custom_open_ai_chat = codes "/v1/chat/completions"
incoming_path open_ai_responses = codes "/v1/responses"
incoming_path open_ai_completions = codes "/v1/completions"
incoming_path open_ai_embeddings = codes "/v1/embeddings"
incoming_path open_ai_rerank = codes "/v1/rerank"
incoming_path qwen_rerank = codes "/v1/rerank"
incoming_path cohere_rerank = codes "/v1/rerank"
incoming_path voyage_rerank = codes "/v1/rerank"
incoming_path jina_rerank = codes "/v1/rerank"
incoming_path open_ai_audio_transcriptions = codes "/v1/audio/transcriptions"
incoming_path system_one = codes "/v1/systemone"
incoming_path anthropic_messages = codes "/v1/messages"

is_system_one : ProviderProtocol → Bool
is_system_one system_one = true
is_system_one _ = false

unfoldable pub accepts_incoming_path : ProviderProtocol → Text → Bool
unfolding is_system_one
accepts_incoming_path p path =
    list_beq path (incoming_path p) || (is_system_one p && list_beq path (codes "/v1/decisions"))

unfoldable pub is_openai_chat_family : ProviderProtocol → Bool
is_openai_chat_family open_ai_chat = true
is_openai_chat_family local_open_ai_chat = true
is_openai_chat_family custom_open_ai_chat = true
is_openai_chat_family _ = false

-- The label for people.
pub label : ProviderProtocol → Text
label open_ai_chat = codes "OpenAI Chat Completions"
label open_ai_responses = codes "OpenAI Responses"
label open_ai_completions = codes "OpenAI Completions"
label open_ai_embeddings = codes "OpenAI Embeddings"
label open_ai_rerank = codes "OpenAI-compatible Rerank"
label qwen_rerank = codes "Qwen/DashScope Rerank"
label cohere_rerank = codes "Cohere Rerank"
label voyage_rerank = codes "Voyage Rerank"
label jina_rerank = codes "Jina Rerank"
label open_ai_audio_transcriptions = codes "OpenAI-compatible Audio Transcriptions"
label system_one = codes "System One Decisions"
label anthropic_messages = codes "Anthropic Messages"
label local_open_ai_chat = codes "Local OpenAI-compatible Chat"
label custom_open_ai_chat = codes "Custom OpenAI-compatible"
