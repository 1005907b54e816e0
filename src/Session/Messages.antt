-- ===== src/Session/Messages.antt =====
-- harness/session/events.ts `userMessageContent` and `deriveMessages`: the model's history.
use mini_dsh.Common.{
  ℕ, suc, String, Bool, Option, none, some, List, [], ◌∷◌, ◌++◌, ◌==◌, if◌then◌else◌, get_elem?,
  or_else, template,
}
use mini_dsh.Common.Dict
use mini_dsh.Common.Dict.{Dict}
use mini_dsh.Session.{
  ToolCall, AttachmentRef, SessionAppendedEvent, user_message, assistant_message, tool_call,
  tool_result, SessionEvent,
}

-- `image` is `isImageMediaType` of the media type.
pub record LoadedAttachment : Type 0 where
  pub media_type : String
  pub image : Bool
  pub base64 : Option String
  pub text : Option String
  pub truncated : Bool

pub data ContentPart : Type 0 where
  text_part : String → ContentPart
  image_part : String → String → String → ContentPart

pub data Content : Type 0 where
  plain : String → Content
  parts : List ContentPart → Content

unfoldable pub join_texts : List String → String
join_texts [] = ""
join_texts (t ∷ []) = t
join_texts (t ∷ u ∷ rest) = template (t ∷ "\n\n" ∷ join_texts (u ∷ rest) ∷ [])

abbrev quoted : AttachmentRef → String → String
quoted ref rest = template ("[attachment \"" ∷ ref.name ∷ "\" (" ∷ ref.media_type ∷ rest ∷ [])

-- What one attachment adds: an image, or a text.
unfoldable pub image_of : AttachmentRef → LoadedAttachment → Option ContentPart
image_of ref loaded = elim loaded.base64 [
  | none ↦ none
  | some data64 ↦ if loaded.image then some (image_part loaded.media_type data64 ref.name) else none
]

unfoldable pub text_of : AttachmentRef → LoadedAttachment → String
text_of ref loaded = elim loaded.text [
  | none ↦ quoted ref ") could not be read]"
  | some content ↦ template (
      "attachment \""
      ∷ ref.name
      ∷ "\":\n```\n"
      ∷ content
      ∷ (if loaded.truncated then "\n[truncated]" else "")
      ∷ "\n```"
      ∷ [])
]

unfoldable pub add_attachment :
    AttachmentRef
    → Option LoadedAttachment
    → List ContentPart × List String
    → List ContentPart × List String
unfolding image_of text_of
add_attachment ref none (images, texts) = (images, texts ++ quoted ref ") is not available]" ∷ [])
add_attachment ref (some loaded) (images, texts) = elim (image_of ref loaded) [
  | some image ↦ (images ++ image ∷ [], texts)
  | none ↦ (images, texts ++ text_of ref loaded ∷ [])
]

unfoldable pub add_attachments :
    Dict LoadedAttachment
    → List AttachmentRef
    → List ContentPart × List String
    → List ContentPart × List String
unfolding add_attachment
add_attachments loaded [] acc = acc
add_attachments loaded (ref ∷ refs) acc =
    add_attachments loaded refs (add_attachment ref (Dict.get ref.id loaded) acc)

unfoldable pub assemble : List ContentPart → String → Content
assemble [] body = plain body
assemble (image ∷ images) body =
    if body == "" then parts (image ∷ images) else parts (text_part body ∷ image ∷ images)

unfoldable pub user_message_content :
    String → Option (List AttachmentRef) → Dict LoadedAttachment → Content
unfolding add_attachments assemble join_texts
user_message_content text none loaded = plain text
user_message_content text (some []) loaded = plain text
user_message_content text (some (ref ∷ refs)) loaded =
    let (images, texts) =
      add_attachments loaded (ref ∷ refs) ([], (if text == "" then [] else text ∷ [])) in
    assemble images (join_texts texts)

pub data ModelMessage : Type 0 where
  user : Content → ModelMessage
  assistant : String → Option (List ToolCall) → ModelMessage
  tool : String → String → ModelMessage

-- The calls that were executed in each step, which hooks may have rewritten.
unfoldable pub note_call : Dict (List ToolCall) → SessionAppendedEvent → Dict (List ToolCall)
note_call calls (tool_call step call) =
    Dict.set step (or_else (Dict.get step calls) [] ++ call ∷ []) calls
note_call calls _ = calls

unfoldable pub effective_calls : Dict (List ToolCall) → List SessionEvent → Dict (List ToolCall)
unfolding note_call
effective_calls calls [] = calls
effective_calls calls (e ∷ events) = effective_calls (note_call calls e.body) events

-- `toolCalls.map((call, index) => …)`, from an index on.
unfoldable pub replace_calls : Option (List ToolCall) → ℕ → List ToolCall → List ToolCall
replace_calls none index calls = calls
replace_calls (some executed) index [] = []
replace_calls (some executed) index (call ∷ calls) =
    or_else (get_elem? executed index) call ∷ replace_calls (some executed) (suc index) calls

unfoldable pub message_calls :
    Dict (List ToolCall) → String → Option (List ToolCall) → Option (List ToolCall)
unfolding replace_calls
message_calls executed step none = none
message_calls executed step (some calls) = some (replace_calls (Dict.get step executed) 0 calls)

unfoldable pub message_of :
    Dict (List ToolCall) → Dict LoadedAttachment → SessionAppendedEvent → Option ModelMessage
unfolding user_message_content message_calls
message_of executed loaded (user_message content refs) =
    some (user (user_message_content content refs loaded))
message_of executed loaded (assistant_message step content calls) =
    some (assistant content (message_calls executed step calls))
message_of executed loaded (tool_result call_id output) = some (tool output call_id)
message_of executed loaded _ = none

unfoldable pub push_message : Option ModelMessage → List ModelMessage → List ModelMessage
push_message none rest = rest
push_message (some message) rest = message ∷ rest

unfoldable pub messages_of :
    Dict (List ToolCall) → Dict LoadedAttachment → List SessionEvent → List ModelMessage
unfolding push_message message_of
messages_of executed loaded [] = []
messages_of executed loaded (e ∷ events) =
    push_message (message_of executed loaded e.body) (messages_of executed loaded events)

unfoldable pub derive_messages : Dict LoadedAttachment → List SessionEvent → List ModelMessage
unfolding effective_calls messages_of
derive_messages loaded events = messages_of (effective_calls [] events) loaded events
