-- ===== src/Projection/Item.antt =====
-- The view items. A context manifest is passed through unread, and stands as a number.
use mini_dsh.Common.{ℕ, String, Bool, Option, List}

abbrev pub Manifest : Type 0
Manifest = ℕ

pub record AttachmentRef : Type 0 where
  pub id : String
  pub name : String
  pub media_type : String

pub data ArgValue : Type 0 where
  text : String → ArgValue
  other : ArgValue

pub record ToolCall : Type 0 where
  pub id : String
  pub name : String
  pub args : List (String × ArgValue)

pub record Controls : Type 0 where
  pub model : Option String
  pub provider : Option String

pub record RetryInput : Type 0 where
  pub content : String
  pub attachments : Option (List AttachmentRef)

-- `key` is the sequence number in the text `seq-…`.
pub record RetryTarget : Type 0 where
  pub key : ℕ
  pub inputs : List RetryInput
  pub tools_ran : Bool

pub data NotSent : Type 0 where
  rejected empty : NotSent

pub record UserItem : Type 0 where
  pub content : String
  pub ts : Option ℕ
  pub attachments : Option (List AttachmentRef)
  pub queued : Option Bool
  pub input_id : Option String
  pub steer : Option Bool
  pub not_sent : Option NotSent

pub record AssistantItem : Type 0 where
  pub content : String
  pub live : Bool
  pub ts : Option ℕ
  pub thinking : List String
  pub thinking_live : Bool
  pub tool_calls : Option (List ToolCall)
  pub controls : Option Controls
  pub turn_id : Option String
  pub turn_open : Option Bool

pub record ToolResult : Type 0 where
  pub ok : Bool
  pub output : String

pub record ToolItem : Type 0 where
  pub call : ToolCall
  pub ts : Option ℕ
  pub done_at : Option ℕ
  pub result : Option ToolResult
  pub recovered : Option Bool
  pub server : Option String
  pub outcome : Option String
  pub invocation_id : Option String

pub data DelegationStatus : Type 0 where
  running completed failed cancelled interrupted : DelegationStatus

pub record DelegationItem : Type 0 where
  pub child_session_id : String
  pub definition : String
  pub brief : String
  pub ts : Option ℕ
  pub status : DelegationStatus

pub data AuditIcon : Type 0 where
  block fail allow deny expired : AuditIcon

pub record AuditItem : Type 0 where
  pub ts : Option ℕ
  pub icon : AuditIcon
  pub label : String
  pub duration_ms : Option ℕ

pub record StatusItem : Type 0 where
  pub reason : String
  pub retry : Option RetryTarget

pub data CompactionStatus : Type 0 where
  running completed failed interrupted : CompactionStatus

pub record CompactionItem : Type 0 where
  pub ts : Option ℕ
  pub status : CompactionStatus
  pub trigger : Option String
  pub model : Option String
  pub covers_seq : Option ℕ
  pub summary_chars : Option ℕ
  pub duration_ms : Option ℕ
  pub summary : Option String
  pub error : Option String

pub record ContextItem : Type 0 where
  pub ts : Option ℕ
  pub manifest : Manifest
  pub requests : Option ℕ

pub data ViewItem : Type 0 where
  user : UserItem → ViewItem
  assistant : AssistantItem → ViewItem
  tool : ToolItem → ViewItem
  delegation : DelegationItem → ViewItem
  audit : AuditItem → ViewItem
  status : StatusItem → ViewItem
  compaction : CompactionItem → ViewItem
  context : ContextItem → ViewItem

pub data Kind : Type 0 where
  user_kind assistant_kind tool_kind delegation_kind : Kind
  audit_kind status_kind compaction_kind context_kind : Kind

abbrev pub kind_of : ViewItem → Kind
kind_of (user i) = user_kind
kind_of (assistant i) = assistant_kind
kind_of (tool i) = tool_kind
kind_of (delegation i) = delegation_kind
kind_of (audit i) = audit_kind
kind_of (status i) = status_kind
kind_of (compaction i) = compaction_kind
kind_of (context i) = context_kind

-- A change of the items of one kind.
abbrev pub on_user : (UserItem → UserItem) → ViewItem → ViewItem
on_user f (user i) = user (f i)
on_user f item = item

abbrev pub on_assistant : (AssistantItem → AssistantItem) → ViewItem → ViewItem
on_assistant f (assistant i) = assistant (f i)
on_assistant f item = item

abbrev pub on_tool : (ToolItem → ToolItem) → ViewItem → ViewItem
on_tool f (tool i) = tool (f i)
on_tool f item = item

abbrev pub on_delegation : (DelegationItem → DelegationItem) → ViewItem → ViewItem
on_delegation f (delegation i) = delegation (f i)
on_delegation f item = item

abbrev pub on_compaction : (CompactionItem → CompactionItem) → ViewItem → ViewItem
on_compaction f (compaction i) = compaction (f i)
on_compaction f item = item

abbrev pub on_context : (ContextItem → ContextItem) → ViewItem → ViewItem
on_context f (context i) = context (f i)
on_context f item = item
