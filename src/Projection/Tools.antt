-- ===== src/Projection/Tools.antt =====
-- The cases `tool/call` and `tool/result`; web/lib/tool-facts.ts `mcpServerOf`; web/lib/types.ts
-- `isMcpOutcome`.
use mini_dsh.Common.{
  ℕ, String, true, Option, none, some, ◌==◌, ◌||◌, if◌then◌else◌, or_else, length, overwrite,
}
use mini_dsh.Common.Dict
use mini_dsh.Common.Text.{strip_prefix, before_dunder}
use mini_dsh.Projection.Item.{ToolItem, ToolCall, tool, on_tool}
use mini_dsh.Projection.Event.{SseEvent}
use mini_dsh.Projection.State.{Projector, push, change}

unfoldable pub nonempty : Option String → Option String
nonempty none = none
nonempty (some s) = if s == "" then none else some s

unfoldable pub server_in : Option String → Option String
unfolding nonempty before_dunder
server_in none = none
server_in (some rest) = nonempty (before_dunder rest)

unfoldable pub mcp_server_of : String → Option String
unfolding server_in strip_prefix
mcp_server_of name = server_in (strip_prefix "mcp__" name)

unfoldable pub mcp_outcome : Option String → Option String
mcp_outcome none = none
mcp_outcome (some s) =
    if s == "success" || s == "error" || s == "indeterminate" || s == "audit_fault"
    then some s
    else none

unfoldable pub record_call : Option ToolCall → SseEvent → Projector → Projector
record_call none e p = p
record_call (some call) e p =
    push
      (tool (record {
        call = call;
        ts = e.timestamp;
        done_at = none;
        result = none;
        recovered = none;
        server = mcp_server_of call.name;
        outcome = none;
        invocation_id = none;
      }))
      (record p {
        turn_tools_ran = true;
        tool_items = Dict.set call.id (length (p.view).items) p.tool_items;
      })

unfoldable pub on_tool_call : SseEvent → Projector → Projector
unfolding record_call
on_tool_call e p = record_call e.call e p

abbrev pub set_result : SseEvent → ToolItem → ToolItem
set_result e i = record i {
  result = some (record { ok = e.ok; output = or_else e.output "" });
  done_at = overwrite i.done_at e.timestamp;
  recovered = if e.recovery then some true else i.recovered;
  outcome = overwrite i.outcome (mcp_outcome e.outcome);
  invocation_id = overwrite i.invocation_id e.invocation_id;
}

unfoldable pub item_of_call : Option String → Projector → Option ℕ
item_of_call none p = none
item_of_call (some id) p = Dict.get id p.tool_items

unfoldable pub record_result : Option ℕ → SseEvent → Projector → Projector
record_result none e p = p
record_result (some n) e p = change n (on_tool (set_result e)) p

unfoldable pub on_tool_result : SseEvent → Projector → Projector
unfolding record_result item_of_call
on_tool_result e p = record_result (item_of_call e.call_id p) e p
