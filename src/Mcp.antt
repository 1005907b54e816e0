-- ===== src/Mcp.antt =====
-- harness/mcp: the execution journal and the dispatch of tool calls.
pub mod Journal
pub mod Coordinator
