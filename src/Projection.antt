-- ===== src/Projection.antt =====
-- web/lib/project.ts: the client's projection of the durable event log. A view item that several
-- maps of the source refer to is referred to by its position in `items`.
pub mod View
pub mod Item
pub mod Event
pub mod State
pub mod Inputs
pub mod Answers
pub mod Tools
pub mod Audit
pub mod Turn
pub mod Apply
pub mod Evolution
pub mod Rows
pub mod Phase
pub mod Tests
