-- ===== src/Files.antt =====
-- The file tools of `capabilities/fs`: text documents, and the match of an edit.
pub mod Document
pub mod Edit
pub mod Tool
