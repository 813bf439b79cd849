-- ===== src/Lsp.antt =====
-- The language server: positions in a document, the references to tables, and SurrealQL in Rust sources.
pub mod Position
pub mod References
pub mod Occurrences
pub mod Embedded
