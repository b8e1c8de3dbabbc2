-- ===== src/Dstore.antt =====
-- dstore: documents at paths, and their in-memory store.
pub mod Path
pub mod StringSet
pub mod Document
pub mod Options
pub mod Iterator
pub mod Mem
pub mod Shared
pub mod Examples
mod PartExamples
mod EventExamples
