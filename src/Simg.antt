-- ===== src/Simg.antt =====
-- The sparse image format: src/fls/simg.rs. The data types and the two header parsers are in
-- `Format`, the streaming parser in `Parser`, what a sparse image is and what it asks a writer to do
-- in `Image`; the proofs stand in the children.
pub mod Format
pub mod Parser
pub mod Image
pub mod Tests
