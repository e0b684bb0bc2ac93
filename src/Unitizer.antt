-- ===== src/Unitizer.antt =====
-- crates/search-prep/search-unitizer: complete prepared artifacts over verified source bytes.
pub mod Errors
pub mod Layout
pub mod Wire
pub mod Encode
pub mod Decode
pub mod Artifact
