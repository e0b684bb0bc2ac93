-- ===== src/Protocol/Message.antt =====
-- crates/search-provider-protocol/src/dto.rs: the values on the wire and their validation.
pub mod Text
pub mod Request
pub mod Object
pub mod Item
pub mod Raw
pub mod Decoded
pub mod Terminal
pub mod Session
pub mod Window
pub mod Page
pub mod Expansion
pub mod Reply
pub mod Read
pub mod Order
pub mod Accounts
pub mod Lookup
pub mod Quiet
