-- ===== src/Protocol.antt =====
-- crates/search-provider-protocol/src: `error.rs`, the ceilings of `lib.rs` (one of them from
-- crates/search-contracts/src/bounds.rs) and `frame.rs`.
pub mod Buffer
pub mod Codec
pub mod Prefix
pub mod Complete
pub mod Message
pub mod Frames
use eliot_search.Prelude.{ℕ, ◌+◌, ◌-◌, ◌*◌}

pub data ProtocolError : Type 0 where
  invalid_frame frame_too_large invalid_message invalid_correlation : ProtocolError
  resource_exhausted serialization : ProtocolError

abbrev pub frame_prefix_bytes : ℕ
frame_prefix_bytes = 4

abbrev pub max_frame_bytes : ℕ
max_frame_bytes = 8 * 1024 * 1024

abbrev pub max_body_bytes : ℕ
max_body_bytes = max_frame_bytes - frame_prefix_bytes

abbrev pub max_query_bytes : ℕ
max_query_bytes = 4096

abbrev pub max_items : ℕ
max_items = 64

abbrev pub max_unit_text_bytes : ℕ
max_unit_text_bytes = 65536

abbrev pub max_remaining_ms : ℕ
max_remaining_ms = 120000

abbrev pub max_client_frame_bytes : ℕ
max_client_frame_bytes = 6 * max_query_bytes + 4096

abbrev pub query_request_id : ℕ
query_request_id = 1

abbrev pub default_window_page_size : ℕ
default_window_page_size = 16

abbrev pub max_window_ttl_ms : ℕ
max_window_ttl_ms = 120000

abbrev pub session_window_id : ℕ
session_window_id = 1

abbrev pub max_expansion_bytes : ℕ
max_expansion_bytes = 65536
