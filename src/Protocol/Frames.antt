-- ===== src/Protocol/Frames.antt =====
-- frame.rs, the functions that validate a message and frame it. What serde_json and the derived code
-- write and read is a parameter, one for each type; the deserializers that dto.rs writes out itself run
-- behind it.
pub mod RoundTrip
pub mod Complete
use eliot_search.Prelude.{ℕ, Bool, true, false, Option, List, [], ◌∷◌, Bytes, length, take}
use eliot_search.Exec.{Exec, pure, fail, ◌>>=◌, ◌>>◌}
use eliot_search.Protocol.{ProtocolError, max_items, max_client_frame_bytes, max_frame_bytes}
use eliot_search.Protocol.Codec.{encode, decode, fits}
use eliot_search.Protocol.Complete.{lift, encode_longest}
use eliot_search.Protocol.Message.Request.{ClientFrame, validate_client_frame}
use eliot_search.Protocol.Message.Item.{SearchItem, StopReason}
use eliot_search.Protocol.Message.Raw.{RawExactResult}
use eliot_search.Protocol.Message.Decoded.{DecodedUtf8Result}
use eliot_search.Protocol.Message.Terminal.{QueryOutcome, Terminal, validate_terminal}
use eliot_search.Protocol.Message.Session.{SessionClientFrame, validate_session_frame}
use eliot_search.Protocol.Message.Reply.{SessionReply, validate_session_reply}
use eliot_search.Protocol.Message.Read.{DecodedTerminal, deserialize_terminal, deserialize_reply}

-- What serde_json writes of a value, whether it then completes, and what it reads.
pub record Serializer (A : Type 0) : Type 0 where
  pub pieces : A → List Bytes
  pub completes : A → Bool
  pub from_slice : Bytes → Option A

-- The same of a type that is only written.
pub record Writer (A : Type 0) : Type 0 where
  pub pieces : A → List Bytes
  pub completes : A → Bool

module _ (json : Serializer ClientFrame) where
  unfoldable pub encode_client_frame : ClientFrame → Exec ProtocolError Bytes
  encode_client_frame message = do
    validate_client_frame message
    encode json.pieces json.completes message max_client_frame_bytes

  unfoldable pub decode_client_frame : Bytes → Exec ProtocolError ClientFrame
  decode_client_frame frame = do
    message ← decode json.from_slice frame max_client_frame_bytes
    validate_client_frame message
    pure message

module _ (json : Serializer SessionClientFrame) where
  unfoldable pub encode_session_frame : SessionClientFrame → Exec ProtocolError Bytes
  encode_session_frame message = do
    validate_session_frame message
    encode json.pieces json.completes message max_client_frame_bytes

  unfoldable pub decode_session_frame : Bytes → Exec ProtocolError SessionClientFrame
  decode_session_frame frame = do
    message ← decode json.from_slice frame max_client_frame_bytes
    validate_session_frame message
    pure message

module _ (json : Serializer SessionReply) where
  unfoldable pub encode_session_reply : SessionReply → Exec ProtocolError Bytes
  encode_session_reply reply = do
    validate_session_reply reply
    encode json.pieces json.completes reply max_frame_bytes

  unfoldable pub decode_session_reply : Bytes → Exec ProtocolError SessionReply
  decode_session_reply frame = do
    read ← decode json.from_slice frame max_frame_bytes
    reply ← deserialize_reply read
    validate_session_reply reply
    pure reply

-- The terminal of a cut result, as it is written.
pub record CompleteOutcome : Type 0 where
  pub status : Bytes
  pub generation : ℕ
  pub items : List SearchItem
  pub stop : StopReason

pub record CompleteWire : Type 0 where
  pub request_id : ℕ
  pub outcome : CompleteOutcome

-- The status is "complete".
unfoldable pub complete_wire : ℕ → ℕ → List SearchItem → CompleteWire
complete_wire request_id generation items = record {
  request_id = request_id;
  outcome = record {
    status = 99 ∷ 111 ∷ 109 ∷ 112 ∷ 108 ∷ 101 ∷ 116 ∷ 101 ∷ [];
    generation = generation;
    items = items;
    stop = StopReason.output_limit;
  };
}

-- `from_slice` is what the derived code reads: the terminal with its `DecodedOutcome`.
module _ (from_slice : Bytes → Option DecodedTerminal) where
  unfoldable pub decode_terminal_frame : Bytes → ℕ → Exec ProtocolError Terminal
  decode_terminal_frame frame requested_limit = do
    read ← decode from_slice frame max_frame_bytes
    terminal ← deserialize_terminal read
    validate_terminal terminal requested_limit
    pure terminal

module _ (json : Writer Terminal) where
  unfoldable pub encode_terminal_frame : Terminal → Exec ProtocolError Bytes
  encode_terminal_frame terminal = do
    validate_terminal terminal max_items
    encode json.pieces json.completes terminal max_frame_bytes

  unfoldable pub prepare_raw_exact : ℕ → RawExactResult → Exec ProtocolError Bytes
  unfolding encode_terminal_frame
  prepare_raw_exact request_id result =
      encode_terminal_frame
        (record { request_id = request_id; outcome = QueryOutcome.raw_exact result })

  unfoldable pub prepare_decoded_utf8 : ℕ → DecodedUtf8Result → Exec ProtocolError Bytes
  unfolding encode_terminal_frame
  prepare_decoded_utf8 request_id result =
      encode_terminal_frame
        (record { request_id = request_id; outcome = QueryOutcome.decoded_utf8 result })

  module _ (wire_json : Writer CompleteWire) where
    unfoldable pub prepare_complete : ℕ → ℕ → List SearchItem → Exec ProtocolError Bytes
    unfolding complete_wire
    prepare_complete request_id generation items = do
      let terminal : Terminal = record {
        request_id = request_id;
        outcome = QueryOutcome.complete generation items StopReason.complete;
      }
      validate_terminal terminal max_items
      whole ← lift (fits json.pieces json.completes terminal)
      elim whole [
        | true ↦ encode json.pieces json.completes terminal max_frame_bytes
        | false ↦
            encode_longest wire_json.pieces wire_json.completes
              (λ n. complete_wire request_id generation (take n items)) (length items)
      ]
