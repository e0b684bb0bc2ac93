-- ===== src/Examples/Exchange.antt =====
-- Messages that are framed and read back, a result that is cut, and an expansion of a match. The
-- serializers know as many messages as the examples need.
use eliot_search.Prelude.{
  ◌+◌, ◌*◌, ◌<◌, take, length-take, length-append, ◌∙◌, if◌then◌else◌, ◌==◌, ℕ, zero, suc, ◌≤◌, ◌≡◌,
  refl, true, Option, none, some, List, [], ◌∷◌, arith, Bytes, length,
}
use eliot_search.Prelude.Words.{to_le_bytes}
use eliot_search.Exec.{ok, err, calm, pure, fail, reserve_with, ok_or, refuse_if, ◌>>=◌}
use eliot_search.Exec.Ensures.{bind-at}
use eliot_search.Utf8.{is_char_boundary}
use eliot_search.Protocol.{invalid_message, max_body_bytes, max_items, max_frame_bytes}
use eliot_search.Protocol.Codec.{encode, write_pieces, write}
use eliot_search.Protocol.Buffer.{copy_into, zeros}
use eliot_search.Protocol.Buffer.Received.{length-zeros}
use eliot_search.Protocol.Message.Text.{new_failure_code, lower_hex, canonical_uuid}
use eliot_search.Protocol.Message.Request.{ClientFrame, validate_content, validate_client_frame}
use eliot_search.Protocol.Message.Object.{validate_object, validate_source}
use eliot_search.Protocol.Message.Item.{SearchItem, StopReason}
use eliot_search.Protocol.Message.Terminal.{QueryOutcome, Terminal, validate_terminal}
use eliot_search.Protocol.Message.Session.{SessionClientFrame, Expand, expand, validate_window_id}
use eliot_search.Protocol.Message.Window.{WindowItem}
use eliot_search.Protocol.Message.Expansion
use eliot_search.Protocol.Message.Expansion.{
  ExpansionContent, WindowExpansion, validate_expansion, Original, original_of, has_part,
  has_original, is_misbound, validate_expansion_request,
}
use eliot_search.Protocol.Message.Expansion.Context.{
  IsContext, validate_expansion_request-IsContext,
}
use eliot_search.Protocol.Message.Reply.{
  SessionOutcome, SessionReply, validate_session_outcome, validate_session_reply,
}
use eliot_search.Protocol.Message.Read.{
  deserialize_code, visit_seq, deserialize_items, DecodedOutcome, DecodedTerminal,
}
use eliot_search.Protocol.Frames.{
  Serializer, Writer, CompleteWire, complete_wire, prepare_complete, encode_client_frame,
  decode_client_frame, encode_session_reply, decode_session_reply, encode_terminal_frame,
  decode_terminal_frame,
}
use eliot_search.Protocol.Frames.RoundTrip.{
  decode_client_frame-encode_client_frame, decode_session_reply-encode_session_reply,
  decode_terminal_frame-encode_terminal_frame,
}
use eliot_search.Protocol.Frames.Complete.{
  tagged, whole_text, Serves, Delivers, cut_text, decode_terminal_frame-prepare_complete,
}
use eliot_search.Examples.Messages.{
  second_page, second_page_valid, cited_source, raw_match, ranked_hit, terminal, terminal_valid,
}

-- A serializer of numbers as one byte, for the messages that are numbered so.
abbrev numbered {ℓ} : {A : Type ℓ} → (ℕ → A) → Bytes → Option A
numbered of (b ∷ []) = some (of b)
numbered of _ = none

abbrev client_json : Serializer ClientFrame
client_json = record {
  pieces = λ m. (1 ∷ []) ∷ [];
  completes = λ m. true;
  from_slice = numbered ClientFrame.cancel;
}

cancel_encoded :
    encode_client_frame client_json (ClientFrame.cancel 1) calm ≡ ok (1 ∷ 0 ∷ 0 ∷ 0 ∷ 1 ∷ [], calm)
unfolding encode_client_frame validate_client_frame validate_content encode write_pieces write
    copy_into to_le_bytes refuse_if pure fail ◌>>=◌
cancel_encoded = refl

decode_client_frame-encode_client_frame_example :
    decode_client_frame client_json (1 ∷ 0 ∷ 0 ∷ 0 ∷ 1 ∷ []) calm ≡ ok (ClientFrame.cancel 1, calm)
decode_client_frame-encode_client_frame_example =
    decode_client_frame-encode_client_frame client_json (ClientFrame.cancel 1)
      (1 ∷ 0 ∷ 0 ∷ 0 ∷ 1 ∷ []) calm calm calm (record { text = omega arith; back = refl })
      cancel_encoded

-- The second page of a window.
abbrev page_reply : ℕ → SessionReply
page_reply id = record { request_id = id; outcome = SessionOutcome.page second_page }

abbrev reply_json : Serializer SessionReply
reply_json = record {
  pieces = λ r. (r.request_id ∷ []) ∷ [];
  completes = λ r. true;
  from_slice = numbered page_reply;
}

seven_encoded :
    encode reply_json.pieces reply_json.completes (page_reply 7) max_frame_bytes calm
    ≡ ok (1 ∷ 0 ∷ 0 ∷ 0 ∷ 7 ∷ [], calm)
unfolding encode write_pieces write copy_into to_le_bytes ◌>>=◌
seven_encoded = refl

reply_encoded :
    encode_session_reply reply_json (page_reply 7) calm ≡ ok (1 ∷ 0 ∷ 0 ∷ 0 ∷ 7 ∷ [], calm)
unfolding encode_session_reply validate_session_reply validate_session_outcome refuse_if pure ◌>>=◌
reply_encoded = bind-at (validate_session_reply (page_reply 7)) _ second_page_valid ∙ seven_encoded

decode_session_reply-encode_session_reply_example :
    decode_session_reply reply_json (1 ∷ 0 ∷ 0 ∷ 0 ∷ 7 ∷ []) calm ≡ ok (page_reply 7, calm)
decode_session_reply-encode_session_reply_example =
    decode_session_reply-encode_session_reply reply_json (page_reply 7) (1 ∷ 0 ∷ 0 ∷ 0 ∷ 7 ∷ [])
      calm calm (record { text = omega arith; back = refl }) tt reply_encoded

-- A code with a small letter, and a sequence of 65 elements beside one of 64.
small_letter : deserialize_code (79 ∷ 107 ∷ []) calm ≡ err invalid_message
unfolding deserialize_code new_failure_code refuse_if fail ◌>>=◌
small_letter = refl

full_sequence : deserialize_items (λ n. pure n) (zeros 64) calm ≡ ok (zeros 64, calm)
unfolding deserialize_items visit_seq pure reserve_with ◌>>=◌
full_sequence = refl

long_sequence : deserialize_items (λ n. pure n) (zeros 65) calm ≡ err invalid_message
unfolding deserialize_items visit_seq pure fail reserve_with ◌>>=◌
long_sequence = refl

abbrev two_hits : List SearchItem
two_hits = ranked_hit 1 49 ∷ ranked_hit 2 50 ∷ []

unfoldable padding : ℕ → Bytes
padding n = zeros n

length-padding : (n : ℕ) → length (padding n) ≡ n
unfolding padding
length-padding n = length-zeros n

abbrev stop_byte : StopReason → ℕ
stop_byte StopReason.complete = 0
stop_byte StopReason.output_limit = 1

-- A terminal is written as the number of its items and its stop, with five million bytes for each item.
abbrev spell : ℕ → StopReason → List Bytes
spell count stop = (count ∷ stop_byte stop ∷ padding (count * 5000000)) ∷ []

abbrev spell_outcome : QueryOutcome → List Bytes
spell_outcome (QueryOutcome.complete generation items stop) = spell (length items) stop
spell_outcome _ = []

abbrev read_terminal : Bytes → Option DecodedTerminal
read_terminal (count ∷ stop ∷ rest) = some (record {
  request_id = 1;
  outcome =
      DecodedOutcome.complete 1 (take count two_hits)
        (if stop == 0 then StopReason.complete else StopReason.output_limit);
})
read_terminal _ = none

abbrev terminal_json : Writer Terminal
terminal_json = record { pieces = λ t. spell_outcome t.outcome; completes = λ t. true }

abbrev wire_json : Writer CompleteWire
wire_json = record {
  pieces = λ w. spell (length w.outcome.items) w.outcome.stop;
  completes = λ w. true;
}

-- The same without the padding.
abbrev short_json : Writer Terminal
short_json = record { pieces = λ t. (2 ∷ 0 ∷ []) ∷ []; completes = λ t. true }

short_encoded :
    encode short_json.pieces short_json.completes terminal max_frame_bytes calm
    ≡ ok (2 ∷ 0 ∷ 0 ∷ 0 ∷ 2 ∷ 0 ∷ [], calm)
unfolding encode write_pieces write copy_into to_le_bytes ◌>>=◌
short_encoded = refl

terminal_encoded :
    encode_terminal_frame short_json terminal calm ≡ ok (2 ∷ 0 ∷ 0 ∷ 0 ∷ 2 ∷ 0 ∷ [], calm)
unfolding encode_terminal_frame
terminal_encoded = bind-at (validate_terminal terminal max_items) _ terminal_valid ∙ short_encoded

decode_terminal_frame-encode_terminal_frame_example :
    decode_terminal_frame read_terminal (2 ∷ 0 ∷ 0 ∷ 0 ∷ 2 ∷ 0 ∷ []) max_items calm
    ≡ ok (terminal, calm)
decode_terminal_frame-encode_terminal_frame_example =
    decode_terminal_frame-encode_terminal_frame short_json read_terminal terminal
      (2 ∷ 0 ∷ 0 ∷ 0 ∷ 2 ∷ 0 ∷ []) calm calm (record { text = omega arith; back = refl }) tt
      terminal_encoded

cut_length :
    (n : ℕ)
    → length (cut_text terminal_json wire_json read_terminal 1 1 two_hits n)
      ≡ 2 + length (take n two_hits) * 5000000
unfolding complete_wire
cut_length n = omega (
  arith,
  length-append (padding (length (take n two_hits) * 5000000)) [],
  length-padding (length (take n two_hits) * 5000000),
)

whole_length : length (whole_text terminal_json wire_json read_terminal 1 1 two_hits) ≡ 10000002
whole_length = omega (arith, length-append (padding 10000000) [], length-padding 10000000)

-- The whole terminal does not fit, and neither does the one that is cut to both items.
two_hits_cut :
    max_body_bytes < length (whole_text terminal_json wire_json read_terminal 1 1 two_hits)
two_hits_cut = omega (arith, whole_length)

reads_cut :
    (n : ℕ)
    → n ≤ 2
    → read_terminal (cut_text terminal_json wire_json read_terminal 1 1 two_hits n)
      ≡ some (tagged (complete_wire 1 1 (take n two_hits)))
unfolding complete_wire
reads_cut zero h = refl
reads_cut (suc zero) h = refl
reads_cut (suc (suc zero)) h = refl
reads_cut (suc (suc (suc n))) h = absurd (omega arith)

two_hits_served : Serves terminal_json wire_json read_terminal 1 1 two_hits
two_hits_served = record {
  whole_completes = refl;
  cut_completes = λ n h. refl;
  grows = λ m n h k.
      omega (arith, cut_length m, cut_length n, length-take m two_hits, length-take n two_hits);
  empty = omega (arith, cut_length 0);
  texts = (omega (arith, whole_length), omega (arith, cut_length 0));
  reads_whole = refl;
  reads_cut = λ n h tag. reads_cut n h;
}

decode_terminal_frame-prepare_complete_example :
    (frame : Bytes) × (prepare_complete terminal_json wire_json 1 1 two_hits calm
      ≡ ok (frame, calm))
    × Delivers terminal_json wire_json read_terminal 1 1 two_hits frame
decode_terminal_frame-prepare_complete_example =
    decode_terminal_frame-prepare_complete terminal_json wire_json read_terminal 1 1 two_hits
      two_hits_served terminal_valid

-- One byte more on each side of the match at 2.
abbrev expansion : WindowExpansion
expansion = record {
  window_id = 1;
  item_index = 0;
  source = cited_source;
  prepared_object = none;
  representation_start = 1;
  representation_end = 5;
  source_start = 1;
  source_end = 5;
  content = ExpansionContent.raw (52 ∷ 48 ∷ 54 ∷ 49 ∷ 54 ∷ 50 ∷ 52 ∷ 49 ∷ []);
}

abbrev expand_frame : SessionClientFrame
expand_frame = expand (record {
  request_id = 3;
  remaining_ms = 10;
  window_id = 1;
  item_index = 0;
  before_bytes = 1;
  after_bytes = 1;
})

expansion_valid :
    validate_expansion_request expansion expand_frame (WindowItem.raw (raw_match 2)) calm
    ≡ ok (tt, calm)
unfolding validate_expansion_request validate_expansion Expansion.validate_content original_of
    has_original has_part is_char_boundary is_misbound validate_window_id validate_source
    validate_object canonical_uuid lower_hex refuse_if ok_or pure fail ◌>>=◌
expansion_valid = refl

validate_expansion_request-IsContext_example :
    (f : Expand) × (o : Original) × (expand_frame ≡ expand f)
    × (original_of (WindowItem.raw (raw_match 2)) ≡ some o)
    × IsContext expansion f o
validate_expansion_request-IsContext_example =
    validate_expansion_request-IsContext expansion expand_frame (WindowItem.raw (raw_match 2)) calm
      calm expansion_valid
