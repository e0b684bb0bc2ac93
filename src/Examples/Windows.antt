-- ===== src/Examples/Windows.antt =====
-- A window of two ranked items that is emptied in two rounds; every reply is written as one byte.
use eliot_search.Prelude.{ℕ, ◌≡◌, ◌+◌, ◌≤◌, ◌<◌, refl, min, true, none, [], ◌∷◌, arith, length}
use eliot_search.Prelude.Words.{to_le_bytes}
use eliot_search.Contracts
use eliot_search.Exec.{ok, calm, pure, fail, ok_or, refuse_if, check_with, reserve_with, ◌>>=◌}
use eliot_search.Protocol.Buffer.{copy_into}
use eliot_search.Protocol.Codec.{encode, write, write_pieces}
use eliot_search.Protocol.Message.Text.{canonical_uuid, lower_hex}
use eliot_search.Protocol.Message.Object.{validate_object, validate_evidence, from_hex}
use eliot_search.Protocol.Message.Item.{
  StopReason, validate_score, validate_item, evidence_of, rank_of,
}
use eliot_search.Protocol.Message.Session.{validate_window_id}
use eliot_search.Protocol.Message.Window.{
  WindowItem, validate_window_item, validate_entries, validate_page, is_inconsistent,
}
use eliot_search.Protocol.Message.Reply.{
  SessionReply, validate_session_reply, validate_session_outcome,
}
use eliot_search.Protocol.Frames.{Serializer, encode_session_reply}
use eliot_search.Exact.{check}
use eliot_search.Framed.{PreparedPage, Window, attempt, settle_page, offer, page, commit_page}
use eliot_search.Framed.Pages.{IsWindow, IsFramed, page-Framed}
use eliot_search.Framed.Rounds.{Rounds, done, round, Rounds-drained}
use eliot_search.Examples.Messages.{ranked_hit}

abbrev byte_json : Serializer SessionReply
byte_json = record { pieces = λ r. (7 ∷ []) ∷ []; completes = λ r. true; from_slice = λ text. none }

abbrev two_items : ℕ → Window
two_items cursor = record {
  items = WindowItem.search (ranked_hit 1 49) ∷ WindowItem.search (ranked_hit 2 50) ∷ [];
  summary = record {
    generation = 1;
    retained_items = 2;
    found_matches = none;
    scan_complete = none;
    complete_negative = none;
    result_stop = StopReason.complete;
  };
  cursor = cursor;
}

abbrev prepared : ℕ → PreparedPage
prepared cursor = record {
  bytes = 1 ∷ 0 ∷ 0 ∷ 0 ∷ 7 ∷ [];
  expected_cursor = cursor;
  next_cursor = cursor + 1;
}

first_page : page byte_json (two_items 0) 1 1 calm ≡ ok (prepared 0, calm)
unfolding page offer attempt settle_page check encode_session_reply validate_session_reply
    validate_session_outcome validate_page validate_window_id is_inconsistent validate_entries
    validate_window_item validate_item validate_score evidence_of rank_of validate_evidence from_hex
    validate_object canonical_uuid lower_hex Contracts.lower_hex encode write_pieces write copy_into
    to_le_bytes refuse_if ok_or pure fail check_with reserve_with ◌>>=◌
first_page = refl

second_page : page byte_json (two_items 1) 2 1 calm ≡ ok (prepared 1, calm)
unfolding page offer attempt settle_page check encode_session_reply validate_session_reply
    validate_session_outcome validate_page validate_window_id is_inconsistent validate_entries
    validate_window_item validate_item validate_score evidence_of rank_of validate_evidence from_hex
    validate_object canonical_uuid lower_hex Contracts.lower_hex encode write_pieces write copy_into
    to_le_bytes refuse_if ok_or pure fail check_with reserve_with ◌>>=◌
second_page = refl

page-Framed_example :
    (k : ℕ) × (k ≤ 1) × (0 < 1 → 0 < 2 → 0 < k) × IsFramed byte_json (two_items 0) 1 k (prepared 0)
page-Framed_example =
    page-Framed byte_json (two_items 0) 1 1 (prepared 0) calm calm (omega arith) first_page

two-Rounds : Rounds byte_json 2 (two_items 0) (two_items 2)
unfolding commit_page
two-Rounds =
    round 1 1 (prepared 0) calm calm (omega arith) first_page refl
      (round 2 1 (prepared 1) calm calm (omega arith) second_page refl (done (two_items 2)))

Rounds-drained_example :
    (Window.items (two_items 2) ≡ Window.items (two_items 0))
    × IsWindow (two_items 2)
    × (min (length (Window.items (two_items 0))) (0 + 2) ≤ 2)
Rounds-drained_example =
    Rounds-drained byte_json 2 (two_items 0) (two_items 2) (omega arith) two-Rounds
