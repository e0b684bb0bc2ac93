-- ===== src/Examples/Sessions.antt =====
-- A session that opens a window of two ranked items: the frame is read, the worker answers with a page of
-- one item, and the session takes the reply.
use eliot_search.Prelude.{ℕ, ◌≡◌, refl, sym, subst, ap, true, false, none, some, [], ◌∷◌, Bytes}
use eliot_search.Prelude.Words.{to_le_bytes, from_le_bytes}
use eliot_search.Contracts
use eliot_search.Exec.{
  Exec, Result, ok, err, pure, fail, ok_or, refuse_if, check_with, reserve_with, map_err, ◌>>=◌,
}
use eliot_search.Protocol.Buffer.{
  FrameBuffer, zeros, copy_into, push, fill_prefix, open_body, receive, is_empty, is_complete,
  frame, new,
}
use eliot_search.Protocol.{max_client_frame_bytes}
use eliot_search.Protocol.Codec.{encode, decode, write, write_pieces}
use eliot_search.Protocol.Message.Text.{new_failure_code, canonical_uuid, lower_hex}
use eliot_search.Protocol.Message.Object.{validate_object, validate_evidence, from_hex}
use eliot_search.Protocol.Message.Item.{validate_score, validate_item, evidence_of, rank_of}
use eliot_search.Protocol.Message.Request.{validate_search_request}
use eliot_search.Protocol.Message.Session.{
  SessionClientFrame, WindowQuery, open_window, validate_window_id, validate_query,
  validate_page_size, validate_bounds, validate_session_frame, request_id_of,
}
use eliot_search.Protocol.Message.Window.{
  WindowItem, validate_window_item, validate_entries, validate_page, is_inconsistent,
}
use eliot_search.Protocol.Message.Reply.{
  SessionReply, validate_session_reply, validate_session_outcome,
}
use eliot_search.Protocol.Message.Expansion.{WindowExpansion}
use eliot_search.Protocol.Frames.{Serializer, encode_session_reply, decode_session_frame}
use eliot_search.Exact.{QueryFailure, check}
use eliot_search.Framed.{Window, attempt, settle_page, offer, page}
use eliot_search.Framed.Rounds.{moved}
use eliot_search.Framed.Open.{Searches, retrieve, opened_window}
use eliot_search.Session.State.{Ready, Job, Output, World, is_close, execute, sent, replied}
use eliot_search.Session.Monad
use eliot_search.Session.Monad.{
  or_raise, of_result, of_protocol, run, get_exchange, modify, now, later, memory, tell, send,
}
use eliot_search.Session.Cancel.{
  set_active, set_output, put_failure, reject, cancel_work, cancel_request,
}
use eliot_search.Session.Accept.{
  open_terms, terms_of, dispatch, launch, replace_active, replace_output, admit, accept, take_frame,
  note_start, push_input, consume_from, consume,
}
use eliot_search.Session.Replies.{failed_with, outcome_of, outcome, failure}
use eliot_search.Session.Loop.{
  send_commit, resume, flushed, is_late, answer, take_reply, Event, read, reply, flush, serve,
  iterate,
}
use eliot_search.Session.Traffic.{IsTraffic, IsFalling, ids_of}
use eliot_search.Session.Served.{IsServed}
use eliot_search.Session.Sessions.{
  fresh_exchange, IsFresh, Turned, Reaches, here, turn, Reaches-IsServed, iterate-IsTraffic,
}
use eliot_search.Session.Worker.{
  Working, Looks, idle_worker, is_over, page_of, window_for, answer_from, execute_job, settled,
  conclude, work_job, work_commit,
}
use eliot_search.Session.Worked.{Worked, started, job_done, taken, output-taken}
use eliot_search.Examples.Messages.{ranked_hit}

-- Every reply is written as one byte, and one byte is read as the frame that opens the window.
abbrev reply_json : Serializer SessionReply
reply_json = record {
  pieces = λ r. (7 ∷ []) ∷ [];
  completes = λ r. true;
  from_slice = λ text. none;
}

abbrev open_frame : SessionClientFrame
open_frame = open_window (record {
  request_id = 1;
  remaining_ms = 1000;
  query = WindowQuery.search (record { query = 97 ∷ []; limit = 5 });
  page_size = 1;
  ttl_ms = 60000;
})

abbrev frame_json : Serializer SessionClientFrame
frame_json = record {
  pieces = λ m. (9 ∷ []) ∷ [];
  completes = λ m. true;
  from_slice = λ text. some open_frame;
}

abbrev searches : Searches
searches = record {
  pinned = λ env. ok (1, env);
  endpoint = some [];
  verified = λ endpoint request env. ok (ranked_hit 1 49 ∷ ranked_hit 2 50 ∷ [], env);
  raw_exact = λ generation request env. err QueryFailure.panic;
  decoded_exact = λ generation request env. err QueryFailure.panic;
}

abbrev no_context : ℕ → WindowItem → ℕ → ℕ → Exec QueryFailure WindowExpansion
no_context item_index item before after env = err QueryFailure.panic

abbrev empty_input : FrameBuffer
empty_input = record {
  prefix = zeros 4;
  prefix_used = 0;
  bytes = [];
  used = 0;
  maximum = max_client_frame_bytes;
}

abbrev begun : World
begun = record {
  exchange = fresh_exchange empty_input;
  channel = [];
  listening = true;
  clock = λ n. n;
  env = [];
}

begun-IsFresh : IsFresh begun
begun-IsFresh = record { begun = (empty_input, refl); silent = refl }

abbrev open_event : Event
open_event = read (1 ∷ 0 ∷ 0 ∷ 0 ∷ 9 ∷ [])

abbrev goes_on : (r : Turned) → r.0 ≡ ok none → r ≡ (ok none, r.1)
goes_on r e = ap (λ a. (a, r.1)) e

-- The job of the frame is with the worker.
abbrev asking : World
asking = (iterate reply_json frame_json open_event begun).1

frame_read : (iterate reply_json frame_json open_event begun).0 ≡ ok none
unfolding iterate serve is_late consume consume_from push_input note_start take_frame accept admit
    replace_output replace_active launch terms_of open_terms dispatch set_active or_raise of_result
    of_protocol run get_exchange modify now later memory tell send Monad.pure Monad.raise
    Monad.◌>>=◌ fresh_exchange push fill_prefix open_body receive is_empty is_complete frame new
    copy_into from_le_bytes decode_session_frame decode validate_session_frame validate_bounds
    validate_query validate_search_request validate_page_size request_id_of is_close refuse_if ok_or
    pure fail check_with reserve_with ◌>>=◌
frame_read = refl

asking-Reaches : Reaches reply_json frame_json begun asking
asking-Reaches = turn open_event here tt (goes_on _ frame_read)

abbrev open_job : Job
open_job = record { message = open_frame; deadline = 1000; expires = some 60001 }

abbrev no_looks : Looks
no_looks = record { late_before = false; late_behind = false; flagged = false; env = [] }

-- The worker that has reply_made.
abbrev reply_made : Result Bytes Ready × Working
reply_made = work_job searches no_context reply_json open_job no_looks idle_worker

abbrev answer_event : Event
answer_event = reply reply_made.0

-- The reply is written.
abbrev writing : World
writing = (iterate reply_json frame_json answer_event asking).1

abbrev first_output : Output
first_output = record {
  id = 1;
  ready = record { bytes = 1 ∷ 0 ∷ 0 ∷ 0 ∷ 7 ∷ []; commit = some (0, 1); end = false };
  cursor = 0;
  deadline = 1000;
}

reply_run :
    ((iterate reply_json frame_json answer_event asking).0 ≡ ok none)
    × (writing.exchange.output ≡ some first_output)
    × (writing.channel ≡ replied reply_made.0 ∷ sent (execute open_job) ∷ [])
    × (is_over reply_made.1.expires no_looks.late_before ≡ false)
unfolding iterate serve is_late consume consume_from push_input note_start take_frame accept admit
    replace_output replace_active launch terms_of open_terms dispatch set_active or_raise of_result
    of_protocol run get_exchange modify now later memory tell send Monad.pure Monad.raise
    Monad.◌>>=◌ fresh_exchange push fill_prefix open_body receive is_empty is_complete frame new
    copy_into from_le_bytes decode_session_frame decode validate_session_frame validate_bounds
    validate_query validate_search_request validate_page_size request_id_of is_close refuse_if ok_or
    pure fail check_with reserve_with ◌>>=◌ take_reply answer set_output work_job conclude settled
    execute_job window_for answer_from page_of opened_window retrieve check map_err page offer
    attempt settle_page encode_session_reply validate_session_reply validate_session_outcome
    validate_page validate_window_id is_inconsistent validate_entries validate_window_item
    validate_item validate_score evidence_of rank_of validate_evidence from_hex validate_object
    canonical_uuid lower_hex Contracts.lower_hex encode write_pieces write to_le_bytes
reply_run = (refl, refl, refl, refl)

no_output : asking.exchange.output ≡ none
unfolding iterate serve is_late consume consume_from push_input note_start take_frame accept admit
    replace_output replace_active launch terms_of open_terms dispatch set_active or_raise of_result
    of_protocol run get_exchange modify now later memory tell send Monad.pure Monad.raise
    Monad.◌>>=◌ fresh_exchange push fill_prefix open_body receive is_empty is_complete frame new
    copy_into from_le_bytes decode_session_frame decode validate_session_frame validate_bounds
    validate_query validate_search_request validate_page_size request_id_of is_close refuse_if ok_or
    pure fail check_with reserve_with ◌>>=◌
no_output = refl

writing-Reaches : Reaches reply_json frame_json begun writing
writing-Reaches = turn answer_event asking-Reaches no_output (goes_on _ reply_run.0)

Reaches-IsServed_example : IsServed writing.exchange writing.channel
Reaches-IsServed_example = Reaches-IsServed reply_json frame_json begun-IsFresh writing-Reaches

iterate-IsTraffic_example :
    let behind = (iterate reply_json frame_json flush writing).1 in
    IsTraffic behind.channel × IsFalling (ids_of behind.channel)
iterate-IsTraffic_example =
    iterate-IsTraffic reply_json frame_json flush begun-IsFresh writing-Reaches

writing-Worked : Worked searches no_context reply_json writing.channel reply_made.1 none
writing-Worked =
    subst (λ t. Worked searches no_context reply_json t reply_made.1 none) (sym reply_run.2)
      (taken reply_made.0 (job_done open_job no_looks started refl refl))

output-taken_example :
    (window : Window) × (reply_made.1.window ≡ some window)
    × (work_commit 0 1 no_looks reply_made.1
        ≡ record reply_made.1 { window = some (moved window 1) })
output-taken_example =
    output-taken searches no_context reply_json {frames = frame_json} no_looks begun-IsFresh
      writing-Reaches reply_run.1 refl writing-Worked reply_run.3

-- A session that is asked to cancel a request that it never saw.
abbrev stray : World
stray = (flushed reply_json (cancel_request reply_json 100 begun).1).1

stray_cancel : (stray.exchange.completed_id ≡ some 100) × (stray.exchange.last_id ≡ 0)
unfolding fresh_exchange flushed send_commit resume cancel_request cancel_work reject put_failure
    failure outcome outcome_of failed_with new_failure_code set_output encode_session_reply
    validate_session_reply validate_session_outcome encode write_pieces write copy_into to_le_bytes
    or_raise run get_exchange modify now later tell send Monad.pure Monad.raise Monad.◌>>=◌
    refuse_if ok_or pure fail check_with reserve_with ◌>>=◌
stray_cancel = (refl, refl)

abbrev active_one : World
active_one = record stray {
  exchange = record stray.exchange {
    opened = true;
    last_id = 1;
    active = some (record { id = 1; deadline = 1000; stopped = none; cleanup = none });
  };
}

-- The cancel of the request that is active changes nothing then.
ignored_cancel : cancel_request reply_json 1 active_one ≡ (ok tt, active_one)
unfolding fresh_exchange flushed send_commit resume cancel_request cancel_work reject put_failure
    failure outcome outcome_of failed_with new_failure_code set_output encode_session_reply
    validate_session_reply validate_session_outcome encode write_pieces write copy_into to_le_bytes
    or_raise run get_exchange modify now later tell send Monad.pure Monad.raise Monad.◌>>=◌
    refuse_if ok_or pure fail check_with reserve_with ◌>>=◌
ignored_cancel = refl
