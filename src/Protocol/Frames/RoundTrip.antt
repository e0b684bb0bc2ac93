-- ===== src/Protocol/Frames/RoundTrip.antt =====
-- A message that one side encodes is the message that the other side decodes.
use eliot_search.Prelude.{ℕ, ◌<◌, ◌≤◌, ◌≡◌, ap, ◌∙◌, Bool, Option, some, List, arith, Bytes, length}
use eliot_search.Exec.{Env, ok, calm, Exec, pure, continue, ◌>>=◌, ◌>>◌}
use eliot_search.Exec.Ensures.{continue-ok, bind-ok, bind-at}
use eliot_search.Exec.Quiet.{Quiet}
use eliot_search.Protocol.{ProtocolError, max_items, max_client_frame_bytes, max_frame_bytes}
use eliot_search.Protocol.Buffer.Fragments.{concat}
use eliot_search.Protocol.Codec.{encode, decode}
use eliot_search.Protocol.Codec.RoundTrip.{decode-encode, decode-written}
use eliot_search.Protocol.Message.Request.{ClientFrame, validate_client_frame}
use eliot_search.Protocol.Message.Terminal.{Terminal, validate_terminal}
use eliot_search.Protocol.Message.Session.{SessionClientFrame, validate_session_frame}
use eliot_search.Protocol.Message.Reply.{SessionReply, validate_session_reply}
use eliot_search.Protocol.Message.Quiet.{validate_client_frame-Quiet, validate_session_frame-Quiet}
use eliot_search.Protocol.Message.Quiet.Replies.{
  validate_terminal-Quiet, validate_session_reply-Quiet,
}
use eliot_search.Protocol.Message.Read.{DecodedTerminal, deserialize_terminal, deserialize_reply}
use eliot_search.Protocol.Message.Read.Whole.{
  HasCode, HasReplyCode, spelled, deserialize_terminal-valid, deserialize_reply-valid,
}
use eliot_search.Protocol.Frames.{
  Serializer, Writer, encode_client_frame, decode_client_frame, encode_session_frame,
  decode_session_frame, encode_session_reply, decode_session_reply, encode_terminal_frame,
  decode_terminal_frame,
}

-- The serializer writes a text for the value, and reads the value back from it.
pub record Reads {A : Type 0} (json : Serializer A) (value : A) : Type 0 where
  pub text : 0 < length (concat (json.pieces value))
  pub back : json.from_slice (concat (json.pieces value)) ≡ some value

-- What both sides of a client frame do: they validate around the codec.
validated-decode-encode :
    {A : Type 0} (json : Serializer A) (validate : A → Exec ProtocolError (Unit {0})) (maximum : ℕ)
    (value : A) (frame : Bytes) (env env' other : Env)
    → Quiet (validate value)
    → 4 ≤ maximum
    → Reads json value
    → (validate value >> encode json.pieces json.completes value maximum) env ≡ ok (frame, env')
    → (decode json.from_slice frame maximum >>= (λ read. validate read >> pure read)) other
      ≡ ok (value, other)
unfolding ◌>>=◌
validated-decode-encode json validate maximum value frame env env' other quiet room reads h =
    let (done, mid, first, rest) =
      continue-ok (validate value env) (λ _. encode json.pieces json.completes value maximum) h in
    ap (λ r. continue r (λ read. validate read >> pure read))
      (decode-encode json.pieces json.completes json.from_slice value maximum mid env' other frame
        room reads.back reads.text rest)
    ∙ ap (λ r. continue r (λ _. pure value)) (quiet.at env mid other done first)

-- Whatever the environments do: a client frame that was encoded is decoded to the same message, by a
-- serializer that reads what it wrote.
pub decode_client_frame-encode_client_frame :
    (json : Serializer ClientFrame) (message : ClientFrame) (frame : Bytes) (env env' other : Env)
    → Reads json message
    → encode_client_frame json message env ≡ ok (frame, env')
    → decode_client_frame json frame other ≡ ok (message, other)
unfolding encode_client_frame decode_client_frame
decode_client_frame-encode_client_frame json message frame env env' other reads h =
    validated-decode-encode json validate_client_frame max_client_frame_bytes message frame env env'
      other (validate_client_frame-Quiet message) (omega arith) reads h

-- Whatever the environments do: a request of a session that was encoded is decoded to the same request,
-- by a serializer that reads what it wrote.
pub decode_session_frame-encode_session_frame :
    (json : Serializer SessionClientFrame) (message : SessionClientFrame) (frame : Bytes)
    (env env' other : Env)
    → Reads json message
    → encode_session_frame json message env ≡ ok (frame, env')
    → decode_session_frame json frame other ≡ ok (message, other)
unfolding encode_session_frame decode_session_frame
decode_session_frame-encode_session_frame json message frame env env' other reads h =
    validated-decode-encode json validate_session_frame max_client_frame_bytes message frame env
      env' other (validate_session_frame-Quiet message) (omega arith) reads h

-- The derived code reads from the text of a value what the value is spelled as.
pub record ReadsAs {A S : Type 0} (pieces : A → List Bytes) (from_slice : Bytes → Option S)
    (value : A) (shape : S) : Type 0 where
  pub text : 0 < length (concat (pieces value))
  pub back : from_slice (concat (pieces value)) ≡ some shape

-- What both sides of an answer do: they validate around the codec, and the reader deserializes what the
-- derived code read.
deserialized-decode-encode :
    {A S : Type 0} (pieces : A → List Bytes) (completes : A → Bool) (from_slice : Bytes → Option S)
    (deserialize : S → Exec ProtocolError A) (validate : A → Exec ProtocolError (Unit {0}))
    (value : A) (shape : S) (frame : Bytes) (env env' : Env)
    → Quiet (validate value)
    → ReadsAs pieces from_slice value shape
    → ((e e' : Env) → validate value e ≡ ok (tt, e') → deserialize shape calm ≡ ok (value, calm))
    → (validate value >> encode pieces completes value max_frame_bytes) env ≡ ok (frame, env')
    → (decode from_slice frame max_frame_bytes
          >>= (λ read. deserialize read >>= (λ a. validate a >> pure a)))
        calm
      ≡ ok (value, calm)
unfolding pure
deserialized-decode-encode pieces completes from_slice deserialize validate value shape frame env
      env' quiet reads kept h =
    let (done, mid, first, rest) =
      bind-ok (validate value) (λ _. encode pieces completes value max_frame_bytes) h in
    bind-at (decode from_slice frame max_frame_bytes) _ (
      decode-written pieces completes from_slice value shape max_frame_bytes mid env' calm frame
        (omega arith) reads.back reads.text rest)
    ∙ (bind-at (deserialize shape) _ (kept env mid first)
        ∙ bind-at (validate value) _ (quiet.at env mid calm done first))

-- Whatever the environment of the sender does: a reply of a session that was encoded, with a code that
-- `FailureCode::new` accepts if it is a failure, is decoded to the same reply by an undisturbed client,
-- whose own deserializers accept it, where the derived code reads from the text of the reply what was
-- written.
pub decode_session_reply-encode_session_reply :
    (json : Serializer SessionReply) (reply : SessionReply) (frame : Bytes) (env env' : Env)
    → ReadsAs json.pieces json.from_slice reply reply
    → HasReplyCode reply.outcome
    → encode_session_reply json reply env ≡ ok (frame, env')
    → decode_session_reply json frame calm ≡ ok (reply, calm)
unfolding encode_session_reply decode_session_reply
decode_session_reply-encode_session_reply json reply frame env env' reads code h =
    deserialized-decode-encode json.pieces json.completes json.from_slice deserialize_reply
      validate_session_reply reply reply frame env env' (validate_session_reply-Quiet reply) reads
      (λ e e' valid. deserialize_reply-valid reply e e' code valid) h

-- Whatever the environment of the sender does: a terminal that was encoded, with a code that
-- `FailureCode::new` accepts if it is a failure, is decoded to the same terminal by an undisturbed client
-- for a request of the maximal limit, where the derived code reads from the text of the terminal its
-- fields and variants as they were written; the deserializers of the items, of the codes and of
-- `QueryOutcome` accept it.
pub decode_terminal_frame-encode_terminal_frame :
    (json : Writer Terminal) (from_slice : Bytes → Option DecodedTerminal) (terminal : Terminal)
    (frame : Bytes) (env env' : Env)
    → ReadsAs json.pieces from_slice terminal (spelled terminal)
    → HasCode terminal.outcome
    → encode_terminal_frame json terminal env ≡ ok (frame, env')
    → decode_terminal_frame from_slice frame max_items calm ≡ ok (terminal, calm)
unfolding encode_terminal_frame decode_terminal_frame
decode_terminal_frame-encode_terminal_frame json from_slice terminal frame env env' reads code h =
    deserialized-decode-encode json.pieces json.completes from_slice deserialize_terminal
      (λ t. validate_terminal t max_items) terminal (spelled terminal) frame env env'
      (validate_terminal-Quiet terminal max_items) reads
      (λ e e' valid. deserialize_terminal-valid terminal e e' code valid) h
