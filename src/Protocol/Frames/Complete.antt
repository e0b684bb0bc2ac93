-- ===== src/Protocol/Frames/Complete.antt =====
-- The terminal of a search: the whole result, or as many of its first items as fit.
use eliot_search.Prelude.{
  ℕ, zero, suc, ◌+◌, ◌<◌, ◌≤◌, ◌≡◌, refl, ap, ◌∙◌, inl, inr, Bool, true, false, ◌||◌, some, Option,
  List, [], ◌∷◌, arith, Bytes, length, take, length-take, ltb, leb, if◌then◌else◌, ◌==◌, Bool-cases,
}
use eliot_search.Exec.{Env, ok, err, calm, Exec, pure}
use eliot_search.Exec.Ensures.{bind-ok, bind-at, refused-false, false-passed}
use eliot_search.Protocol.{
  ProtocolError, frame_too_large, max_items, max_frame_bytes, max_body_bytes,
}
use eliot_search.Protocol.Buffer.Fragments.{concat}
use eliot_search.Protocol.Codec.{encode, decode, fits}
use eliot_search.Protocol.Codec.RoundTrip.{framed, decode-framed}
use eliot_search.Protocol.Codec.Fits.{fits-encode}
use eliot_search.Protocol.Complete.{encode_longest, encode_longest_lem, lift}
use eliot_search.Protocol.Message.Item.{SearchItem, StopReason, validate_item}
use eliot_search.Protocol.Message.Terminal.{
  QueryOutcome, Terminal, validate_ranked, validate_outcome, validate_terminal,
}
use eliot_search.Protocol.Message.Quiet.Replies.{validate_item-Quiet}
use eliot_search.Protocol.Message.Read.{DecodedOutcome, DecodedTerminal, deserialize_terminal}
use eliot_search.Protocol.Message.Read.Whole.{HasCode, spelled, deserialize_terminal-valid}
use eliot_search.Protocol.Frames.{
  Writer, CompleteWire, complete_wire, prepare_complete, decode_terminal_frame,
}

-- A prefix of ranked items that pass is passed.
validate_ranked-take :
    (generation index n : ℕ) (seen : List Bytes) (items : List SearchItem) (env env' other : Env)
    → validate_ranked generation index seen items env ≡ ok (tt, env')
    → validate_ranked generation index seen (take n items) other ≡ ok (tt, other)
unfolding validate_ranked pure
validate_ranked-take generation index zero seen items env env' other h = refl
validate_ranked-take generation index (suc n) seen [] env env' other h = refl
validate_ranked-take generation index (suc n) seen (item ∷ items) env env' other h =
    let (good, h1) = refused-false _ _ _ h in
    let (done, mid, first, rest) = bind-ok (validate_item item generation) _ h1 in
    false-passed _ _ _ other good
    ∙ (bind-at (validate_item item generation) _
          ((validate_item-Quiet item generation).at env mid other done first)
        ∙ validate_ranked-take generation (index + 1) n _ items mid env' other rest)

-- The terminal with the first items.
abbrev pub cut_terminal : ℕ → ℕ → List SearchItem → StopReason → ℕ → Terminal
cut_terminal request_id generation items stop n = record {
  request_id = request_id;
  outcome = QueryOutcome.complete generation (take n items) stop;
}

abbrev pub whole_terminal : ℕ → ℕ → List SearchItem → Terminal
whole_terminal request_id generation items = record {
  request_id = request_id;
  outcome = QueryOutcome.complete generation items StopReason.complete;
}

validate_terminal-cut :
    (request_id generation : ℕ) (items : List SearchItem) (stop : StopReason) (n : ℕ)
    (env env' other : Env)
    → validate_terminal (whole_terminal request_id generation items) max_items env ≡ ok (tt, env')
    → validate_terminal (cut_terminal request_id generation items stop n) max_items other
      ≡ ok (tt, other)
unfolding validate_terminal validate_outcome
validate_terminal-cut request_id generation items stop n env env' other h =
    let (one, h1) = refused-false _ _ _ h in
    let (bounded, h2) = refused-false _ _ _ h1 in
    let (few, h3) = refused-false _ _ _ h2 in
    let few' : (generation == 0 || ltb max_items (length (take n items))) ≡ false =
      ground (arith, length-take n items) in
    false-passed _ _ _ other one
    ∙ (false-passed _ _ _ other bounded
        ∙ (false-passed _ _ _ other few'
            ∙ validate_ranked-take generation 0 n [] items env env' other h3))

-- The tag of the variant `Complete`: "complete".
abbrev pub complete_tag : Bytes
complete_tag = 99 ∷ 111 ∷ 109 ∷ 112 ∷ 108 ∷ 101 ∷ 116 ∷ 101 ∷ []

-- The variant with the fields of what is written.
abbrev pub tagged : CompleteWire → DecodedTerminal
tagged wire = record {
  request_id = wire.request_id;
  outcome = DecodedOutcome.complete wire.outcome.generation wire.outcome.items wire.outcome.stop;
}

module _ (json : Writer Terminal) (wire_json : Writer CompleteWire)
    (from_slice : Bytes → Option DecodedTerminal) (request_id generation : ℕ)
    (items : List SearchItem) where
  -- The texts of the whole terminal and of the terminal that is cut to n items.
  abbrev pub whole_text : Bytes
  whole_text = concat (json.pieces (whole_terminal request_id generation items))

  abbrev pub cut_text : ℕ → Bytes
  cut_text n = concat (wire_json.pieces (complete_wire request_id generation (take n items)))

  -- The serializer completes what it writes, writes no less for more items, and has room for the terminal
  -- without items. The derived code reads the fields and variants of a terminal from the text of it, and,
  -- from the text of a cut terminal whose status is the tag of a variant, the fields of that variant as
  -- they were written.
  pub record Serves : Type 0 where
    pub whole_completes : json.completes (whole_terminal request_id generation items) ≡ true
    pub cut_completes :
        (n : ℕ)
        → n ≤ length items
        → wire_json.completes (complete_wire request_id generation (take n items)) ≡ true
    pub grows : (m n : ℕ) → m ≤ n → n ≤ length items → length (cut_text m) ≤ length (cut_text n)
    pub empty : length (cut_text 0) ≤ max_body_bytes
    pub texts : (0 < length whole_text) × (0 < length (cut_text 0))
    pub reads_whole :
        from_slice whole_text ≡ some (spelled (whole_terminal request_id generation items))
    pub reads_cut :
        (n : ℕ)
        → n ≤ length items
        → (complete_wire request_id generation (take n items)).outcome.status ≡ complete_tag
        → from_slice (cut_text n)
          ≡ some (tagged (complete_wire request_id generation (take n items)))

  -- The frame of a text that a valid terminal is read from.
  decode_terminal_frame-framed :
      (body : Bytes) (terminal : Terminal)
      → 0 < length body
      → length body ≤ max_body_bytes
      → HasCode terminal.outcome
      → from_slice body ≡ some (spelled terminal)
      → validate_terminal terminal max_items calm ≡ ok (tt, calm)
      → decode_terminal_frame from_slice (framed body) max_items calm ≡ ok (terminal, calm)
  unfolding decode_terminal_frame pure
  decode_terminal_frame-framed body terminal text room code reads valid =
      bind-at (decode from_slice (framed body) max_frame_bytes) _ (
        decode-framed from_slice body max_frame_bytes calm (spelled terminal) text (omega arith)
          (omega arith) reads)
      ∙ (bind-at (deserialize_terminal (spelled terminal)) _
            (deserialize_terminal-valid terminal calm calm code valid)
          ∙ bind-at (validate_terminal terminal max_items) (λ _. pure terminal) valid)

  -- What is read of a text that was cut.
  cut-spelled :
      (n : ℕ)
      → n ≤ length items
      → Serves
      → from_slice (cut_text n)
        ≡ some (spelled (cut_terminal request_id generation items StopReason.output_limit n))
  unfolding complete_wire
  cut-spelled n inside serves = serves.reads_cut n inside refl

  prepare_complete-decided :
      (fit : Bool)
      → json.completes (whole_terminal request_id generation items) ≡ true
      → validate_terminal (whole_terminal request_id generation items) max_items calm
        ≡ ok (tt, calm)
      → leb (length whole_text) max_body_bytes ≡ fit
      → prepare_complete json wire_json request_id generation items calm
        ≡ (elim fit as (λ _. Exec ProtocolError Bytes) [
          | true ↦
              encode json.pieces json.completes
                (whole_terminal request_id generation items)
                max_frame_bytes
          | false ↦
              encode_longest wire_json.pieces wire_json.completes
                (λ n. complete_wire request_id generation (take n items))
                (length items)
        ])
            calm
  unfolding prepare_complete pure
  prepare_complete-decided fit done valid size_of =
      let terminal : Terminal = whole_terminal request_id generation items in
      let counted = (fits-encode json.pieces json.completes terminal done).0 in
      bind-at (validate_terminal terminal max_items) _ valid
      ∙ bind-at (lift (fits json.pieces json.completes terminal)) _
          (ap (λ r. lift r calm) (counted ∙ ap ok size_of))

  -- What the client has to do with the text of a terminal.
  pub record Delivers (frame : Bytes) : Type 0 where
    pub whole :
        length whole_text ≤ max_body_bytes
        → decode_terminal_frame from_slice frame max_items calm
          ≡ ok (whole_terminal request_id generation items, calm)
    pub cut :
        max_body_bytes < length whole_text
        → (n : ℕ) × (n ≤ length items)
          × (decode_terminal_frame from_slice frame max_items calm
              ≡ ok (cut_terminal request_id generation items StopReason.output_limit n, calm))
          × ((m : ℕ) → n < m → m ≤ length items → max_body_bytes < length (cut_text m))

  -- Undisturbed, for valid items and a serializer as in `Serves`: `prepare_complete` returns a frame, which
  -- an undisturbed client decodes with the deserializers of items and of `QueryOutcome`. It reads the
  -- whole terminal if the text of that is within the ceiling of a body; otherwise it reads the terminal
  -- with the first n items and the stop `output_limit`, and the text with any more items is above the
  -- ceiling.
  pub decode_terminal_frame-prepare_complete :
      Serves
      → validate_terminal (whole_terminal request_id generation items) max_items calm
        ≡ ok (tt, calm)
      → (frame : Bytes) × (prepare_complete json wire_json request_id generation items calm
          ≡ ok (frame, calm))
        × Delivers frame
  decode_terminal_frame-prepare_complete serves valid =
      elim (Bool-cases (leb (length whole_text) max_body_bytes)) [
        | inl fit ↦ (
          framed whole_text,
          prepare_complete-decided true serves.whole_completes valid fit
              ∙ ((fits-encode json.pieces json.completes
                    (whole_terminal request_id generation items) serves.whole_completes).1
                  ∙ ap (λ t. if t then ok (framed whole_text, calm) else err frame_too_large) fit),
          record {
            whole = λ room.
                decode_terminal_frame-framed whole_text (whole_terminal request_id generation items)
                  serves.texts.0 room tt serves.reads_whole valid;
            cut = λ over. absurd (ground arith);
          },
        )
        | inr over ↦
            let (n, made, inside, room, longest) =
              encode_longest_lem wire_json.pieces wire_json.completes
                (λ n. complete_wire request_id generation (take n items)) (length items)
                serves.cut_completes serves.grows serves.empty in
            (
              framed (cut_text n),
              prepare_complete-decided false serves.whole_completes valid over ∙ made,
              record {
                whole = λ small. absurd (ground arith);
                cut = λ big. (
                  n,
                  inside,
                  decode_terminal_frame-framed (cut_text n)
                      (cut_terminal request_id generation items StopReason.output_limit n)
                      (omega (arith, serves.texts.1, serves.grows 0 n (omega arith) inside)) room tt
                      (cut-spelled n inside serves)
                      (validate_terminal-cut request_id generation items StopReason.output_limit n
                        calm calm calm valid),
                  longest,
                );
              },
            )
      ]
