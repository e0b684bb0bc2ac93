-- ===== src/Lib.antt =====
-- The preparation of sources, the exact search in them and the messages between provider and client
-- in eliot-search, modelled and proved.
--
-- A selected source is retained as bytes, bound by a current row, materialized as text, cut into
-- units and saved as a prepared artifact, which later readers accept or refuse. The files follow
-- that path. Beside it stand the identifiers that rows carry, the literal search over retained
-- bytes, the messages and frames that the provider and its client exchange, and the window from
-- which the results of a query are emitted page by page:
--
--   Contracts     crates/search-contracts/src/ids.rs: the spelling of identifiers and digests
--                 (`UuidBytes::parse`, its display and `hex_encode`).
--   Registry      crates/search-source/search-source-registry/src/lib.rs: settings, object
--                 references, current rows (`CurrentSourceRecord`) and, in Registry/FileKey, the
--                 encoding of `NativeFileKey` (`to_bytes`, `from_bytes`).
--   Materializer  crates/search-prep/search-materializer/src/utf8: `materialize_utf8` with its
--                 limits; Materializer/Scan holds `reject_binary_controls` and `scan_lines` of
--                 scan.rs with their helpers.
--   Unitizer      crates/search-prep/search-unitizer/src: Unitizer/Layout is layout.rs
--                 (`unitize_text`, `choose_end`), Unitizer/Wire, Encode and Decode are the files of
--                 the same names in prepared, and Unitizer/Artifact is prepared.rs with the entry of
--                 decode.rs (`prepare_utf8`, `decode_prepared_utf8`).
--   Protocol      crates/search-provider-protocol/src/frame.rs: Protocol/Buffer is `FrameBuffer`,
--                 Protocol/Codec `encode`, `decode` and `fits`, Protocol/Prefix and Complete the
--                 search of `prepare_complete` and what it encodes; Protocol/Frames has
--                 the functions that validate a message around the codec, such as
--                 `encode_client_frame` and `decode_terminal_frame`. Protocol/Message is dto.rs
--                 beside it: requests (Request, Session), what is cited (Object), results (Item,
--                 Raw, Decoded, Terminal), the pages of a window (Window, Page), expansions and
--                 replies, each with its `validate` and `validate_request`.
--   Exact         bins/eliot-searchd/src/exact_literal.rs: `Literal::new` (`compile`, `advance`) and
--                 `Literal::scan`, with the callback `found` as a parameter; Exact/Occurrences is
--                 the comparison place by place that they are held against.
--                 Exact/RawExact is raw_exact.rs (`scan_source`, `execute`) with the citations of
--                 exact_literal.rs; the object store (`read_object`) and the published inventory
--                 that is cut down to the selection are parameters. Exact/Select is
--                 `select_sources`, which cuts it down, with the binary search of the standard
--                 library.
--   Framed        bins/eliot-searchd/src/framed_search/window.rs: `Window::page` with its loop
--                 (`offer`) and `Window::commit_page`; Framed/Open has `Window::open`
--                 (`opened_window`) and `Window::expand` (`expand_item`), Framed/Rounds the
--                 sequences of pages and commits.
--   Session       bins/eliot-searchd/src/framed_search/session.rs: `Exchange` with `reject` and
--                 `cancel` (Session/Cancel), `accept` and `consume` (Session/Accept), and `received`
--                 (`take_reply`), `flushed`, `timed_out` and `deadline` (Session/Loop), where
--                 `iterate` is an iteration of `exchange`; session/worker.rs: `outcome` and `failure`
--                 (Session/Replies), `execute` (`execute_job`) and an iteration of `run` (`work`) in
--                 Session/Worker. Session/Traffic says in which order messages may pass between the
--                 two.
--   Utf8          `String::from_utf8` and `str::is_char_boundary` of the standard library.
--   Exec          operations that may fail and that look at the cancellation flag, the clock and the
--                 allocator; Exec/Ensures holds the rules of reasoning about what they return,
--                 Exec/Quiet those for operations that do not look at the environment.
--   Prelude       tests, lists of bytes and 64-bit words.
--   Examples      runs of the definitions on short texts, keys, artifacts, frames,
--                 messages, identifiers, literals, executions, windows and sessions.
--
-- Correspondence. Bytes and offsets are numbers; `usize` and `u64` are 64 bits wide, so
-- conversions between them do not fail and are left out, and checked operations refuse above
-- `max_u64`. A text is its bytes, accepted by the automaton of Utf8. `check(deadline,
-- cancelled)` consumes one `Moment` of the environment, which says whether the flag is set and
-- whether the deadline has passed; `try_reserve_exact` consumes one that says whether memory is
-- granted. In Exact an index out of range is the error `panic` of the model. Vector capacity is
-- not modelled: a push may always be refused memory. The loops over `chunks(n)` look at the
-- environment at each offset that is a multiple of n. The hash blake3 is a parameter, a function
-- on bytes: the crate hashes the chunks it is fed as one string. The serializer serde_json is a
-- parameter too: the pieces that it writes, whether it then completes, and what it reads from
-- bytes. What serde_json and the derived code read is a value with its sequences whole and its
-- codes as any text; behind it run the deserializers that dto.rs writes out
-- (Protocol/Message/Read: `deserialize_items`, `FailureCode`, `QueryOutcome`). Where code goes
-- on after a failed encoding, what its next looks find is as open as what the failed ones
-- found. The texts of messages are their bytes, and a score is the 32 bits of its binary
-- representation. Where `validate` compares an item with those before it by index, the loop
-- carries what it has passed. `push` returns the buffer beside its result, as a refused push
-- leaves it changed.
--
-- A session is a state, with the messages that have passed between it and its worker, and what
-- the clock and the environment hold in store; an operation gives a value or an error, and the
-- world behind it in either case. Times are milliseconds in 64 bits. A job and what belongs to
-- it, its flag and its reply, are named by its request id. A branch of the `select!` is an event
-- that comes from outside: which one is ready, and when the worker is gone, is open. Threads, the
-- runtime, the pipes and their errors, and the waits of `expire`, are not modelled.
--
-- Fuel. `unitize_from` takes as many rounds as the text has bytes, and each round moves its
-- start on; `ascend` takes the rounds that are left below the hard end; `seek` takes one round
-- more than the text has bytes, and each round passes a line. `search_between` takes as many
-- rounds as there are keys. `advance` falls back as often as the matched length allows, and
-- each fall shortens it. `offer` recurs on the number of items of the page. `search_prefix`
-- takes as many rounds as there are items, and each round moves a bound. The other loops are
-- recursion on bytes or units.
--
-- Not modelled: the display of errors and values, and the parts of the repository that
-- Contracts, Registry, Materializer, Unitizer, Protocol, Exact, Framed and Session do not name,
-- such as the control store, the index bridge and the commands; they stand on redb, Qdrant, files
-- and processes. Of the messages, the derived code that reads and writes them for serde is part of
-- the serializer that is a parameter.
mod Prelude
pub mod Exec
pub mod Utf8
pub mod Contracts
pub mod Registry
pub mod Materializer
pub mod Unitizer
pub mod Protocol
pub mod Exact
pub mod Framed
pub mod Session
mod Examples
