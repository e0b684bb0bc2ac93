-- ===== src/Session/Codes.antt =====
-- The codes of framed_search/session.rs and session/worker.rs, as their bytes.
use eliot_search.Prelude.{[], ◌∷◌, Bytes}

-- "QUERY_DEADLINE"
abbrev pub query_deadline : Bytes
query_deadline = 81 ∷ 85 ∷ 69 ∷ 82 ∷ 89 ∷ 95 ∷ 68 ∷ 69 ∷ 65 ∷ 68 ∷ 76 ∷ 73 ∷ 78 ∷ 69 ∷ []

-- "QUERY_FRAME_INVALID"
abbrev pub query_frame_invalid : Bytes
query_frame_invalid =
    81 ∷ 85 ∷ 69 ∷ 82 ∷ 89 ∷ 95 ∷ 70 ∷ 82 ∷ 65 ∷ 77 ∷ 69 ∷ 95 ∷ 73 ∷ 78 ∷ 86 ∷ 65 ∷ 76 ∷ 73 ∷ 68
    ∷ []

-- "QUERY_RESPONSE_MISMATCH"
abbrev pub query_response_mismatch : Bytes
query_response_mismatch =
    81 ∷ 85 ∷ 69 ∷ 82 ∷ 89 ∷ 95 ∷ 82 ∷ 69 ∷ 83 ∷ 80 ∷ 79 ∷ 78 ∷ 83 ∷ 69 ∷ 95 ∷ 77 ∷ 73 ∷ 83 ∷ 77
    ∷ 65 ∷ 84 ∷ 67 ∷ 72 ∷ []

-- "QUERY_WORKER_PANICKED"
abbrev pub query_worker_panicked : Bytes
query_worker_panicked =
    81 ∷ 85 ∷ 69 ∷ 82 ∷ 89 ∷ 95 ∷ 87 ∷ 79 ∷ 82 ∷ 75 ∷ 69 ∷ 82 ∷ 95 ∷ 80 ∷ 65 ∷ 78 ∷ 73 ∷ 67 ∷ 75
    ∷ 69 ∷ 68 ∷ []

-- "QUERY_OUTPUT_IO"
abbrev pub query_output_io : Bytes
query_output_io = 81 ∷ 85 ∷ 69 ∷ 82 ∷ 89 ∷ 95 ∷ 79 ∷ 85 ∷ 84 ∷ 80 ∷ 85 ∷ 84 ∷ 95 ∷ 73 ∷ 79 ∷ []

-- "QUERY_CANCELLED"
abbrev pub query_cancelled : Bytes
query_cancelled = 81 ∷ 85 ∷ 69 ∷ 82 ∷ 89 ∷ 95 ∷ 67 ∷ 65 ∷ 78 ∷ 67 ∷ 69 ∷ 76 ∷ 76 ∷ 69 ∷ 68 ∷ []

-- "QUERY_OUTPUT_CLOSED"
abbrev pub query_output_closed : Bytes
query_output_closed =
    81 ∷ 85 ∷ 69 ∷ 82 ∷ 89 ∷ 95 ∷ 79 ∷ 85 ∷ 84 ∷ 80 ∷ 85 ∷ 84 ∷ 95 ∷ 67 ∷ 76 ∷ 79 ∷ 83 ∷ 69 ∷ 68
    ∷ []

-- "QUERY_CLEANUP_EXPIRED"
abbrev pub query_cleanup_expired : Bytes
query_cleanup_expired =
    81 ∷ 85 ∷ 69 ∷ 82 ∷ 89 ∷ 95 ∷ 67 ∷ 76 ∷ 69 ∷ 65 ∷ 78 ∷ 85 ∷ 80 ∷ 95 ∷ 69 ∷ 88 ∷ 80 ∷ 73 ∷ 82
    ∷ 69 ∷ 68 ∷ []

-- "SESSION_PARTIAL_OUTPUT_CANCELLED"
abbrev pub session_partial_output_cancelled : Bytes
session_partial_output_cancelled =
    83 ∷ 69 ∷ 83 ∷ 83 ∷ 73 ∷ 79 ∷ 78 ∷ 95 ∷ 80 ∷ 65 ∷ 82 ∷ 84 ∷ 73 ∷ 65 ∷ 76 ∷ 95 ∷ 79 ∷ 85 ∷ 84
    ∷ 80 ∷ 85 ∷ 84 ∷ 95 ∷ 67 ∷ 65 ∷ 78 ∷ 67 ∷ 69 ∷ 76 ∷ 76 ∷ 69 ∷ 68 ∷ []

-- "SESSION_NO_ACTIVE_REQUEST"
abbrev pub session_no_active_request : Bytes
session_no_active_request =
    83 ∷ 69 ∷ 83 ∷ 83 ∷ 73 ∷ 79 ∷ 78 ∷ 95 ∷ 78 ∷ 79 ∷ 95 ∷ 65 ∷ 67 ∷ 84 ∷ 73 ∷ 86 ∷ 69 ∷ 95 ∷ 82
    ∷ 69 ∷ 81 ∷ 85 ∷ 69 ∷ 83 ∷ 84 ∷ []

-- "SESSION_REQUEST_ID_INVALID"
abbrev pub session_request_id_invalid : Bytes
session_request_id_invalid =
    83 ∷ 69 ∷ 83 ∷ 83 ∷ 73 ∷ 79 ∷ 78 ∷ 95 ∷ 82 ∷ 69 ∷ 81 ∷ 85 ∷ 69 ∷ 83 ∷ 84 ∷ 95 ∷ 73 ∷ 68 ∷ 95
    ∷ 73 ∷ 78 ∷ 86 ∷ 65 ∷ 76 ∷ 73 ∷ 68 ∷ []

-- "SESSION_PARTIAL_OUTPUT_CLOSE"
abbrev pub session_partial_output_close : Bytes
session_partial_output_close =
    83 ∷ 69 ∷ 83 ∷ 83 ∷ 73 ∷ 79 ∷ 78 ∷ 95 ∷ 80 ∷ 65 ∷ 82 ∷ 84 ∷ 73 ∷ 65 ∷ 76 ∷ 95 ∷ 79 ∷ 85 ∷ 84
    ∷ 80 ∷ 85 ∷ 84 ∷ 95 ∷ 67 ∷ 76 ∷ 79 ∷ 83 ∷ 69 ∷ []

-- "SESSION_REQUEST_IN_FLIGHT"
abbrev pub session_request_in_flight : Bytes
session_request_in_flight =
    83 ∷ 69 ∷ 83 ∷ 83 ∷ 73 ∷ 79 ∷ 78 ∷ 95 ∷ 82 ∷ 69 ∷ 81 ∷ 85 ∷ 69 ∷ 83 ∷ 84 ∷ 95 ∷ 73 ∷ 78 ∷ 95
    ∷ 70 ∷ 76 ∷ 73 ∷ 71 ∷ 72 ∷ 84 ∷ []

-- "SESSION_CONTROL_INVALID"
abbrev pub session_control_invalid : Bytes
session_control_invalid =
    83 ∷ 69 ∷ 83 ∷ 83 ∷ 73 ∷ 79 ∷ 78 ∷ 95 ∷ 67 ∷ 79 ∷ 78 ∷ 84 ∷ 82 ∷ 79 ∷ 76 ∷ 95 ∷ 73 ∷ 78 ∷ 86
    ∷ 65 ∷ 76 ∷ 73 ∷ 68 ∷ []

-- "WINDOW_ALREADY_OPEN"
abbrev pub window_already_open : Bytes
window_already_open =
    87 ∷ 73 ∷ 78 ∷ 68 ∷ 79 ∷ 87 ∷ 95 ∷ 65 ∷ 76 ∷ 82 ∷ 69 ∷ 65 ∷ 68 ∷ 89 ∷ 95 ∷ 79 ∷ 80 ∷ 69 ∷ 78
    ∷ []

-- "WINDOW_NOT_OPEN"
abbrev pub window_not_open : Bytes
window_not_open = 87 ∷ 73 ∷ 78 ∷ 68 ∷ 79 ∷ 87 ∷ 95 ∷ 78 ∷ 79 ∷ 84 ∷ 95 ∷ 79 ∷ 80 ∷ 69 ∷ 78 ∷ []

-- "WINDOW_EXPIRED_PARTIAL_OUTPUT"
abbrev pub window_expired_partial_output : Bytes
window_expired_partial_output =
    87 ∷ 73 ∷ 78 ∷ 68 ∷ 79 ∷ 87 ∷ 95 ∷ 69 ∷ 88 ∷ 80 ∷ 73 ∷ 82 ∷ 69 ∷ 68 ∷ 95 ∷ 80 ∷ 65 ∷ 82 ∷ 84
    ∷ 73 ∷ 65 ∷ 76 ∷ 95 ∷ 79 ∷ 85 ∷ 84 ∷ 80 ∷ 85 ∷ 84 ∷ []
