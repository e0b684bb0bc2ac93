-- ===== src/Session.antt =====
-- framed_search/session.rs of the daemon: the session between a client and the worker that owns its
-- window.
pub mod Codes
pub mod State
pub mod Monad
pub mod Replies
pub mod Cancel
pub mod Accept
pub mod Loop
pub mod Traffic
pub mod Rules
pub mod Served
pub mod Worker
pub mod Sessions
pub mod Worked
