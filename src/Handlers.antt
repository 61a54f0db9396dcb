-- ===== src/Handlers.antt =====
-- The stream handlers of src/transport/p2p: which peer may speak, what has to be signed, and what is
-- done then. A message is what `serde_json::from_slice` reads, if it reads one; a bid is started as
-- the announcement or the call that it answers.
pub mod Streams
pub mod Verified
