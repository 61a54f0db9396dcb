-- ===== src/Dispatch.antt =====
-- src/domain/p2p.rs: the dispatch of a sub-task, the bytes that its signature covers and the request
-- that it becomes. What JSON writes for a tree is a parameter.
pub mod GoJson
pub mod Payload
pub mod Written
pub mod Pieces
pub mod Layout
