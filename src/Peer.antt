-- ===== src/Peer.antt =====
-- include/peer.hpp and src/peer.cpp: the connection to one peer, as a state machine whose handlers are
-- called by the I/O context when an operation completes.
pub mod State
pub mod Download
pub mod Handlers
pub mod Run
