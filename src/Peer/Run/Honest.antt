-- ===== src/Peer/Run/Honest.antt =====
-- `Peer` of src/peer.cpp: a peer that answers every request.
pub mod Asked
pub mod Filled
pub mod Fetching
pub mod Answer
pub mod Round
pub mod Tally
pub mod Finish
pub mod Fetch
pub mod Field
pub mod Turn
