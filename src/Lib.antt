-- ===== src/Lib.antt =====
-- picotor, a BitTorrent client for torrents of a single file.
--
-- The program reads a metainfo file (src/torrent.cpp), asks the tracker for peers and starts a
-- connection to each (src/main.cpp). The peers (src/peer.cpp) take the numbers of pieces from one
-- work queue, ask for the blocks of a piece, put a complete piece together, check its hash and hand
-- it to the monitor thread through a result queue; the monitor writes it to the file. Messages are
-- in src/message.cpp, and shared helpers in src/common.cpp.
--
-- Which file models what:
--   Base         shared names, lists over the native numbers, and outcomes that can be faults
--   Stream       reads of `std::stringstream`, and memory that nothing has written
--   Common       include/common.hpp and src/common.cpp: words, decimal and hexadecimal text, URL
--                encoding, hashes, addresses, bit fields, `read_file`
--   Torrent      include/torrent.hpp and src/torrent.cpp: `SingleFileTorrent` (Metainfo),
--                `TrackerResponse` (Tracker), `Block` in a store, `Piece`, `CompletePiece`
--   Message      include/message.hpp and src/message.cpp: `Handshake`, and `Message` (Kind, Frame,
--                Print)
--   Result       include/result.hpp and `TorrentContext`
--   Peer         include/peer.hpp and src/peer.cpp: members and small operations (State),
--                `async_download` (Download), the handlers (Handlers), sequences of completions (Run,
--                with what they keep: Rule, Ownership, Conservation, Verified, Pipeline, Safe,
--                Handling, Safety; how it gives up: Failure; a piece that
--                is right: Genuine; and a peer that answers every request: Honest)
--   Monitor      `MonitorVisitor` and `monitor_thread` of src/peer.cpp
--   Main         src/main.cpp: request and setup; Main.Query reads the query back, Main.Client is
--                the client with all its peers and the work queue, and Main.System adds the monitor
--                and the queue of results: where each piece is (Places), what is on the disk
--                (Integrity), the abstract protocol (Refinement), the figures (Progress), and that
--                the client can go on (Enabled), that a report is visited once (Freed), that what is on
--                its way no more is on the disk (OnDisk), and that the download can come to its end
--                (Download), with completions of operations that were begun (Orderly)
--   Tests        the theorems at concrete inputs
--
-- How the model corresponds to the code:
--   * A function is named as in the source, and so are the members of a record. A byte is a number
--     below 256, a `uint32_t` a number below 2 ^ 32 whose wrap-around is written out.
--   * Code that can throw, fail an assertion or leave its memory returns an `Outcome`; a fault says
--     which of these happens.
--   * What a variable or buffer holds before it is written is the value of a parameter (`Junk`).
--   * A `shared_ptr<Block>` is an address in a store of blocks.
--   * A handler takes a peer and gives a peer. What it asks of the socket, of timers and of the
--     queues is put in front of the history of the peer. A completion is an event; a run is any
--     sequence of events, so the theorems on runs do not depend on an order of the I/O context. A
--     push that is repeated until it succeeds is one push.
--   * For the client, the pops and pushes of one handler act on the one work queue, which gives out
--     each number that was pushed once, in order. Handlers do not overlap, since one thread runs them.
--     A pop may also fail although the queue is not empty.
--   * The system is a relation of ticks: a completion is handled at one of the peers, or the monitor
--     pops the oldest result and visits it. A trace is any sequence of ticks from the state that
--     `start_run_connections` sets up, so the theorems on traces hold for every interleaving of the
--     two threads. Ticks of the peers after the monitor has ended are not excluded, and neither are
--     completions of operations that no call began, so what holds in every trace holds in those of
--     the program. A theorem that there is a trace uses Orderly: there each completion ends an
--     operation that its peer has begun, and a pop fails only when the work queue is empty.
--   * Loops run on fuel where they are not structural: `read_file`, the loops over hashes and over
--     compact addresses, `push_bits`, and `async_download`. There is a round for each buffer or byte
--     of the text and one more, nine for the eight bits of a byte, and for `async_download` more than
--     a piece has blocks; the theorems on these loops give results, so the rounds are enough.
--
-- Parameters: SHA-1, the bencode library and the HTTP library are copies of other projects; they
-- appear as a function, a record of operations, and a function that may fault.
--
-- Not modelled: log output; the text of the progress report; sockets and timers behind their calls;
-- a failure to allocate memory, as for a message that a peer claims to have 4 GB; that the bytes of
-- a message may be gone when they are written; the memory order of the two lock-free queues.
pub mod Base
pub mod Common
pub mod Stream
pub mod Torrent
pub mod Message
pub mod Result
pub mod Peer
pub mod Monitor
pub mod Main
pub mod Tests
