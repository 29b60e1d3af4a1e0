-- ===== src/Peer/State.antt =====
-- The members of `Peer`, what it asks of its surroundings, and the operations that several handlers use.
use picotor.Base.{
  ℕ, Bool, true, false, List, [], ◌∷◌, Option, none, some, Bytes, if◌then◌else◌, ◌==◌,
}
use picotor.Common.Address.{Address}
use picotor.Common.Address
use picotor.Common.Bitfield.{Bitfield, empty}
use picotor.Torrent.Block.{Block, Store, write}
use picotor.Torrent.Block
use picotor.Torrent.Piece.{Piece}
use picotor.Result.{Result, peer_dropped}

abbrev pub pipeline_limit : ℕ
pipeline_limit = 5

abbrev pub timeout_ms : ℕ
timeout_ms = 7500

-- What a read on the socket is for: its completion handler.
pub data Purpose : Type 0 where
  handshake length_word body : Purpose

-- The calls that a peer makes: of the socket and its timers, whose completions come back as events;
-- and of the two queues. A `push` stands for the loop that pushes until it succeeds.
pub data Effect : Type 0 where
  connect : (host service : Bytes) → Effect
  write_handshake : Bytes → Effect
  write_message : Bytes → Effect
  write_request : Bytes → (block : ℕ) → Effect
  read : (size : ℕ) → Purpose → Effect
  start_timer : (ms block : ℕ) → Effect
  close_socket : Effect
  pop_work : ℕ → Effect
  push_work : ℕ → Effect
  push_result : Result → Effect

-- `requests` is `blocks_`, from the index of a block to its address. Beside the members stand the store
-- of blocks, what the next calls of `work_queue->pop` return (the last of them finds it empty), and the
-- calls made so far, the newest first.
pub record Peer : Type 0 where
  pub addr : Address
  pub recv_buffer : Bytes
  pub peer_id : Bytes
  pub choked : Bool
  pub available_pieces : Bitfield
  pub piece : Option Piece
  pub requests : List (ℕ × ℕ)
  pub closed : Bool
  pub store : Store
  pub offers : List ℕ
  pub history : List Effect

abbrev pub emit : Effect → Peer → Peer
emit e p = record p { history = e ∷ p.history }

-- `std::unordered_map`, with distinct keys.
unfoldable pub lookup : ℕ → List (ℕ × ℕ) → Option ℕ
lookup k [] = none
lookup k ((j, v) ∷ m) = if j == k then some v else lookup k m

unfoldable pub erase : ℕ → List (ℕ × ℕ) → List (ℕ × ℕ)
erase k [] = []
erase k ((j, v) ∷ m) = if j == k then m else (j, v) ∷ erase k m

-- An entry that is there stays.
unfoldable pub emplace : ℕ → ℕ → List (ℕ × ℕ) → List (ℕ × ℕ)
emplace k v m = elim (lookup k m) [ none ↦ (k, v) ∷ m | some _ ↦ m ]

-- The constructor: the address is resolved, and a connection is begun.
unfoldable pub new_peer : Address → Peer
new_peer addr = emit (connect (Address.ip addr) (Address.port_str addr)) (record {
  addr = addr;
  recv_buffer = [];
  peer_id = [];
  choked = true;
  available_pieces = empty;
  piece = none;
  requests = [];
  closed = false;
  store = record { next = 0; cell = λ _. Block.new_block 0 };
  offers = [];
  history = [];
})

unfoldable pub release_block : ℕ → Peer → Peer
release_block index p = elim (lookup index p.requests) [
  | none ↦ p
  | some ptr ↦ record p {
    requests = erase index p.requests;
    store = write p.store ptr (Block.release (p.store.cell ptr));
  }
]

unfoldable pub release_piece : Peer → Peer
release_piece p = elim p.piece [
  | none ↦ p
  | some q ↦ emit (push_work q.index) (record p { piece = none })
]

unfoldable pub close : Peer → Peer
close p =
    emit (push_result (peer_dropped p.addr))
      (emit close_socket (release_piece (record p { closed = true })))
