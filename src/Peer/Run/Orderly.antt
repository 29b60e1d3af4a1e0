-- ===== src/Peer/Run/Orderly.antt =====
-- Completions of operations that `Peer` of src/peer.cpp has begun.
use picotor.Base.{ℕ, suc, ◌<◌, ◌≡◌, Bool, true, false, List, [], ◌∷◌, length, ◌==◌, if◌then◌else◌}
use picotor.Peer.State.{
  Peer, Effect, Purpose, handshake, length_word, body, connect, write_handshake, write_request,
  read, start_timer, close_socket,
}
use picotor.Peer.Run.{
  Event, connected, handshake_written, handshake_read, length_read, body_done, timer_expired,
  request_done,
}

-- An operation of the I/O context.
pub data Operation : Type 0 where
  connecting : Operation
  greeting : Operation
  reading : Purpose → Operation
  timing : (block : ℕ) → Operation
  requesting : (block : ℕ) → Operation

-- The operation that the completion ends.
abbrev pub operation_of : Event → Operation
operation_of (connected _) = connecting
operation_of (handshake_written _) = greeting
operation_of (handshake_read _ _ _) = reading handshake
operation_of (length_read _ _) = reading length_word
operation_of (body_done _ _ _ _) = reading body
operation_of (timer_expired _ block) = timing block
operation_of (request_done _ block) = requesting block

-- The call begins the operation.
abbrev pub begins : Operation → Effect → Bool
begins connecting (connect _ _) = true
begins greeting (write_handshake _) = true
begins (reading handshake) (read _ handshake) = true
begins (reading length_word) (read _ length_word) = true
begins (reading body) (read _ body) = true
begins (timing i) (start_timer _ j) = i == j
begins (requesting i) (write_request _ j) = i == j
begins _ _ = false

-- The completion ends such an operation.
abbrev pub ends : Operation → Event → Bool
ends connecting (connected _) = true
ends greeting (handshake_written _) = true
ends (reading handshake) (handshake_read _ _ _) = true
ends (reading length_word) (length_read _ _) = true
ends (reading body) (body_done _ _ _ _) = true
ends (timing i) (timer_expired _ j) = i == j
ends (requesting i) (request_done _ j) = i == j
ends _ _ = false

-- How often the calls have begun the operation, and the completions have ended it.
abbrev pub begun : Operation → List Effect → ℕ
begun o [] = 0
begun o (c ∷ h) = if begins o c then suc (begun o h) else begun o h

abbrev pub ended : Operation → List Event → ℕ
ended o [] = 0
ended o (e ∷ es) = if ends o e then suc (ended o es) else ended o es

-- How many bytes the newest of these reads asked for.
abbrev pub read_size : Operation → List Effect → ℕ
read_size o [] = 0
read_size o (read n w ∷ h) = if begins o (read n w) then n else read_size o h
read_size o (_ ∷ h) = read_size o h

-- The socket was not closed.
abbrev pub is_open : List Effect → Bool
is_open [] = true
is_open (close_socket ∷ h) = false
is_open (_ ∷ h) = is_open h

-- A success needs an open socket, and a read hands over as many bytes as it asked for.
abbrev pub HasSucceeded : Event → List Effect → Type 0
HasSucceeded (connected false) h = is_open h ≡ true
HasSucceeded (handshake_written false) h = is_open h ≡ true
HasSucceeded (handshake_read _ false buffer) h =
    (is_open h ≡ true) × (length buffer ≡ read_size (reading handshake) h)
HasSucceeded (length_read false buffer) h =
    (is_open h ≡ true) × (length buffer ≡ read_size (reading length_word) h)
HasSucceeded (body_done _ false buffer _) h =
    (is_open h ≡ true) × (length buffer ≡ read_size (reading body) h)
HasSucceeded (request_done false _) h = is_open h ≡ true
HasSucceeded _ h = Unit {0}

-- After the completions `done`, the newest first, the peer waits for this one.
abbrev pub IsOutstanding : List Event → Peer → Event → Type 0
IsOutstanding done p e =
    (ended (operation_of e) done < begun (operation_of e) p.history) × HasSucceeded e p.history
