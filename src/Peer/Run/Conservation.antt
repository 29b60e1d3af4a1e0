-- ===== src/Peer/Run/Conservation.antt =====
-- `Peer` of src/peer.cpp: no piece is lost or doubled, whatever happens on the connection.
use picotor.Base.{ℕ, ◌+◌, ◌≡◌, refl, sym, ap, subst, true, List, Bytes, ok, arith}
use picotor.Common.Address.{Address}
use picotor.Result.{piece_complete, peer_connected, peer_dropped, TorrentContext}
use picotor.Peer.State.{
  Peer, Effect, connect, write_handshake, write_message, write_request, read, start_timer,
  close_socket, pop_work, push_work, push_result, emit, new_peer,
}
use picotor.Peer.Run.{Event, step, run}
use picotor.Peer.Run.Rule.{is_neutral, IsInvariant, step-kept, run-kept}
use picotor.Peer.Run.Ownership.{
  taken, given, held, held_as, IsOpen, IsBalanced, release_piece-IsBalanced,
  handle_piece-IsBalanced, IsBalanced-kept,
}

emit-IsBalanced :
    (a : ℕ) (e : Effect) (p : Peer) → is_neutral e ≡ true → IsBalanced a p → IsBalanced a (emit e p)
emit-IsBalanced a (connect _ _) p n v = v
emit-IsBalanced a (write_handshake _) p n v = v
emit-IsBalanced a (write_message _) p n v = v
emit-IsBalanced a (write_request _ _) p n v = v
emit-IsBalanced a (read _ _) p n v = v
emit-IsBalanced a (start_timer _ _) p n v = v
emit-IsBalanced a close_socket p n v = v
emit-IsBalanced a (pop_work _) p n v = cc
emit-IsBalanced a (push_work _) p n v = cc
emit-IsBalanced a (push_result (piece_complete _)) p n v = cc
emit-IsBalanced a (push_result (peer_connected _)) p n v = v
emit-IsBalanced a (push_result (peer_dropped _)) p n v = v

IsBalanced-same :
    (a : ℕ) (p p' : Peer)
    → p'.piece ≡ p.piece
    → p'.history ≡ p.history
    → IsBalanced a p
    → IsBalanced a p'
IsBalanced-same a p p' piece history (o, v) = (
  subst IsOpen (sym piece) o,
  omega (arith, v, ap (held_as a) piece, ap (given a) history, ap (taken a) history),
)

IsBalanced-IsInvariant :
    (sha1 : Bytes → Bytes) (ctx : TorrentContext) (a : ℕ) → IsInvariant sha1 ctx (IsBalanced a)
IsBalanced-IsInvariant sha1 ctx a = record {
  stable = record {
    plain = record {
      looks = λ p p' piece history offers fewer. IsBalanced-same a p p' piece history;
      emits = emit-IsBalanced a;
      gives_up = λ p v. release_piece-IsBalanced a p v.1;
    };
    handles = λ junk. handle_piece-IsBalanced junk sha1 ctx a;
    downloads = IsBalanced-kept ctx a;
  };
  loads = λ p offers v. v;
}

pub step-IsBalanced :
    (sha1 : Bytes → Bytes) (ctx : TorrentContext) (a : ℕ) (p p' : Peer) (e : Event)
    → IsBalanced a p
    → step sha1 ctx p e ≡ ok p'
    → IsBalanced a p'
step-IsBalanced sha1 ctx a = step-kept sha1 ctx (IsBalanced a) (IsBalanced-IsInvariant sha1 ctx a)

-- In any run of a peer from its start in which no handler faults, whatever completes in whatever
-- order, a piece was taken from the work queue exactly as often as it was put back or reported
-- complete, and once more if the peer holds it now.
pub run-balance :
    (sha1 : Bytes → Bytes) (ctx : TorrentContext) (addr : Address) (es : List Event) (p : Peer)
    (a : ℕ)
    → run sha1 ctx (new_peer addr) es ≡ ok p
    → held a p + given a p.history ≡ taken a p.history
unfolding new_peer
run-balance sha1 ctx addr es p a e =
    (run-kept sha1 ctx (IsBalanced a) (IsBalanced-IsInvariant sha1 ctx a) (new_peer addr) p es
      (tt, refl) e).1
