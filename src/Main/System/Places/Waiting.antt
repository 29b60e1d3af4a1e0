-- ===== src/Main/System/Places/Waiting.antt =====
-- The reports of a piece in the queue of results of src/main.cpp.
use picotor.Base.{ℕ, ◌+◌, ◌≡◌, refl, ap, List, [], ◌∷◌, ◌++◌, arith, Bytes}
use picotor.Result.{Result, piece_complete, peer_connected, peer_dropped, TorrentContext}
use picotor.Peer.State.{
  Peer, Effect, connect, write_handshake, write_message, write_request, read, start_timer,
  close_socket, pop_work, push_work, push_result,
}
use picotor.Main.Client.{Client, Move, act, completed, completed_by_all}
use picotor.Main.Client.Counts.{completed_append}
use picotor.Main.System.{pushed, calls_of, waiting}

pub waiting_append : (a : ℕ) (x y : List Result) → waiting a (x ++ y) ≡ waiting a x + waiting a y
waiting_append a [] y = omega arith
waiting_append a (piece_complete c ∷ x) y = omega (arith, waiting_append a x y)
waiting_append a (peer_connected _ ∷ x) y = waiting_append a x y
waiting_append a (peer_dropped _ ∷ x) y = waiting_append a x y

pub waiting-pushed : (a : ℕ) (h : List Effect) → waiting a (pushed h) ≡ completed a h
unfolding pushed
waiting-pushed a [] = refl
waiting-pushed a (connect _ _ ∷ h) = waiting-pushed a h
waiting-pushed a (write_handshake _ ∷ h) = waiting-pushed a h
waiting-pushed a (write_message _ ∷ h) = waiting-pushed a h
waiting-pushed a (write_request _ _ ∷ h) = waiting-pushed a h
waiting-pushed a (read _ _ ∷ h) = waiting-pushed a h
waiting-pushed a (start_timer _ _ ∷ h) = waiting-pushed a h
waiting-pushed a (close_socket ∷ h) = waiting-pushed a h
waiting-pushed a (pop_work _ ∷ h) = waiting-pushed a h
waiting-pushed a (push_work _ ∷ h) = waiting-pushed a h
waiting-pushed a (push_result (piece_complete c) ∷ h) =
    omega (arith, waiting_append a (pushed h) (piece_complete c ∷ []), waiting-pushed a h)
waiting-pushed a (push_result (peer_connected x) ∷ h) =
    omega (arith, waiting_append a (pushed h) (peer_connected x ∷ []), waiting-pushed a h)
waiting-pushed a (push_result (peer_dropped x) ∷ h) =
    omega (arith, waiting_append a (pushed h) (peer_dropped x ∷ []), waiting-pushed a h)

completed_by_all-update :
    (a : ℕ) (front back : List Peer) (p p' : Peer) (calls : List Effect)
    → p'.history ≡ calls ++ p.history
    → completed_by_all a (front ++ p' ∷ back)
      ≡ completed_by_all a (front ++ p ∷ back) + completed a calls
completed_by_all-update a [] back p p' calls e =
    omega (arith, ap (completed a) e, completed_append a calls p.history)
completed_by_all-update a (x ∷ front) back p p' calls e =
    omega (arith, completed_by_all-update a front back p p' calls e)

pub Move-completed :
    {sha1 : Bytes → Bytes} {ctx : TorrentContext} (a : ℕ) (c d : Client) (m : Move sha1 ctx c d)
    → completed_by_all a d.peers ≡ completed_by_all a c.peers + completed a (calls_of m)
Move-completed a c d (act front back p p' e calls before after done grown served) = omega (
  arith,
  ap (completed_by_all a) before,
  ap (completed_by_all a) after,
  completed_by_all-update a front back p p' calls grown,
)
