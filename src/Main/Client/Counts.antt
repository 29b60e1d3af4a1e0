-- ===== src/Main/Client/Counts.antt =====
-- src/main.cpp with src/peer.cpp: counts of a piece over sequences of calls.
use picotor.Base.{ℕ, ◌+◌, ◌≡◌, refl, ap, List, [], ◌∷◌, ◌++◌, arith}
use picotor.Result.{piece_complete, peer_connected, peer_dropped}
use picotor.Peer.State.{
  Effect, connect, write_handshake, write_message, write_request, read, start_timer, close_socket,
  pop_work, push_work, push_result,
}
use picotor.Peer.Run.Ownership.{taken, given}
use picotor.Main.Client.{Serves, count, put_back, completed}

pub count_append : (a : ℕ) (xs ys : List ℕ) → count a (xs ++ ys) ≡ count a xs + count a ys
count_append a [] ys = omega arith
count_append a (x ∷ xs) ys = omega (arith, count_append a xs ys)

pub given-parts : (a : ℕ) (h : List Effect) → given a h ≡ put_back a h + completed a h
given-parts a [] = refl
given-parts a (connect _ _ ∷ h) = given-parts a h
given-parts a (write_handshake _ ∷ h) = given-parts a h
given-parts a (write_message _ ∷ h) = given-parts a h
given-parts a (write_request _ _ ∷ h) = given-parts a h
given-parts a (read _ _ ∷ h) = given-parts a h
given-parts a (start_timer _ _ ∷ h) = given-parts a h
given-parts a (close_socket ∷ h) = given-parts a h
given-parts a (pop_work _ ∷ h) = given-parts a h
given-parts a (push_work _ ∷ h) = omega (arith, given-parts a h)
given-parts a (push_result (piece_complete _) ∷ h) = omega (arith, given-parts a h)
given-parts a (push_result (peer_connected _) ∷ h) = given-parts a h
given-parts a (push_result (peer_dropped _) ∷ h) = given-parts a h

pub taken_append : (a : ℕ) (x y : List Effect) → taken a (x ++ y) ≡ taken a x + taken a y
taken_append a [] y = omega arith
taken_append a (connect _ _ ∷ x) y = taken_append a x y
taken_append a (write_handshake _ ∷ x) y = taken_append a x y
taken_append a (write_message _ ∷ x) y = taken_append a x y
taken_append a (write_request _ _ ∷ x) y = taken_append a x y
taken_append a (read _ _ ∷ x) y = taken_append a x y
taken_append a (start_timer _ _ ∷ x) y = taken_append a x y
taken_append a (close_socket ∷ x) y = taken_append a x y
taken_append a (pop_work _ ∷ x) y = omega (arith, taken_append a x y)
taken_append a (push_work _ ∷ x) y = taken_append a x y
taken_append a (push_result _ ∷ x) y = taken_append a x y

pub given_append : (a : ℕ) (x y : List Effect) → given a (x ++ y) ≡ given a x + given a y
given_append a [] y = omega arith
given_append a (connect _ _ ∷ x) y = given_append a x y
given_append a (write_handshake _ ∷ x) y = given_append a x y
given_append a (write_message _ ∷ x) y = given_append a x y
given_append a (write_request _ _ ∷ x) y = given_append a x y
given_append a (read _ _ ∷ x) y = given_append a x y
given_append a (start_timer _ _ ∷ x) y = given_append a x y
given_append a (close_socket ∷ x) y = given_append a x y
given_append a (pop_work _ ∷ x) y = given_append a x y
given_append a (push_work _ ∷ x) y = omega (arith, given_append a x y)
given_append a (push_result (piece_complete _) ∷ x) y = omega (arith, given_append a x y)
given_append a (push_result (peer_connected _) ∷ x) y = given_append a x y
given_append a (push_result (peer_dropped _) ∷ x) y = given_append a x y

-- What a handler takes leaves the queue, and what it puts back enters it.
pub Serves-count :
    (a : ℕ) (h : List Effect) (q q' : List ℕ)
    → Serves h q q'
    → count a q' + taken a h ≡ count a q + put_back a h
Serves-count a [] q q' e = omega (arith, ap (count a) e)
Serves-count a (push_work i ∷ h) q q' (r, s, e) =
    omega (arith, Serves-count a h q r s, ap (count a) e, count_append a r (i ∷ []))
Serves-count a (pop_work i ∷ h) q q' (r, s, e) =
    omega (arith, Serves-count a h q r s, ap (count a) e)
Serves-count a (connect _ _ ∷ h) q q' s = Serves-count a h q q' s
Serves-count a (write_handshake _ ∷ h) q q' s = Serves-count a h q q' s
Serves-count a (write_message _ ∷ h) q q' s = Serves-count a h q q' s
Serves-count a (write_request _ _ ∷ h) q q' s = Serves-count a h q q' s
Serves-count a (read _ _ ∷ h) q q' s = Serves-count a h q q' s
Serves-count a (start_timer _ _ ∷ h) q q' s = Serves-count a h q q' s
Serves-count a (close_socket ∷ h) q q' s = Serves-count a h q q' s
Serves-count a (push_result (piece_complete _) ∷ h) q q' s = Serves-count a h q q' s
Serves-count a (push_result (peer_connected _) ∷ h) q q' s = Serves-count a h q q' s
Serves-count a (push_result (peer_dropped _) ∷ h) q q' s = Serves-count a h q q' s

pub completed_append :
    (a : ℕ) (x y : List Effect) → completed a (x ++ y) ≡ completed a x + completed a y
completed_append a [] y = omega arith
completed_append a (connect _ _ ∷ x) y = completed_append a x y
completed_append a (write_handshake _ ∷ x) y = completed_append a x y
completed_append a (write_message _ ∷ x) y = completed_append a x y
completed_append a (write_request _ _ ∷ x) y = completed_append a x y
completed_append a (read _ _ ∷ x) y = completed_append a x y
completed_append a (start_timer _ _ ∷ x) y = completed_append a x y
completed_append a (close_socket ∷ x) y = completed_append a x y
completed_append a (pop_work _ ∷ x) y = completed_append a x y
completed_append a (push_work _ ∷ x) y = completed_append a x y
completed_append a (push_result (piece_complete _) ∷ x) y = omega (arith, completed_append a x y)
completed_append a (push_result (peer_connected _) ∷ x) y = completed_append a x y
completed_append a (push_result (peer_dropped _) ∷ x) y = completed_append a x y
