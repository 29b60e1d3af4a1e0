-- ===== src/Monitor/Peers.antt =====
-- Which peers the monitor of src/peer.cpp counts.
use picotor.Base.{
  ℕ, ◌+◌, ◌≡◌, refl, Bool, true, false, List, [], ◌∷◌, arith, ltb, if◌then◌else◌, Bool-cases, inl,
  inr,
}
use picotor.Common.Address.{Address, equals}
use picotor.Result.{Result, piece_complete, peer_connected, peer_dropped, TorrentContext}
use picotor.Monitor.{
  Monitor, new_monitor, complete, has_address, erase_address, report_progress, on_piece_complete,
  on_peer_connected, on_peer_dropped, visit, monitor_loop, monitor_thread,
}

-- How often the monitor has the address.
abbrev pub times : Address → List Address → ℕ
times a [] = 0
times a (x ∷ xs) = (if equals x a then 1 else 0) + times a xs

-- What one result tells of the address, where `before` was known.
abbrev told : Address → Bool → Result → Bool
told a before (piece_complete c) = before
told a before (peer_connected x) = if equals x a then true else before
told a before (peer_dropped x) = if equals x a then false else before

-- The last result that names the address says that it is connected; `before`, where no result names it.
abbrev pub is_connected : Address → Bool → List (ℕ × Result) → Bool
is_connected a before [] = before
is_connected a before ((clock, r) ∷ rs) = is_connected a (told a before r) rs

has_address-times : (a : Address) (xs : List Address) → has_address a xs ≡ ltb 0 (times a xs)
unfolding has_address
has_address-times a [] = refl
has_address-times a (x ∷ xs) = ground (arith, has_address-times a xs)

times-equal : (a b : Address) (xs : List Address) → equals b a ≡ true → times b xs ≡ times a xs
times-equal a b [] e = refl
times-equal a b (x ∷ xs) e = ground (arith, times-equal a b xs e)

times-erase_address :
    (a b : Address) (xs : List Address)
    → times a (erase_address b xs) ≡ (if equals b a then 0 else times a xs)
unfolding erase_address
times-erase_address a b [] = ground arith
times-erase_address a b (x ∷ xs) = ground (arith, times-erase_address a b xs)

times-visit :
    (a : Address) (clock : ℕ) (before : Bool) (r : Result) (m : Monitor)
    → times a m.peers ≡ (if before then 1 else 0)
    → times a (visit clock r m).peers ≡ (if told a before r then 1 else 0)
unfolding visit on_piece_complete on_peer_connected on_peer_dropped report_progress
times-visit a clock before (piece_complete c) m e = ground (arith, e)
times-visit a clock before (peer_connected x) m e = elim (Bool-cases (equals x a)) [
  | inl same ↦ ground (arith, same, e, times-equal a x m.peers same, has_address-times x m.peers)
  | inr other ↦ ground (arith, other, e)
]
times-visit a clock before (peer_dropped x) m e = ground (arith, e, times-erase_address a x m.peers)

monitor_loop-peers :
    (a : Address) (before : Bool) (rs : List (ℕ × Result)) (m : Monitor)
    → times a m.peers ≡ (if before then 1 else 0)
    → complete (monitor_loop rs m) ≡ false
    → times a (monitor_loop rs m).peers ≡ (if is_connected a before rs then 1 else 0)
unfolding monitor_loop
monitor_loop-peers a before [] m e more = e
monitor_loop-peers a before ((clock, r) ∷ rs) m e more = elim (Bool-cases (complete m)) [
  | inl done ↦ ground (arith, done, rw (done, monitor_loop) at more)
  | inr waits ↦
      rw (waits, monitor_loop)
        (monitor_loop-peers a (told a before r) rs (visit clock r m)
          (times-visit a clock before r m e) (rw (waits, monitor_loop) at more))
]

-- As long as the monitor waits for pieces, it has the address of a peer once if the last result that
-- names the address says that the peer is connected, and not at all if that says that it was dropped or
-- no result names it.
pub monitor_thread-peers :
    (ctx : TorrentContext) (clock : ℕ) (rs : List (ℕ × Result)) (a : Address)
    → complete (monitor_thread ctx clock rs) ≡ false
    → times a (monitor_thread ctx clock rs).peers ≡ (if is_connected a false rs then 1 else 0)
unfolding monitor_thread new_monitor
monitor_thread-peers ctx clock rs a more =
    monitor_loop-peers a false rs (new_monitor ctx clock) refl more
