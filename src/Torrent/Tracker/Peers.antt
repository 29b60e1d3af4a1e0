-- ===== src/Torrent/Tracker/Peers.antt =====
-- The peers that a tracker lists.
use picotor.Base.{
  ℕ, zero, suc, ◌<◌, ◌≡◌, refl, sym, ap, ◌∙◌, List, [], ◌∷◌, ◌++◌, append_assoc, append-nil, arith,
  Bytes, All, length, ok,
}
use picotor.Common.Words.{u32_mod, u16_mod}
use picotor.Common.Address.{Address}
use picotor.Common.Address.Print.{compact, from_pointer-compact}
use picotor.Torrent.Tracker.{peer_loop, read_peers}

abbrev pub IsAddress : Address → Type 0
IsAddress a = (a.raw < u32_mod) × (a.port < u16_mod)

abbrev pub compact_list : List Address → Bytes
compact_list [] = []
compact_list (a ∷ addresses) = compact a ++ compact_list addresses

peer_loop-compact :
    (f : ℕ) (a : Address) (chars behind : Bytes) (peers : List Address)
    → IsAddress a
    → peer_loop (suc f) (compact a ++ chars) behind peers
      ≡ peer_loop f chars behind (peers ++ a ∷ [])
unfolding peer_loop
peer_loop-compact f a chars behind peers h = rw (from_pointer-compact a (chars ++ behind) h.0 h.1)

peer_loop-nil :
    (f : ℕ) (behind : Bytes) (peers : List Address) → peer_loop (suc f) [] behind peers ≡ ok peers
unfolding peer_loop
peer_loop-nil f behind peers = refl

peer_loop-compact_list :
    (f : ℕ) (addresses : List Address) (behind : Bytes) (peers : List Address)
    → All IsAddress addresses
    → length (compact_list addresses) < f
    → peer_loop f (compact_list addresses) behind peers ≡ ok (peers ++ addresses)
peer_loop-compact_list zero addresses behind peers h fuel = absurd (omega arith)
peer_loop-compact_list (suc f) [] behind peers h fuel =
    peer_loop-nil f behind peers ∙ ap ok (sym (append-nil peers))
peer_loop-compact_list (suc f) (a ∷ addresses) behind peers h fuel =
    peer_loop-compact f a (compact_list addresses) behind peers h.0
    ∙ peer_loop-compact_list f addresses behind (peers ++ a ∷ []) h.1 (omega arith)
    ∙ ap ok (append_assoc peers _ _)

-- A compact list of peers is read back in order; the rounds of the model suffice, and nothing behind
-- the list is read.
pub read_peers-compact_list :
    (addresses : List Address) (behind : Bytes)
    → All IsAddress addresses
    → read_peers (record { chars = compact_list addresses; behind = behind }) ≡ ok addresses
unfolding read_peers
read_peers-compact_list addresses behind h =
    peer_loop-compact_list _ addresses behind [] h (omega arith)
