-- ===== src/Torrent/Tracker.antt =====
-- `TrackerResponse` of include/torrent.hpp and src/torrent.cpp.
pub mod Peers
use picotor.Base.{
  ℕ, zero, suc, ◌+◌, ◌<◌, ◌≡◌, List, [], ◌∷◌, ◌++◌, Bytes, codes, length, drop, Outcome, ok, fault,
  out_of_fuel, ◌>>=◌,
}
use picotor.Common.Address.{Address}
use picotor.Common.Address
use picotor.Torrent.Bencode.{Bencode, View, decode_dict, get_string, get_u32}

pub record TrackerResponse : Type 0 where
  pub interval : ℕ
  pub peers : List Address

-- `for (i = 0; i < peers.length(); i += 6)`: an address is read from the pointer at `i`. The text is
-- what lies from `i` on.
unfoldable pub peer_loop : ℕ → Bytes → Bytes → List Address → Outcome (List Address)
peer_loop zero chars behind peers = fault out_of_fuel
peer_loop (suc f) [] behind peers = ok peers
peer_loop (suc f) (c ∷ chars) behind peers = do
  address ← Address.from_pointer ((c ∷ chars) ++ behind)
  peer_loop f (drop 6 (c ∷ chars)) behind (peers ++ address ∷ [])

unfoldable pub read_peers : View → Outcome (List Address)
read_peers v = peer_loop (length v.chars + 1) v.chars v.behind []

unfoldable pub parse : {Value Dict : Type 0} → Bencode Value Dict → Bytes → Outcome TrackerResponse
parse b text = do
  dict ← decode_dict b text
  interval ← get_u32 b dict (codes "interval")
  peers ← get_string b dict (codes "peers")
  addresses ← read_peers peers
  ok (record { interval = interval; peers = addresses })
