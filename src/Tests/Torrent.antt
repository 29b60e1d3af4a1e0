-- ===== src/Tests/Torrent.antt =====
-- include/torrent.hpp and src/torrent.cpp at concrete inputs.
use picotor.Base.{
  ℕ, ◌+◌, ◌≡◌, refl, ◌⊎◌, Option, none, some, List, [], ◌∷◌, ◌++◌, arith, Bytes, codes, take, drop,
  replicate, if◌then◌else◌, ◌==◌, ok,
}
use picotor.Common.Address.{Address}
use picotor.Common.Hash.{Hash, hash_size, same_bytes}
use picotor.Common.Hash
use picotor.Torrent.Bencode.{
  Bencode, ℤ, pos, View, decode_dict, get_dict, get_string, get_u32, to_u32,
}
use picotor.Common.Hex
use picotor.Torrent.Metainfo
use picotor.Torrent.Metainfo.{SingleFileTorrent, udp, http, ensure_http, read_hashes, parse}
use picotor.Torrent.Metainfo.Announce.{LacksUdp, LacksUdpBefore, ensure_http_cases}
use picotor.Torrent.Metainfo.Hashes.{joined_hashes, read_hashes-joined}
use picotor.Torrent.Tracker.{read_peers}
use picotor.Torrent.Tracker.Peers.{compact_list, read_peers-compact_list}

abbrev bad_scheme : Bytes
bad_scheme = codes "http://udp.example"

ensure_http_cases_example :
    (LacksUdp bad_scheme × (ensure_http bad_scheme ≡ bad_scheme))
    ⊎ ((i : ℕ) × (bad_scheme ≡ take i bad_scheme ++ (udp ++ drop (i + 3) bad_scheme))
        × LacksUdpBefore i bad_scheme
        × (ensure_http bad_scheme ≡ take i bad_scheme ++ (http ++ drop (i + 3) bad_scheme)))
ensure_http_cases_example = ensure_http_cases bad_scheme

abbrev two_hashes : List Hash
two_hashes = record { bytes = replicate 20 1 } ∷ record { bytes = replicate 20 2 } ∷ []

read_hashes-joined_example :
    read_hashes (record { chars = joined_hashes two_hashes; behind = codes "e" }) ≡ ok two_hashes
read_hashes-joined_example = read_hashes-joined two_hashes (codes "e") (ground arith)

-- A library that knows one file: its values are numbered.
abbrev toy_find : ℕ → Bytes → Option ℕ
toy_find d key =
    if same_bytes key (codes "announce")
    then some 1
    else if same_bytes key (codes "name")
    then some 1
    else if same_bytes key (codes "length")
    then some 3
    else if same_bytes key (codes "piece length")
    then some 3
    else if same_bytes key (codes "pieces")
    then some 5
    else some 2

abbrev toy_string : ℕ → Option View
toy_string v =
    if v == 1
    then some (record { chars = codes "udp://x"; behind = [] })
    else if v == 5
    then some (record { chars = replicate 20 9; behind = [] })
    else none

abbrev toy_integer : ℕ → Option ℤ
toy_integer v = if v == 3 then some (pos 12) else none

abbrev toy_bencode : Bencode ℕ ℕ
toy_bencode = record {
  decode_view = λ s. some 0;
  dict_view = λ v. some v;
  string_view = toy_string;
  integer_view = toy_integer;
  find = toy_find;
  encode = λ d. codes "d1:ae";
}

abbrev toy_sha1 : Bytes → Bytes
toy_sha1 s = replicate 40 b'0'

abbrev toy_torrent : SingleFileTorrent
toy_torrent = record {
  announce = codes "http://x";
  filename = codes "udp://x";
  piece_length = 12;
  file_length = 12;
  piece_hashes = record { bytes = replicate 20 9 } ∷ [];
  info_hash = record { bytes = replicate 20 0 };
}

toy-parse : parse toy_bencode toy_sha1 (codes "d8:announce") ≡ ok toy_torrent
unfolding parse decode_dict get_dict get_string get_u32 to_u32 read_hashes Metainfo.hash_loop
    ensure_http Metainfo.find_udp Hash.from_pointer Hash.of Hash.from_vector Hex.hex_to_bytes
    Hex.hex_value Hex.strtol_char Hex.is_space
toy-parse = refl

abbrev two_peers : List Address
two_peers = record { raw = 0x7f000001; port = 6881 } ∷ record { raw = 0x0a000001; port = 80 } ∷ []

read_peers-compact_list_example :
    read_peers (record { chars = compact_list two_peers; behind = codes "e" }) ≡ ok two_peers
read_peers-compact_list_example = read_peers-compact_list two_peers (codes "e") (ground arith)
