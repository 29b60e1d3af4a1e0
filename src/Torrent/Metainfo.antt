-- ===== src/Torrent/Metainfo.antt =====
-- `SingleFileTorrent` of include/torrent.hpp and src/torrent.cpp.
pub mod Announce
pub mod Hashes
pub mod Parse
use picotor.Base.{
  ℕ, zero, suc, ◌+◌, ◌-◌, ◌*◌, ◌/◌, ◌%◌, ◌<◌, ◌≡◌, refl, Bool, true, false, ◌&&◌, List, [], ◌∷◌,
  ◌++◌, Option, none, some, arith, Bytes, codes, length, take, drop, get_elem?, if◌then◌else◌, ◌==◌,
  Outcome, ok, fault, out_of_bounds, out_of_fuel, divide_by_zero, guard, or_fault, ◌>>=◌, ◌>>◌, not,
}
use picotor.Common.Hash.{Hash, hash_size}
use picotor.Common.Hash
use picotor.Common.Files.{read_file}
use picotor.Torrent.Bencode.{Bencode, View, decode_dict, get_dict, get_string, get_u32}

pub record SingleFileTorrent : Type 0 where
  pub announce : Bytes
  pub filename : Bytes
  pub piece_length : ℕ
  pub file_length : ℕ
  pub piece_hashes : List Hash
  pub info_hash : Hash

abbrev pub udp : Bytes
udp = codes "udp"

abbrev pub http : Bytes
http = codes "http"

abbrev pub starts_with : Bytes → Bytes → Bool
starts_with [] s = true
starts_with (p ∷ ps) [] = false
starts_with (p ∷ ps) (c ∷ s) = p == c && starts_with ps s

-- `s.find("udp")`
unfoldable pub find_udp : Bytes → Option ℕ
find_udp [] = none
find_udp (c ∷ s) =
    if starts_with udp (c ∷ s)
    then some 0
    else elim (find_udp s) [ none ↦ none | some i ↦ some (suc i) ]

-- `announce_.replace(start_pos, 3, "http")`, where there is such a position.
unfoldable pub ensure_http : Bytes → Bytes
ensure_http announce = elim (find_udp announce) [
  | none ↦ announce
  | some start_pos ↦ take start_pos announce ++ (http ++ drop (start_pos + 3) announce)
]

-- The loop over the string of hashes: each is read from its pointer, 20 bytes at a time. There is a
-- round for each hash, and one that ends.
unfoldable pub hash_loop : ℕ → Bytes → Bytes → List Hash → Outcome (List Hash)
hash_loop zero chars behind hashes = fault out_of_fuel
hash_loop (suc f) [] behind hashes = ok hashes
hash_loop (suc f) (c ∷ chars) behind hashes = do
  hash ← Hash.from_pointer ((c ∷ chars) ++ behind)
  hash_loop f (drop hash_size (c ∷ chars)) behind (hashes ++ hash ∷ [])

unfoldable pub read_hashes : View → Outcome (List Hash)
read_hashes v = hash_loop (length v.chars + 1) v.chars v.behind []

module _ {Value Dict : Type 0} (b : Bencode Value Dict) (sha1 : Bytes → Bytes) where
  unfoldable pub parse : Bytes → Outcome SingleFileTorrent
  parse text = do
    dict ← decode_dict b text
    announce ← get_string b dict (codes "announce")
    info ← get_dict b dict (codes "info")
    piece_length ← get_u32 b info (codes "piece length")
    file_length ← get_u32 b info (codes "length")
    filename ← get_string b info (codes "name")
    -- `reserve(file_length_ / piece_length_ + 1)`
    guard (not (piece_length == 0)) divide_by_zero
    pieces ← get_string b info (codes "pieces")
    piece_hashes ← read_hashes pieces
    info_hash ← Hash.of sha1 (b.encode info)
    ok (record {
      announce = ensure_http announce.chars;
      filename = filename.chars;
      piece_length = piece_length;
      file_length = file_length;
      piece_hashes = piece_hashes;
      info_hash = info_hash;
    })

  -- The argument is what the file at the path holds.
  unfoldable pub from_file : Bytes → Outcome SingleFileTorrent
  from_file content = do text ← read_file content; parse text

-- `file_length_ / piece_length_`, the number of whole pieces; `parse` has made sure of the divisor.
unfoldable pub pieces : SingleFileTorrent → ℕ
pieces t = t.file_length / t.piece_length

-- `piece_hashes_[index]` has no check.
unfoldable pub piece_hash : SingleFileTorrent → ℕ → Outcome Hash
piece_hash t index = or_fault (get_elem? t.piece_hashes index) out_of_bounds
