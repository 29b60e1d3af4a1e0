-- ===== src/Torrent/Metainfo/Parse.antt =====
-- What a metainfo file that is accepted has.
use picotor.Base.{◌<◌, ◌≡◌, ◌≢◌, Bytes, codes, length, ok}
use picotor.Common.Words.{u32_mod}
use picotor.Common.Hash.{Hash, hash_size}
use picotor.Common.Hash
use picotor.Torrent.Bencode.{Bencode, View, decode_dict, get_dict, get_string, get_u32}
use picotor.Torrent.Metainfo.{SingleFileTorrent, ensure_http, read_hashes}

-- What the file says of a torrent: a piece length that is not 0, lengths of 32 bits, a hash of 20 bytes;
-- and which field of the file each member is from.
abbrev pub IsDescribed :
    {Value Dict : Type 0}
    → Bencode Value Dict
    → (Bytes → Bytes)
    → Bytes
    → SingleFileTorrent
    → Type 0
IsDescribed {Value} {Dict} b sha1 text t =
    (t.piece_length ≢ 0)
    × (t.piece_length < u32_mod)
    × (t.file_length < u32_mod)
    × (length t.info_hash.bytes ≡ hash_size)
    × ((dict : Dict) × (info : Dict) × (announce : View) × (name : View) × (hashes : View)
        × (decode_dict b text ≡ ok dict)
        × (get_string b dict (codes "announce") ≡ ok announce)
        × (t.announce ≡ ensure_http announce.chars)
        × (get_dict b dict (codes "info") ≡ ok info)
        × (get_u32 b info (codes "piece length") ≡ ok t.piece_length)
        × (get_u32 b info (codes "length") ≡ ok t.file_length)
        × (get_string b info (codes "name") ≡ ok name)
        × (t.filename ≡ name.chars)
        × (get_string b info (codes "pieces") ≡ ok hashes)
        × (read_hashes hashes ≡ ok t.piece_hashes)
        × (Hash.of sha1 (b.encode info) ≡ ok t.info_hash))
