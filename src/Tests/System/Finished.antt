-- ===== src/Tests/System/Finished.antt =====
-- A download of src/main.cpp and src/peer.cpp that goes to its end.
use picotor.Base.{ℕ, zero, suc, ◌<◌, ◌≡◌, refl, true, [], arith, codes, replicate, ok}
use picotor.Common.Hash.{Hash}
use picotor.Common.Hash
use picotor.Common.Hex
use picotor.Torrent.Metainfo.{pieces, piece_hash}
use picotor.Monitor.{complete}
use picotor.Monitor.Integrity.{slice}
use picotor.Main.System.{System, Trace, system_of}
use picotor.Main.System.Orderly.{AreOrderly}
use picotor.Main.System.Download.{IsPublished}
use picotor.Main.System.Download.Started.{can_finish}
use picotor.Tests.Peer.{addr, toy_sha1, no_junk}
use picotor.Tests.System.{tor, start}

abbrev hash : Hash
hash = record { bytes = replicate 20 0 }

has_hash : (Hash.of toy_sha1 (codes "abcd") ≡ ok hash) × (piece_hash tor 0 ≡ ok hash)
unfolding Hash.of Hash.from_vector Hex.hex_to_bytes Hex.strtol_char Hex.hex_value Hex.is_space
    piece_hash
has_hash = (refl, refl)

hashed :
    (a : ℕ)
    → a < pieces tor
    → (h : Hash) × (Hash.of toy_sha1 (slice tor a (codes "abcd")) ≡ ok h)
      × (piece_hash tor a ≡ ok h)
unfolding pieces
hashed zero less = (hash, has_hash.0, has_hash.1)
hashed (suc a) less = absurd (omega (arith, less))

published : IsPublished toy_sha1 tor (codes "abcd")
published = record {
  fits = record { small = omega arith; positive = omega arith };
  size = refl;
  hashed = hashed;
}

can_finish_example :
    (t : System) × (r : Trace toy_sha1 start.context (system_of start) t) × AreOrderly r
    × (complete t.monitor ≡ true)
can_finish_example = can_finish toy_sha1 tor 0 60 addr [] (codes "abcd") no_junk published
