-- ===== src/Tests/Common.antt =====
-- include/common.hpp and src/common.cpp at concrete inputs.
use picotor.Base.{◌+◌, ◌*◌, ◌≡◌, refl, true, [], ◌∷◌, ◌++◌, arith, Bytes, length, replicate, ok}
use picotor.Common.Urlencode.{urlencode}
use picotor.Common.Urlencode.Decode.{decode, decode-urlencode}
use picotor.Common.Hash.{Hash, hash_size, of, to_hex}
use picotor.Common.Hash.Laws.{IsDigest, to_hex-of}
use picotor.Common.Address.{Address, from_pointer}
use picotor.Common.Address.Print.{compact, from_pointer-compact}
use picotor.Common.Files.{read_file, read_file-content}
use picotor.Common.Bitfield.{Bitfield, copy_from, get, size}
use picotor.Common.Bitfield.Lookup.{has_bit, get-copy_from}

abbrev raw_bytes : Bytes
raw_bytes = 0 ∷ 10 ∷ 171 ∷ 255 ∷ []

decode-urlencode_example : decode (urlencode raw_bytes) ≡ raw_bytes
decode-urlencode_example = decode-urlencode raw_bytes (omega arith)

abbrev constant_digest : Bytes → Bytes
constant_digest s = replicate 40 b'a'

constant_digest-IsDigest : IsDigest constant_digest
constant_digest-IsDigest = record { long = λ s. refl; hex = λ s. ground arith }

to_hex-of_example :
    (h : Hash) × (of constant_digest raw_bytes ≡ ok h)
    × (length h.bytes ≡ hash_size)
    × (to_hex h ≡ constant_digest raw_bytes)
to_hex-of_example = to_hex-of constant_digest raw_bytes constant_digest-IsDigest

abbrev local_host : Address
local_host = record { raw = 0x7f000001; port = 6881 }

from_pointer-compact_example : from_pointer (compact local_host ++ raw_bytes) ≡ ok local_host
from_pointer-compact_example = from_pointer-compact local_host raw_bytes (omega arith) (omega arith)

abbrev old_field : Bitfield
old_field = record { bits = true ∷ [] }

get-copy_from_example :
    (size (copy_from old_field raw_bytes) ≡ 8 * length raw_bytes)
    × (get (copy_from old_field raw_bytes) (2 * 8 + 7) ≡ has_bit raw_bytes 2 7)
get-copy_from_example = get-copy_from old_field raw_bytes 2 7 (omega arith) (omega arith)

abbrev first_hash : Hash
first_hash = record { bytes = raw_bytes }

abbrev second_hash : Hash
second_hash = record { bytes = 0 ∷ raw_bytes }

read_file-content_example : read_file (replicate 5000 7) ≡ ok (replicate 5000 7)
read_file-content_example = read_file-content (replicate 5000 7)
