-- ===== src/Common/Hash.antt =====
-- `cmn::Hash` of include/common.hpp. SHA-1 is a vendored library: `sha1` stands for
-- `SHA1::from_string`, which returns the digest as a text of hexadecimal digits.
pub mod Laws
use picotor.Base.{
  ℕ, ◌+◌, ◌*◌, ◌<◌, ◌≡◌, refl, Bool, true, false, List, [], ◌∷◌, ◌++◌, Option, none, some, arith,
  Bytes, codes, ltb, leb, ◌==◌, if◌then◌else◌, length, take, replicate, Outcome, ok, fault, Fault,
  failed_assert, out_of_bounds, guard, ◌>>=◌, ◌>>◌, ◌&&◌,
}
use picotor.Common.Hex.{hex_to_bytes, as_hex}

abbrev pub hash_size : ℕ
hash_size = 20

pub record Hash : Type 0 where
  pub bytes : Bytes

abbrev pub default : Hash
default = record { bytes = replicate hash_size 0 }

-- The constructors from a vector, and the one from a string: the size is asserted.
unfoldable pub from_vector : Bytes → Outcome Hash
from_vector vec = do guard (length vec == hash_size) failed_assert; ok (record { bytes = vec })

-- The constructor from a pointer: `memory` is what can be read from there on.
unfoldable pub from_pointer : Bytes → Outcome Hash
from_pointer memory =
    if ltb (length memory) hash_size
    then fault out_of_bounds
    else ok (record { bytes = take hash_size memory })

unfoldable pub of : (Bytes → Bytes) → Bytes → Outcome Hash
of sha1 str = from_vector (hex_to_bytes (sha1 str))

unfoldable pub to_hex : Hash → Bytes
to_hex hash = as_hex hash.bytes

abbrev pub same_bytes : Bytes → Bytes → Bool
same_bytes [] [] = true
same_bytes [] (y ∷ ys) = false
same_bytes (x ∷ xs) [] = false
same_bytes (x ∷ xs) (y ∷ ys) = x == y && same_bytes xs ys

unfoldable pub equals : Hash → Hash → Bool
equals a b = same_bytes a.bytes b.bytes
