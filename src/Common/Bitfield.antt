-- ===== src/Common/Bitfield.antt =====
-- `cmn::Bitfield` of include/common.hpp.
pub mod Lookup
use Prim.Native.Nat.{bit_and}
use picotor.Base.{
  ℕ, zero, suc, ◌+◌, ◌*◌, ◌/◌, ◌%◌, ◌<◌, ◌≡◌, refl, Bool, true, false, not, List, [], ◌∷◌, ◌++◌,
  Option, none, some, arith, Bytes, leb, ◌==◌, length, get_elem?, if◌then◌else◌,
}

pub record Bitfield : Type 0 where
  pub bits : List Bool

abbrev pub empty : Bitfield
empty = record { bits = [] }

-- `for (uint8_t i = 1 << 7; i > 0; i >>= 1) data_.push_back(c & i)`; eight rounds reach 0.
unfoldable pub push_bits : ℕ → ℕ → ℕ → List Bool → List Bool
push_bits zero c i bits = bits
push_bits (suc f) c i bits =
    let more = push_bits f c (i / 2) (bits ++ not (bit_and c i == 0) ∷ []) in
    if i == 0 then bits else more

unfoldable pub copy_bytes : Bytes → List Bool → List Bool
copy_bytes [] bits = bits
copy_bytes (c ∷ vec) bits = copy_bytes vec (push_bits 9 c 128 bits)

-- `data_.clear()` comes first, so nothing of the old field is left.
unfoldable pub copy_from : Bitfield → Bytes → Bitfield
unfolding copy_bytes
copy_from field vec = record field { bits = copy_bytes vec [] }

unfoldable pub get : Bitfield → ℕ → Bool
get field index =
    if leb (length field.bits) index
    then false
    else elim (get_elem? field.bits index) [ none ↦ false | some b ↦ b ]

abbrev pub size : Bitfield → ℕ
size field = length field.bits

copy_from_test :
    copy_from empty (0xa1 ∷ [])
    ≡ record { bits = true ∷ false ∷ true ∷ false ∷ false ∷ false ∷ false ∷ true ∷ [] }
unfolding copy_from push_bits
copy_from_test = refl
