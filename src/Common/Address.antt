-- ===== src/Common/Address.antt =====
-- `cmn::Address` of include/common.hpp and src/common.cpp: an IPv4 address and a port in host order.
pub mod Print
use picotor.Base.{
  ℕ, ◌+◌, ◌*◌, ◌/◌, ◌%◌, ◌^◌, ◌<◌, ◌≡◌, refl, Bool, true, false, List, [], ◌∷◌, ◌++◌, ◌&&◌, arith,
  Bytes, codes, ltb, ◌==◌, if◌then◌else◌, length, drop, Outcome, ok, fault, out_of_bounds,
}
use picotor.Common.Words.{load32, load16, swap32, swap16, u64_mod}
use picotor.Common.Decimal.{to_decimal}

pub record Address : Type 0 where
  pub raw : ℕ
  pub port : ℕ

-- Six bytes are read from the pointer.
unfoldable pub from_pointer : Bytes → Outcome Address
from_pointer memory =
    if ltb (length memory) 6
    then fault out_of_bounds
    else ok (record { raw = swap32 (load32 memory); port = swap16 (load16 (drop 4 memory)) })

-- `raw >> k & 0xff`
abbrev pub octet : ℕ → ℕ → ℕ
octet raw k = raw / 2 ^ k % 256

unfoldable pub ip : Address → Bytes
ip a =
    to_decimal (octet a.raw 24)
    ++ b'.'
      ∷ (to_decimal (octet a.raw 16)
          ++ b'.' ∷ (to_decimal (octet a.raw 8) ++ b'.' ∷ to_decimal (octet a.raw 0)))

unfoldable pub port_str : Address → Bytes
port_str a = to_decimal a.port

unfoldable pub to_string : Address → Bytes
to_string a = ip a ++ b':' ∷ port_str a

-- `operator==`, field by field.
abbrev pub equals : Address → Address → Bool
equals a b = a.raw == b.raw && a.port == b.port

-- `std::hash<Address>`, over the library's hash of a 64-bit number.
unfoldable pub hash : (ℕ → ℕ) → Address → ℕ
hash hash_u64 k = hash_u64 ((k.raw + k.port) % u64_mod)
