-- ===== src/Common/Address/Print.antt =====
-- Addresses as they arrive from the tracker, and as they are printed.
use picotor.Base.{
  ℕ, zero, suc, ◌+◌, ◌*◌, ◌/◌, ◌%◌, ◌^◌, ◌<◌, ◌≡◌, refl, ap, ◌∙◌, List, [], ◌∷◌, ◌++◌, append_assoc,
  append-nil, arith, Bytes, drop, ok,
}
use picotor.Common.Words.{load32, load16, swap32, swap16, u32_mod, u16_mod, big_endian}
use picotor.Common.Decimal.{to_decimal, read_digits, read_digits-to_decimal, IsEnd}
use picotor.Common.Address.{Address, from_pointer, octet, ip, port_str, to_string}

-- The compact form of a peer: four bytes of address and two of port, in network order.
abbrev pub compact : Address → Bytes
compact a = big_endian a.raw ++ (a.port / 2 ^ 8 % 256) ∷ (a.port % 256) ∷ []

-- The constructor reads the compact form back, whatever follows it in memory.
pub from_pointer-compact :
    (a : Address) (rest : Bytes)
    → a.raw < u32_mod
    → a.port < u16_mod
    → from_pointer (compact a ++ rest) ≡ ok a
unfolding from_pointer load32 load16 swap32 swap16
from_pointer-compact a rest h k = ground arith

-- A reader of the printed form: five numbers, each with one character behind it.
read_numbers : ℕ → Bytes → List ℕ
read_numbers zero s = []
read_numbers (suc n) s = let (v, rest) = read_digits 0 s in v ∷ read_numbers n (drop 1 rest)

address_of : List ℕ → Address
address_of (a ∷ b ∷ c ∷ d ∷ p ∷ []) = record { raw = ((a * 256 + b) * 256 + c) * 256 + d; port = p }
address_of _ = record { raw = 0; port = 0 }

pub read_address : Bytes → Address
unfolding read_numbers address_of
read_address s = address_of (read_numbers 5 s)

read_numbers-zero : (s : Bytes) → read_numbers 0 s ≡ []
unfolding read_numbers
read_numbers-zero s = refl

read_numbers-step :
    (n v : ℕ) (s : Bytes)
    → v < 2 ^ 64
    → IsEnd s
    → read_numbers (suc n) (to_decimal v ++ s) ≡ v ∷ read_numbers n (drop 1 s)
unfolding read_numbers
read_numbers-step n v s h e = rw (read_digits-to_decimal v s h e)

abbrev joined : ℕ → ℕ → ℕ → ℕ → ℕ → Bytes
joined a b c d p =
    to_decimal a
    ++ b'.'
      ∷ (to_decimal b
          ++ b'.' ∷ (to_decimal c ++ b'.' ∷ (to_decimal d ++ b':' ∷ (to_decimal p ++ []))))

read_numbers-joined :
    (a b c d p : ℕ)
    → (a < 2 ^ 64) × (b < 2 ^ 64) × (c < 2 ^ 64) × (d < 2 ^ 64) × (p < 2 ^ 64)
    → read_numbers 5 (joined a b c d p) ≡ a ∷ b ∷ c ∷ d ∷ p ∷ []
read_numbers-joined a b c d p (ha, hb, hc, hd, hp) =
    let s5 = to_decimal p ++ [] in
    let s4 = to_decimal d ++ b':' ∷ s5 in
    let s3 = to_decimal c ++ b'.' ∷ s4 in
    let s2 = to_decimal b ++ b'.' ∷ s3 in
    read_numbers-step 4 a (b'.' ∷ s2) ha refl
    ∙ ap (◌∷◌ a) (
        read_numbers-step 3 b (b'.' ∷ s3) hb refl
        ∙ ap (◌∷◌ b) (
            read_numbers-step 2 c (b'.' ∷ s4) hc refl
            ∙ ap (◌∷◌ c) (
                read_numbers-step 1 d (b':' ∷ s5) hd refl
                ∙ ap (◌∷◌ d) (read_numbers-step 0 p [] hp tt ∙ ap (◌∷◌ p) (read_numbers-zero [])))))

to_string-joined :
    (a : Address)
    → to_string a ≡ joined (octet a.raw 24) (octet a.raw 16) (octet a.raw 8) (octet a.raw 0) a.port
unfolding to_string ip port_str
to_string-joined a = simp (append_assoc, append-nil)

address_of-octets :
    (a : Address)
    → a.raw < u32_mod
    → address_of (octet a.raw 24 ∷ octet a.raw 16 ∷ octet a.raw 8 ∷ octet a.raw 0 ∷ a.port ∷ []) ≡ a
unfolding address_of
address_of-octets a h = ground arith

-- No two addresses print alike: the print can be read back.
pub read_address-to_string :
    (a : Address) → a.raw < u32_mod → a.port < u16_mod → read_address (to_string a) ≡ a
unfolding read_address
read_address-to_string a h k =
    ap (λ s. address_of (read_numbers 5 s)) (to_string-joined a)
    ∙ ap address_of (read_numbers-joined _ _ _ _ _ (omega arith))
    ∙ address_of-octets a h
