-- ===== src/Common/Words.antt =====
-- `push_bytes` of include/common.hpp, and the byte order of the host: words are stored with the
-- lowest byte first, and `htonl` and `ntohl` reverse the four bytes of a word.
use picotor.Base.{
  ℕ, ◌+◌, ◌*◌, ◌/◌, ◌%◌, ◌^◌, ◌<◌, ◌≡◌, [], ◌∷◌, ◌++◌, append_assoc, arith, Bytes, All, IsByte,
}

abbrev pub u16_mod : ℕ
u16_mod = 2 ^ 16

abbrev pub u32_mod : ℕ
u32_mod = 2 ^ 32

abbrev pub u64_mod : ℕ
u64_mod = 2 ^ 64

-- The four bytes of a word in the host's memory.
unfoldable pub word_bytes : ℕ → Bytes
word_bytes x = (x % 256) ∷ (x / 2 ^ 8 % 256) ∷ (x / 2 ^ 16 % 256) ∷ (x / 2 ^ 24 % 256) ∷ []

unfoldable pub push_bytes : Bytes → ℕ → Bytes
push_bytes vec word =
    (((vec ++ (word % 256) ∷ []) ++ (word / 2 ^ 8 % 256) ∷ []) ++ (word / 2 ^ 16 % 256) ∷ [])
    ++ (word / 2 ^ 24 % 256) ∷ []

-- The word that stands at the front of the given bytes: `*reinterpret_cast<const uint32_t*>(p)`.
-- What lies past the end of the list is not read by any caller of the model.
unfoldable pub load32 : Bytes → ℕ
load32 (a ∷ b ∷ c ∷ d ∷ rest) = a + b * 2 ^ 8 + c * 2 ^ 16 + d * 2 ^ 24
load32 _ = 0

unfoldable pub load16 : Bytes → ℕ
load16 (a ∷ b ∷ rest) = a + b * 2 ^ 8
load16 _ = 0

-- `htonl` and `ntohl` are one function, and so are `htons` and `ntohs`.
unfoldable pub swap32 : ℕ → ℕ
swap32 x = x % 256 * 2 ^ 24 + x / 2 ^ 8 % 256 * 2 ^ 16 + x / 2 ^ 16 % 256 * 2 ^ 8 + x / 2 ^ 24 % 256

unfoldable pub swap16 : ℕ → ℕ
swap16 x = x % 256 * 2 ^ 8 + x / 2 ^ 8 % 256

-- A word in network order, highest byte first.
abbrev pub big_endian : ℕ → Bytes
big_endian x = (x / 2 ^ 24 % 256) ∷ (x / 2 ^ 16 % 256) ∷ (x / 2 ^ 8 % 256) ∷ (x % 256) ∷ []

pub push_bytes-append : (vec : Bytes) (x : ℕ) → push_bytes vec x ≡ vec ++ word_bytes x
unfolding push_bytes word_bytes
push_bytes-append vec x = simp append_assoc

pub word_bytes-swap32 : (x : ℕ) → word_bytes (swap32 x) ≡ big_endian x
unfolding word_bytes swap32
word_bytes-swap32 x = ground arith

pub swap32-lt : (x : ℕ) → swap32 x < u32_mod
unfolding swap32
swap32-lt x = omega arith

pub swap32-load32 :
    (x : ℕ) (rest : Bytes) → x < u32_mod → swap32 (load32 (big_endian x ++ rest)) ≡ x
unfolding swap32 load32
swap32-load32 x rest h = omega arith

pub big_endian-IsByte : (x : ℕ) → All IsByte (big_endian x)
big_endian-IsByte x = omega arith
