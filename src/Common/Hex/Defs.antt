-- ===== src/Common/Hex/Defs.antt =====
-- The functions of src/common.cpp that write and read hexadecimal digits.
use picotor.Base.{
  ℕ, ◌+◌, ◌-◌, ◌*◌, ◌/◌, ◌%◌, ◌≡◌, refl, Bool, true, false, ◌&&◌, ◌||◌, [], ◌∷◌, ◌++◌, Option, none,
  some, Bytes, codes, ltb, leb, ◌==◌, if◌then◌else◌,
}

-- An `unsigned char` digit: `hex <= 9 ? '0' : 'a' - 10` is added, modulo 256.
abbrev pub hex_letter : ℕ → ℕ
hex_letter d = (d + (if leb d 9 then b'0' else b'a' - 10)) % 256

unfoldable pub hexchar : ℕ → ℕ × ℕ
hexchar c = (hex_letter (c / 16), hex_letter (c % 16))

-- The value of a hexadecimal digit, in either case.
unfoldable pub hex_value : ℕ → Option ℕ
hex_value c =
    if leb b'0' c && leb c b'9'
    then some (c - b'0')
    else if leb b'a' c && leb c b'f'
    then some (c - b'a' + 10)
    else if leb b'A' c && leb c b'F'
    then some (c - b'A' + 10)
    else none

-- `isspace` in the C locale.
unfoldable pub is_space : ℕ → Bool
is_space c = c == b' ' || (leb 9 c && leb c 13)

skip_spaces : Bytes → Bytes
skip_spaces [] = []
skip_spaces (c ∷ s) =
    let stay = c ∷ s in let next = skip_spaces s in if is_space c then next else stay

skip_sign : Bytes → Bool × Bytes
skip_sign [] = (false, [])
skip_sign (c ∷ s) =
    if c == b'-' then (true, s) else if c == b'+' then (false, s) else (false, c ∷ s)

-- `0x` counts as a prefix only in front of a digit.
skip_prefix : Bytes → Bytes
skip_prefix (z ∷ x ∷ d ∷ s) =
    if z == b'0' && (x == b'x' || x == b'X')
    then elim (hex_value d) [ none ↦ z ∷ x ∷ d ∷ s | some _ ↦ d ∷ s ]
    else z ∷ x ∷ d ∷ s
skip_prefix s = s

read_hex : ℕ → Bytes → ℕ
read_hex acc [] = acc
read_hex acc (c ∷ s) = elim (hex_value c) [ none ↦ acc | some d ↦ read_hex (acc * 16 + d) s ]

-- `(char) strtol(s, nullptr, 16)`, for texts whose value fits into a `long`.
unfoldable pub strtol_char : Bytes → ℕ
unfolding skip_spaces skip_sign skip_prefix read_hex
strtol_char s =
    let (negative, body) = skip_sign (skip_spaces s) in
    let value = read_hex 0 (skip_prefix body) in
    if negative then (256 - value % 256) % 256 else value % 256

-- One round for each step of `i += 2`; `hex.substr(i, 2)` is shorter at an odd end.
unfoldable pub hex_to_bytes : Bytes → Bytes
hex_to_bytes [] = []
hex_to_bytes (a ∷ []) = strtol_char (a ∷ []) ∷ []
hex_to_bytes (a ∷ b ∷ hex) = strtol_char (a ∷ b ∷ []) ∷ hex_to_bytes hex

abbrev pub hex_digit : ℕ → ℕ
hex_digit d = if leb d 9 then b'0' + d else b'a' + (d - 10)

-- `std::hex` prints a number below 256 by one or two digits, and `setw(2)` pads with `0`.
abbrev pub print_byte : ℕ → Bytes
print_byte i =
    if ltb i 16 then b'0' ∷ hex_digit i ∷ [] else hex_digit (i / 16) ∷ hex_digit (i % 16) ∷ []

unfoldable pub as_hex : Bytes → Bytes
as_hex [] = []
as_hex (i ∷ bytes) = print_byte i ++ as_hex bytes

hexchar_test : hexchar 0xaf ≡ (b'a', b'f')
unfolding hexchar
hexchar_test = refl

hex_to_bytes_test : hex_to_bytes (codes "00fFg1 -1+7x") ≡ 0 ∷ 255 ∷ 0 ∷ 0 ∷ 1 ∷ 7 ∷ []
unfolding hex_to_bytes strtol_char is_space hex_value
hex_to_bytes_test = refl

-- A sign and white space are read as C reads them.
strtol_char_test : (strtol_char (codes "-1") ≡ 255) × (strtol_char (codes " 7") ≡ 7)
unfolding strtol_char is_space hex_value
strtol_char_test = (refl, refl)

as_hex_test : as_hex (0 ∷ 10 ∷ 255 ∷ []) ≡ codes "000aff"
unfolding as_hex
as_hex_test = refl
