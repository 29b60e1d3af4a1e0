-- ===== src/Common/Hex/RoundTrip.antt =====
-- Hexadecimal print and parse undo each other.
use picotor.Base.{
  ℕ, zero, suc, ap, ◌+◌, ◌-◌, ◌*◌, ◌/◌, ◌%◌, ◌<◌, ◌≤◌, ◌≡◌, refl, false, [], ◌∷◌, ◌++◌, some, arith,
  Bytes, All, IsByte, ltb, ◌==◌, length, ap₂, ◌⊎◌, inl, inr, ◌∙◌, Bool-cases, ltb→lt,
}
use picotor.Common.Hex.Defs.{
  hexchar, hex_value, hex_to_bytes, as_hex, strtol_char, print_byte, hex_digit, is_space,
}

-- A lower-case hexadecimal digit.
abbrev pub IsHexDigit : ℕ → Type 0
IsHexDigit c = ((b'0' ≤ c) × (c ≤ b'9')) ⊎ ((b'a' ≤ c) × (c ≤ b'f'))

pub hex_value-hexchar :
    (c : ℕ)
    → c < 256
    → (hex_value (hexchar c).0 ≡ some (c / 16)) × (hex_value (hexchar c).1 ≡ some (c % 16))
unfolding hex_value hexchar
hex_value-hexchar c h = ground arith

hex_value-plain :
    (a x : ℕ)
    → hex_value a ≡ some x
    → (is_space a ≡ false) × ((a == b'-') ≡ false) × ((a == b'+') ≡ false) × (x < 16)
unfolding hex_value is_space
hex_value-plain a x h = ground arith

strtol_char-pair :
    (a b x y : ℕ)
    → hex_value a ≡ some x
    → hex_value b ≡ some y
    → strtol_char (a ∷ b ∷ []) ≡ x * 16 + y
unfolding strtol_char
strtol_char-pair a b x y ha hb =
    let (space, minus, plus, hx) = hex_value-plain a x ha in
    let (_, _, _, hy) = hex_value-plain b y hb in ground arith

hex_value-hex_digit : (d : ℕ) → d < 16 → hex_value (hex_digit d) ≡ some d
unfolding hex_value
hex_value-hex_digit d h = ground arith

strtol_char-print :
    (i : ℕ) (s : Bytes) → i < 256 → hex_to_bytes (print_byte i ++ s) ≡ i ∷ hex_to_bytes s
unfolding hex_to_bytes
strtol_char-print i s h = elim (Bool-cases (ltb i 16)) [
  | inl small ↦
      rw
        (
          small,
          strtol_char-pair _ _ 0 i (hex_value-hex_digit 0 (omega arith))
              (hex_value-hex_digit i (ltb→lt _ _ small)),
        )
        (ap (λ b. b ∷ hex_to_bytes s) (omega arith))
  | inr large ↦
      rw
        (
          large,
          strtol_char-pair _ _ (i / 16) (i % 16) (hex_value-hex_digit _ (omega arith))
              (hex_value-hex_digit _ (omega arith)),
        )
        (ap (λ b. b ∷ hex_to_bytes s) (omega arith))
]

-- Bytes that are printed and read again are the same bytes.
pub hex_to_bytes-as_hex : (bytes : Bytes) → All IsByte bytes → hex_to_bytes (as_hex bytes) ≡ bytes
unfolding hex_to_bytes as_hex
hex_to_bytes-as_hex [] h = refl
hex_to_bytes-as_hex (i ∷ bytes) h =
    strtol_char-print i (as_hex bytes) h.0 ∙ ap (◌∷◌ i) (hex_to_bytes-as_hex bytes h.1)

hex_value-IsHexDigit :
    (a : ℕ) → IsHexDigit a → (x : ℕ) × (hex_value a ≡ some x) × (x < 16) × (hex_digit x ≡ a)
unfolding hex_value
hex_value-IsHexDigit a (inl h) = (a - b'0', ground arith, omega arith, ground arith)
hex_value-IsHexDigit a (inr h) = (a - b'a' + 10, ground arith, omega arith, ground arith)

print_byte-pair :
    (x y : ℕ) → x < 16 → y < 16 → print_byte (x * 16 + y) ≡ hex_digit x ∷ hex_digit y ∷ []
print_byte-pair x y hx hy = ground arith

print_byte-strtol_char :
    (a b : ℕ) → IsHexDigit a → IsHexDigit b → print_byte (strtol_char (a ∷ b ∷ [])) ≡ a ∷ b ∷ []
print_byte-strtol_char a b ha hb =
    let (x, ex, hx, ax) = hex_value-IsHexDigit a ha in
    let (y, ey, hy, by) = hex_value-IsHexDigit b hb in
    ap print_byte (strtol_char-pair a b x y ex ey)
    ∙ print_byte-pair x y hx hy
    ∙ ap₂ (λ c d. c ∷ d ∷ []) ax by

-- A text of `2 * n` lower-case digits stands for `n` bytes, and is their print.
pub as_hex-hex_to_bytes :
    (n : ℕ) (hex : Bytes)
    → length hex ≡ 2 * n
    → All IsHexDigit hex
    → (length (hex_to_bytes hex) ≡ n) × (as_hex (hex_to_bytes hex) ≡ hex)
unfolding hex_to_bytes as_hex
as_hex-hex_to_bytes n [] len h = (omega arith, refl)
as_hex-hex_to_bytes n (a ∷ []) len h = absurd (omega arith)
as_hex-hex_to_bytes zero (a ∷ b ∷ hex) len h = absurd (omega arith)
as_hex-hex_to_bytes (suc n) (a ∷ b ∷ hex) len h =
    let (l, e) = as_hex-hex_to_bytes n hex (omega arith) h.1.1 in
    (omega arith, ap₂ ◌++◌ (print_byte-strtol_char a b h.0 h.1.0) e)
