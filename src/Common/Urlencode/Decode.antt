-- ===== src/Common/Urlencode/Decode.antt =====
-- The text that `urlencode` writes can be read back, and is safe in a query string.
use picotor.Base.{
  ℕ, ◌+◌, ◌*◌, ◌<◌, ◌≡◌, refl, sym, ap, ◌∙◌, true, false, [], ◌∷◌, ◌++◌, none, some, arith,
  append_assoc, append-nil, Bytes, ◌==◌, if◌then◌else◌, All, All-append, IsByte, Bool-cases, inl,
  inr, ◌⊎◌,
}
use mathlib.Core.List.{flat_map}
use picotor.Common.Hex.{hexchar, hex_value, hex_value-hexchar}
use picotor.Common.Urlencode.{is_plain, encode_char, urlencode_loop, urlencode}

-- What a server reads: `+` is a space and `%` comes before two hexadecimal digits.
data Mode : Type 0 where
  text : Mode
  percent : Mode
  second : ℕ → Mode

abbrev nibble : ℕ → ℕ
nibble c = elim (hex_value c) [ none ↦ 0 | some d ↦ d ]

read_query : Mode → Bytes → Bytes
read_query _ [] = []
read_query text (c ∷ s) =
    let escape = read_query percent s in
    let space = b' ' ∷ read_query text s in
    let same = c ∷ read_query text s in
    if c == b'%' then escape else if c == b'+' then space else same
read_query percent (c ∷ s) = read_query (second (nibble c)) s
read_query (second d) (c ∷ s) = (d * 16 + nibble c) ∷ read_query text s

pub decode : Bytes → Bytes
unfolding read_query
decode s = read_query text s

pub urlencode-flat_map : (s v : Bytes) → urlencode_loop s v ≡ v ++ flat_map encode_char s
unfolding urlencode_loop flat_map
urlencode-flat_map [] v = sym (append-nil v)
urlencode-flat_map (c ∷ s) v = simp (urlencode-flat_map s, append_assoc)

is_plain-read : (c : ℕ) → is_plain c ≡ true → ((c == b'%') ≡ false) × ((c == b'+') ≡ false)
unfolding is_plain
is_plain-read c h = ground arith

read_query-encode_char :
    (c : ℕ) (s : Bytes) → c < 256 → read_query text (encode_char c ++ s) ≡ c ∷ read_query text s
unfolding read_query encode_char
read_query-encode_char c s h = elim (Bool-cases (is_plain c)) [
  | inl plain ↦ rw plain (ground (arith, is_plain-read c plain))
  | inr coded ↦ rw coded (ground (arith, hex_value-hexchar c h))
]

read_query-nil : read_query text [] ≡ []
unfolding read_query
read_query-nil = refl

read_query-flat_map : (s : Bytes) → All IsByte s → read_query text (flat_map encode_char s) ≡ s
unfolding flat_map
read_query-flat_map [] h = read_query-nil
read_query-flat_map (c ∷ s) h =
    read_query-encode_char c (flat_map encode_char s) h.0 ∙ ap (◌∷◌ c) (read_query-flat_map s h.1)

-- A server that decodes the query gets the bytes that were encoded.
pub decode-urlencode : (s : Bytes) → All IsByte s → decode (urlencode s) ≡ s
unfolding decode urlencode
decode-urlencode s h = ap (read_query text) (urlencode-flat_map s []) ∙ read_query-flat_map s h

-- The characters that may stand in a query without a meaning of their own.
abbrev pub IsQueryChar : ℕ → Type 0
IsQueryChar c = (is_plain c ≡ true) ⊎ ((c ≡ b'+') ⊎ (c ≡ b'%'))

hexchar-plain :
    (c : ℕ) → c < 256 → (is_plain (hexchar c).0 ≡ true) × (is_plain (hexchar c).1 ≡ true)
unfolding is_plain hexchar
hexchar-plain c h = ground arith

encode_char-IsQueryChar : (c : ℕ) → c < 256 → All IsQueryChar (encode_char c)
unfolding encode_char
encode_char-IsQueryChar c h = elim (Bool-cases (is_plain c)) [
  | inl plain ↦ rw plain (inl plain, tt)
  | inr coded ↦ rw coded (elim (Bool-cases (c == b' ')) [
    | inl space ↦ rw space (inr (inl refl), tt)
    | inr other ↦
        rw other (inr (inr refl), (inl (hexchar-plain c h).0, (inl (hexchar-plain c h).1, tt)))
  ])
]

flat_map-IsQueryChar : (s : Bytes) → All IsByte s → All IsQueryChar (flat_map encode_char s)
unfolding flat_map
flat_map-IsQueryChar [] h = tt
flat_map-IsQueryChar (c ∷ s) h =
    All-append IsQueryChar (encode_char c) (flat_map encode_char s) (encode_char-IsQueryChar c h.0)
      (flat_map-IsQueryChar s h.1)

-- The encoding of bytes has only characters that need no encoding, `+` and `%`: no `&`, `=`, `?` or
-- space is among them.
pub urlencode-IsQueryChar : (s : Bytes) → All IsByte s → All IsQueryChar (urlencode s)
unfolding urlencode
urlencode-IsQueryChar s h = rw urlencode-flat_map (flat_map-IsQueryChar s h)
