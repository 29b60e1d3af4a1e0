-- ===== src/Common/Bitfield/Lookup.antt =====
-- What a bitfield says of a piece.
use Prim.Native.Nat.{bit_and}
use mathlib.Core.List.{flat_map}
use picotor.Base.{
  ℕ, zero, suc, ◌+◌, ◌-◌, ◌*◌, ◌/◌, ◌%◌, ◌^◌, ◌<◌, ◌≡◌, refl, ap, sym, ◌∙◌, Bool, true, false,
  if◌then◌else◌, not, List, [], ◌∷◌, ◌++◌, Option, none, some, arith, Bytes, All, IsByte, leb, ◌==◌,
  length, append_assoc, append-nil, get_elem?, Bool-cases, inl, inr, leb→le, get_elem?-none,
}
use picotor.Common.Bitfield.{Bitfield, push_bits, copy_bytes, copy_from, get, size}

-- Bit `k` of a byte, the highest first.
abbrev pub bit : ℕ → ℕ → Bool
bit c k = c / 2 ^ (7 - k) % 2 == 1

byte_bits : ℕ → List Bool
byte_bits c = bit c 0 ∷ bit c 1 ∷ bit c 2 ∷ bit c 3 ∷ bit c 4 ∷ bit c 5 ∷ bit c 6 ∷ bit c 7 ∷ []

same_bits : List Bool → List Bool → Bool
same_bits [] [] = true
same_bits (true ∷ xs) (true ∷ ys) = same_bits xs ys
same_bits (false ∷ xs) (false ∷ ys) = same_bits xs ys
same_bits _ _ = false

same_bits→eq : (xs ys : List Bool) → same_bits xs ys ≡ true → xs ≡ ys
unfolding same_bits
same_bits→eq [] [] h = refl
same_bits→eq [] (y ∷ ys) h = cc
same_bits→eq (true ∷ xs) [] h = cc
same_bits→eq (false ∷ xs) [] h = cc
same_bits→eq (true ∷ xs) (true ∷ ys) h = ap (◌∷◌ true) (same_bits→eq xs ys h)
same_bits→eq (true ∷ xs) (false ∷ ys) h = cc
same_bits→eq (false ∷ xs) (true ∷ ys) h = cc
same_bits→eq (false ∷ xs) (false ∷ ys) h = ap (◌∷◌ false) (same_bits→eq xs ys h)

-- The eight rounds are right for the byte `c`.
is_right : ℕ → Bool
is_right c = same_bits (push_bits 9 c 128 []) (byte_bits c)

are_right : ℕ → Bool
are_right zero = true
are_right (suc c) = if is_right c then are_right c else false

all_right : are_right 256 ≡ true
unfolding are_right is_right same_bits push_bits byte_bits
all_right = refl

are_right-is_right : (bound c : ℕ) → c < bound → are_right bound ≡ true → is_right c ≡ true
unfolding are_right
are_right-is_right zero c less all = absurd (omega arith)
are_right-is_right (suc bound) c less all = ground (arith, are_right-is_right bound c)

push_bits-append :
    (f c i : ℕ) (bits : List Bool) → push_bits f c i bits ≡ bits ++ push_bits f c i []
unfolding push_bits
push_bits-append zero c i bits = sym (append-nil bits)
push_bits-append (suc f) c i bits = elim (Bool-cases (i == 0)) [
  | inl done ↦ rw done (sym (append-nil bits))
  | inr more ↦ rw more (
      push_bits-append f c (i / 2) (bits ++ not (bit_and c i == 0) ∷ [])
      ∙ append_assoc bits _ _
      ∙ ap (◌++◌ bits) (sym (push_bits-append f c (i / 2) (not (bit_and c i == 0) ∷ []))))
]

push_bits-byte_bits :
    (c : ℕ) (bits : List Bool) → c < 256 → push_bits 9 c 128 bits ≡ bits ++ byte_bits c
unfolding is_right
push_bits-byte_bits c bits h =
    push_bits-append 9 c 128 bits
    ∙ ap (◌++◌ bits) (same_bits→eq _ _ (are_right-is_right 256 c h all_right))

copy_bytes-flat_map :
    (vec : Bytes) (bits : List Bool)
    → All IsByte vec
    → copy_bytes vec bits ≡ bits ++ flat_map byte_bits vec
unfolding copy_bytes flat_map
copy_bytes-flat_map [] bits h = sym (append-nil bits)
copy_bytes-flat_map (c ∷ vec) bits h =
    copy_bytes-flat_map vec (push_bits 9 c 128 bits) h.1
    ∙ ap (λ b. b ++ flat_map byte_bits vec) (push_bits-byte_bits c bits h.0)
    ∙ append_assoc bits _ _

length-flat_map : (vec : Bytes) → length (flat_map byte_bits vec) ≡ 8 * length vec
unfolding flat_map byte_bits
length-flat_map [] = refl
length-flat_map (c ∷ vec) = omega (arith, length-flat_map vec)

-- The bit of piece `index`: bit `index % 8` of byte `index / 8`, none where the message has no such byte.
abbrev pub has_bit : Bytes → ℕ → ℕ → Bool
has_bit vec q r = elim (get_elem? vec q) [ none ↦ false | some c ↦ bit c r ]

abbrev read_bit : List Bool → ℕ → Bool
read_bit bits i = elim (get_elem? bits i) [ none ↦ false | some b ↦ b ]

read_bit-first : (c r : ℕ) (rest : List Bool) → r < 8 → read_bit (byte_bits c ++ rest) r ≡ bit c r
unfolding byte_bits
read_bit-first c zero rest h = refl
read_bit-first c (suc zero) rest h = refl
read_bit-first c (suc (suc zero)) rest h = refl
read_bit-first c (suc (suc (suc zero))) rest h = refl
read_bit-first c (suc (suc (suc (suc zero)))) rest h = refl
read_bit-first c (suc (suc (suc (suc (suc zero))))) rest h = refl
read_bit-first c (suc (suc (suc (suc (suc (suc zero)))))) rest h = refl
read_bit-first c (suc (suc (suc (suc (suc (suc (suc zero))))))) rest h = refl
read_bit-first c (suc (suc (suc (suc (suc (suc (suc (suc r)))))))) rest h = absurd (omega arith)

read_bit-flat_map :
    (vec : Bytes) (q r : ℕ)
    → r < 8
    → read_bit (flat_map byte_bits vec) (q * 8 + r) ≡ has_bit vec q r
unfolding flat_map byte_bits
read_bit-flat_map [] q r h = refl
read_bit-flat_map (c ∷ vec) zero r h =
    let e : zero * 8 + r ≡ r = omega arith in rw e (read_bit-first c r (flat_map byte_bits vec) h)
read_bit-flat_map (c ∷ vec) (suc q) r h =
    let e : suc q * 8 + r ≡ suc (suc (suc (suc (suc (suc (suc (suc (q * 8 + r)))))))) =
      omega arith in
    rw e (read_bit-flat_map vec q r h)

get-read_bit : (field : Bitfield) (i : ℕ) → get field i ≡ read_bit field.bits i
unfolding get
get-read_bit field i = elim (Bool-cases (leb (length field.bits) i)) [
  | inl out ↦ rw out (
      ap (λ (o : Option Bool). elim o [ none ↦ false | some b ↦ b ])
        (sym (get_elem?-none field.bits i (leb→le _ _ out))))
  | inr inside ↦ rw inside
]

-- After `copy_from` the field has eight bits for each byte of the message, whatever it held before:
-- bit `q * 8 + r`, with `r < 8`, is bit `r` of byte `q`, the highest bit first, and is unset where
-- the message has no byte `q`.
pub get-copy_from :
    (field : Bitfield) (vec : Bytes) (q r : ℕ)
    → All IsByte vec
    → r < 8
    → (size (copy_from field vec) ≡ 8 * length vec)
      × (get (copy_from field vec) (q * 8 + r) ≡ has_bit vec q r)
unfolding copy_from
get-copy_from field vec q r bytes h =
    let e = copy_bytes-flat_map vec [] bytes in
    (
      ap length e ∙ length-flat_map vec,
      get-read_bit (copy_from field vec) (q * 8 + r)
          ∙ ap (λ b. read_bit b (q * 8 + r)) e
          ∙ read_bit-flat_map vec q r h,
    )
