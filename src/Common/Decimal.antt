-- ===== src/Common/Decimal.antt =====
-- The decimal print of an unsigned number, as `std::to_string` and `operator<<` write it.
use native.Mathlib.Nat.{pow-suc}
use picotor.Base.{
  ℕ, zero, suc, ◌+◌, ◌-◌, ◌*◌, ◌/◌, ◌%◌, ◌^◌, ◌<◌, ◌≡◌, refl, ap, Bool, false, ◌&&◌, [], ◌∷◌, ◌++◌,
  ◌∙◌, arith, Bytes, codes, ltb, leb, if◌then◌else◌, Bool-cases, inl, inr,
}

-- The digits of `n` in front of `out`; twenty rounds serve every 64-bit number.
digits : ℕ → ℕ → Bytes → Bytes
digits zero n out = out
digits (suc f) n out =
    let more = digits f (n / 10) ((b'0' + n % 10) ∷ out) in
    if ltb n 10 then (b'0' + n) ∷ out else more

pub to_decimal : ℕ → Bytes
unfolding digits
to_decimal n = digits 20 n []

-- The number that a run of digits spells behind `acc`, and what follows the run.
abbrev is_digit : ℕ → Bool
is_digit c = leb b'0' c && leb c b'9'

unfoldable pub read_digits : ℕ → Bytes → ℕ × Bytes
read_digits acc [] = (acc, [])
read_digits acc (c ∷ s) =
    let stop : ℕ × Bytes = (acc, c ∷ s) in
    let more = read_digits (acc * 10 + (c - b'0')) s in if is_digit c then more else stop

read_digits-step :
    (acc d : ℕ) (s : Bytes)
    → d < 10
    → read_digits acc ((b'0' + d) ∷ s) ≡ read_digits (acc * 10 + d) s
unfolding read_digits
read_digits-step acc d s h = let e : b'0' + d - b'0' ≡ d = omega arith in ground (arith, e)

read_digits-last :
    (n : ℕ) (out : Bytes) → read_digits (n / 10) ((b'0' + n % 10) ∷ out) ≡ read_digits n out
read_digits-last n out =
    let e : n / 10 * 10 + n % 10 ≡ n = omega arith in
    read_digits-step (n / 10) (n % 10) out (omega arith) ∙ ap (λ m. read_digits m out) e

read_digits-digits :
    (f n : ℕ) (out : Bytes)
    → n < 10 ^ suc f
    → read_digits 0 (digits (suc f) n out) ≡ read_digits n out
unfolding digits
read_digits-digits zero n out h = ground (arith, read_digits-step 0 n out)
read_digits-digits (suc f) n out h = elim (Bool-cases (ltb n 10)) [
  | inl small ↦ rw small (ground (arith, read_digits-step 0 n out))
  | inr large ↦ rw large (
      read_digits-digits f (n / 10) ((b'0' + n % 10) ∷ out) (omega (arith, pow-suc 10 (suc f)))
      ∙ read_digits-last n out)
]

-- What is printed is digits, and reading them gives the number back, whatever follows.
abbrev pub IsEnd : Bytes → Type 0
IsEnd [] = Unit
IsEnd (c ∷ s) = is_digit c ≡ false

read_digits-IsEnd : (n : ℕ) (s : Bytes) → IsEnd s → read_digits n s ≡ (n, s)
unfolding read_digits
read_digits-IsEnd n [] h = refl
read_digits-IsEnd n (c ∷ s) h = rw h

digits-append : (f n : ℕ) (out rest : Bytes) → digits f n out ++ rest ≡ digits f n (out ++ rest)
unfolding digits
digits-append zero n out rest = refl
digits-append (suc f) n out rest =
    ground (arith, digits-append f (n / 10) ((b'0' + n % 10) ∷ out) rest)

-- The digits of a number of 64 bits, in front of a text that begins with no digit, read as that number,
-- and the text is left.
pub read_digits-to_decimal :
    (n : ℕ) (rest : Bytes)
    → n < 2 ^ 64
    → IsEnd rest
    → read_digits 0 (to_decimal n ++ rest) ≡ (n, rest)
unfolding to_decimal
read_digits-to_decimal n rest h e =
    ap (read_digits 0) (digits-append 20 n [] rest)
    ∙ read_digits-digits 19 n rest (omega arith)
    ∙ read_digits-IsEnd n rest e

to_decimal_test : to_decimal 16384 ≡ codes "16384"
unfolding to_decimal
to_decimal_test = refl
