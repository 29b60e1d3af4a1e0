-- ===== src/Stream.antt =====
-- The part of `std::stringstream` that the program reads from, and memory that nothing has written.
-- A read that comes up short sets `failbit` and `eofbit` together, so one flag stands for both.
use picotor.Base.{
  ℕ, zero, suc, ◌+◌, ◌≡◌, refl, ap, Bool, true, false, [], ◌∷◌, ◌++◌, arith, Bytes, ltb, length,
  take, drop, if◌then◌else◌, take-append, drop-append, length-append,
}

-- Byte `i` of the memory that a local variable or a fresh buffer is found with.
abbrev pub Junk : Type 0
Junk = ℕ → ℕ

-- An object of `n` bytes that starts at byte `i` of such memory.
unfoldable pub scratch : Junk → ℕ → ℕ → Bytes
scratch junk i zero = []
scratch junk i (suc n) = junk i ∷ scratch junk (i + 1) n

pub length-scratch : (junk : Junk) (i n : ℕ) → length (scratch junk i n) ≡ n
unfolding scratch
length-scratch junk i zero = refl
length-scratch junk i (suc n) = ap suc (length-scratch junk (i + 1) n)

pub record Stream : Type 0 where
  pub rest : Bytes
  pub good : Bool

abbrev pub stream : Bytes → Stream
stream s = record { rest = s; good = true }

-- `ss.read(buffer, n)`: the new contents of the buffer, and the stream.
unfoldable pub read : ℕ → Bytes → Stream → Bytes × Stream
read n buffer s =
    if s.good
    then (if ltb (length s.rest) n
        then (s.rest ++ drop (length s.rest) buffer, record { rest = []; good = false })
        else (take n s.rest ++ drop n buffer, record { rest = drop n s.rest; good = true }))
    else (buffer, s)

-- What is there in full is read in full.
pub read-append :
    (n : ℕ) (buffer front back : Bytes)
    → length front ≡ n
    → read n buffer (stream (front ++ back)) ≡ (front ++ drop n buffer, stream back)
unfolding read
read-append n buffer front back h =
    ground (arith, length-append front back, take-append n front back, drop-append n front back)
