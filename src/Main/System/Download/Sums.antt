-- ===== src/Main/System/Download/Sums.antt =====
-- Sums over the pieces of a torrent of include/torrent.hpp.
use picotor.Base.{ℕ, zero, suc, ◌+◌, ◌<◌, ◌≤◌, ◌≡◌, refl, subst, arith}
use native.Mathlib.Decide.{ℕ_discrete}

abbrev pub total : (ℕ → ℕ) → ℕ → ℕ
total f zero = 0
total f (suc n) = f n + total f n

pub total-le : (f g : ℕ → ℕ) (n : ℕ) → ((a : ℕ) → a < n → f a ≤ g a) → total f n ≤ total g n
total-le f g zero h = omega arith
total-le f g (suc n) h =
    omega (arith, h n (omega arith), total-le f g n (λ a less. h a (omega arith)))

pub total-lt :
    (f g : ℕ → ℕ) (n a : ℕ)
    → ((b : ℕ) → b < n → f b ≤ g b)
    → a < n
    → f a < g a
    → total f n < total g n
total-lt f g zero a h less more = absurd (omega arith)
total-lt f g (suc n) a h less more = elim (ℕ_discrete a n) [
  | yes same ↦
      omega (arith, subst (λ x. f x < g x) same more, total-le f g n (λ b l. h b (omega arith)))
  | no other ↦ omega (
    arith,
    h n (omega arith),
    total-lt f g n a (λ b l. h b (omega arith)) (omega (arith, other)) more,
  )
]

total_ones : (n : ℕ) → total (λ _. 1) n ≡ n
total_ones zero = refl
total_ones (suc n) = omega (arith, total_ones n)

pub total_full :
    (f : ℕ → ℕ) (n a : ℕ) → ((b : ℕ) → b < n → f b ≤ 1) → n ≤ total f n → a < n → f a ≡ 1
total_full f n a h full less = elim (ℕ_discrete (f a) 1) [
  | yes same ↦ same
  | no other ↦ absurd (
      omega (
        arith,
        full,
        total-lt f (λ _. 1) n a h less (omega (arith, h a less, other)),
        total_ones n,
      ))
]
