-- ===== src/Peer/Run/Honest/Filled.antt =====
-- How many blocks of a piece of include/torrent.hpp have been received.
use picotor.Base.{
  ℕ, zero, suc, ◌+◌, ◌*◌, ◌%◌, ◌<◌, ◌≤◌, ◌≡◌, refl, ap, ◌∙◌, true, false, List, [], ◌∷◌, ◌++◌, some,
  arith, All, length, get_elem?, ltb, if◌then◌else◌, Bool-cases, Option-cases, inl, inr,
}
use picotor.Common.Words.{u32_mod}
use picotor.Torrent.Block.{block_size, Store, make_shared, new_block}
use picotor.Torrent.Piece.{
  Piece, block_count, all_filled, is_complete, find_open, reserve, next_block,
}
use picotor.Torrent.Piece.NextBlock.{IsAligned}

abbrev pub filled_count : Store → List ℕ → ℕ
filled_count h [] = 0
filled_count h (v ∷ vs) = (if (h.cell v).filled then 1 else 0) + filled_count h vs

pub filled_count-le : (h : Store) (vs : List ℕ) → filled_count h vs ≤ length vs
filled_count-le h [] = omega arith
filled_count-le h (v ∷ vs) = ground (arith, filled_count-le h vs)

pub filled_count-all_filled :
    (h : Store) (vs : List ℕ) → length vs ≤ filled_count h vs → all_filled h vs ≡ true
unfolding all_filled
filled_count-all_filled h [] e = refl
filled_count-all_filled h (v ∷ vs) e =
    ground (arith, filled_count-le h vs, filled_count-all_filled h vs)

-- A piece that is not complete has fewer filled blocks than blocks.
pub filled_count-lt :
    (h : Store) (q : Piece)
    → length q.blocks ≤ block_count q
    → is_complete h q ≡ false
    → filled_count h q.blocks < block_count q
unfolding is_complete
filled_count-lt h q few more =
    ground (arith, more, filled_count-le h q.blocks, filled_count-all_filled h q.blocks)

pub filled_count_mono :
    (h h' : Store) (vs : List ℕ)
    → ((v : ℕ) → (h.cell v).filled ≡ true → (h'.cell v).filled ≡ true)
    → filled_count h vs ≤ filled_count h' vs
filled_count_mono h h' [] kept = omega arith
filled_count_mono h h' (v ∷ vs) kept = ground (arith, kept v, filled_count_mono h h' vs kept)

pub filled_count-grows :
    (h h' : Store) (vs : List ℕ) (i w : ℕ)
    → ((v : ℕ) → (h.cell v).filled ≡ true → (h'.cell v).filled ≡ true)
    → get_elem? vs i ≡ some w
    → (h.cell w).filled ≡ false
    → (h'.cell w).filled ≡ true
    → filled_count h vs < filled_count h' vs
filled_count-grows h h' [] i w kept at empty full = cc
filled_count-grows h h' (v ∷ vs) zero w kept at empty full =
    let same : v ≡ w = ground arith in
    ground (
      arith,
      filled_count_mono h h' vs kept,
      ap (λ x. (h.cell x).filled) same ∙ empty,
      ap (λ x. (h'.cell x).filled) same ∙ full,
    )
filled_count-grows h h' (v ∷ vs) (suc i) w kept at empty full =
    ground (arith, kept v, filled_count-grows h h' vs i w kept at empty full)

-- A piece that is not complete and has all its blocks has an empty one.
pub empty_block :
    (h : Store) (vs : List ℕ)
    → all_filled h vs ≡ false
    → (i : ℕ) × (v : ℕ) × (get_elem? vs i ≡ some v) × ((h.cell v).filled ≡ false)
unfolding all_filled
empty_block h [] e = cc
empty_block h (v ∷ vs) e = elim (Bool-cases (h.cell v).filled) [
  | inr empty ↦ (0, v, refl, empty)
  | inl full ↦
      let (i, w, at, empty) = empty_block h vs (ground (arith, e, full)) in (suc i, w, at, empty)
]

filled_count-append :
    (h : Store) (xs ys : List ℕ) → filled_count h (xs ++ ys) ≡ filled_count h xs + filled_count h ys
filled_count-append h [] ys = omega arith
filled_count-append h (x ∷ xs) ys = omega (arith, filled_count-append h xs ys)

filled_count-same :
    (h h' : Store) (n : ℕ) (vs : List ℕ)
    → ((v : ℕ) → v < n → (h'.cell v).filled ≡ (h.cell v).filled)
    → All (λ v. v < n) vs
    → filled_count h' vs ≡ filled_count h vs
filled_count-same h h' n [] same low = refl
filled_count-same h h' n (v ∷ vs) same low =
    ground (arith, same v low.0, filled_count-same h h' n vs same low.1)

all_filled-count :
    (h : Store) (vs : List ℕ) → all_filled h vs ≡ true → filled_count h vs ≡ length vs
unfolding all_filled
all_filled-count h [] e = refl
all_filled-count h (v ∷ vs) e = ground (arith, all_filled-count h vs)

-- A block that is asked for is empty.
pub filled_count-next_block :
    (h : Store) (q : Piece)
    → IsAligned h q
    → filled_count (next_block h q).2 (next_block h q).1.blocks ≡ filled_count h q.blocks
unfolding next_block make_shared new_block
filled_count-next_block h q al = elim (Bool-cases (ltb (length q.blocks) (block_count q))) [
  | inl more ↦ rw more (
      let h' = reserve (make_shared h (length q.blocks * block_size % u32_mod)).1 h.next in
      ground (
        arith,
        filled_count-append h' q.blocks (h.next ∷ []),
        filled_count-same h h' h.next q.blocks (λ v less. ground arith) al.fresh,
      ))
  | inr all ↦ elim (Option-cases (find_open h q.blocks)) [
    | inl shut ↦ rw (all, shut) refl
    | inr (ptr, found) ↦
        rw (all, found)
          (filled_count-same h (reserve h ptr) h.next q.blocks (λ v less. ground arith) al.fresh)
  ]
]

-- A piece with fewer filled blocks than blocks is not complete.
pub filled_count-open :
    (h : Store) (q : Piece) → filled_count h q.blocks < block_count q → is_complete h q ≡ false
unfolding is_complete
filled_count-open h q few = elim (Bool-cases (is_complete h q)) [
  | inr more ↦ more
  | inl done ↦ absurd (ground (arith, done, all_filled-count h q.blocks))
]
