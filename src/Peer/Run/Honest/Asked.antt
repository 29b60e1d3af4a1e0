-- ===== src/Peer/Run/Honest/Asked.antt =====
-- The requests of a peer of src/peer.cpp that wait for an answer.
use native.Mathlib.Decide.{ℕ_discrete}
use picotor.Base.{
  ℕ, zero, suc, ◌<◌, ◌≡◌, ◌≢◌, refl, subst, ◌∙◌, true, false, List, [], ◌∷◌, none, some, arith, All,
  length, get_elem?, get_elem?-lt, get_elem?-append_left, ltb, ◌==◌, Bool-cases, Option-cases, inl,
  inr,
}
use picotor.Torrent.Block.{Store, make_shared}
use picotor.Torrent.Piece.{Piece, block_count, find_open, next_block}
use picotor.Torrent.Piece.NextBlock.{IsAligned}
use picotor.Peer.State.{lookup, erase, emplace}

-- Each entry is of a block that was started at that place and is still empty, and the keys differ.
abbrev pub AreAsked : Store → Piece → List (ℕ × ℕ) → Type 0
AreAsked h q [] = Unit {0}
AreAsked h q ((k, v) ∷ m) =
    (get_elem? q.blocks k ≡ some v)
    × ((h.cell v).filled ≡ false)
    × (lookup k m ≡ none)
    × AreAsked h q m

pub AreAsked-same :
    (h h' : Store) (q q' : Piece) (m : List (ℕ × ℕ))
    → ((k v : ℕ)
        → get_elem? q.blocks k ≡ some v
        → (h.cell v).filled ≡ false
        → (get_elem? q'.blocks k ≡ some v) × ((h'.cell v).filled ≡ false))
    → AreAsked h q m
    → AreAsked h' q' m
AreAsked-same h h' q q' [] same a = tt
AreAsked-same h h' q q' ((k, v) ∷ m) same (at, empty, new, a) =
    let (at', empty') = same k v at empty in (at', empty', new, AreAsked-same h h' q q' m same a)

pub AreAsked-emplace :
    (h : Store) (q : Piece) (k v : ℕ) (m : List (ℕ × ℕ))
    → get_elem? q.blocks k ≡ some v
    → (h.cell v).filled ≡ false
    → AreAsked h q m
    → AreAsked h q (emplace k v m)
unfolding emplace
AreAsked-emplace h q k v m at empty a = elim (Option-cases (lookup k m)) [
  | inl new ↦ rw (new, emplace) (at, empty, new, a)
  | inr (w, old) ↦ rw (old, emplace) a
]

lookup-erase : (i k : ℕ) (m : List (ℕ × ℕ)) → lookup k m ≡ none → lookup k (erase i m) ≡ none
unfolding lookup erase
lookup-erase i k [] e = refl
lookup-erase i k ((j, v) ∷ m) e = ground (arith, lookup-erase i k m)

-- Entries of other blocks than `i`, when only block `i` changes.
pub AreAsked-other :
    (h h' : Store) (q : Piece) (i : ℕ) (m : List (ℕ × ℕ))
    → ((k v : ℕ)
        → k ≢ i
        → get_elem? q.blocks k ≡ some v
        → (h.cell v).filled ≡ false
        → (h'.cell v).filled ≡ false)
    → lookup i m ≡ none
    → AreAsked h q m
    → AreAsked h' q m
unfolding lookup
AreAsked-other h h' q i [] same free a = tt
AreAsked-other h h' q i ((k, v) ∷ m) same free (at, empty, new, a) = elim (ℕ_discrete k i) [
  | yes hit ↦ absurd (ground (arith, hit, free))
  | no miss ↦ (
    at,
    same k v miss at empty,
    new,
    AreAsked-other h h' q i m same (ground (arith, miss, free)) a,
  )
]

-- The entry of block `i` is gone.
pub AreAsked-erase :
    (h h' : Store) (q : Piece) (i : ℕ) (m : List (ℕ × ℕ))
    → ((k v : ℕ)
        → k ≢ i
        → get_elem? q.blocks k ≡ some v
        → (h.cell v).filled ≡ false
        → (h'.cell v).filled ≡ false)
    → AreAsked h q m
    → AreAsked h' q (erase i m)
unfolding erase
AreAsked-erase h h' q i [] same a = tt
AreAsked-erase h h' q i ((k, v) ∷ m) same (at, empty, new, a) = elim (ℕ_discrete k i) [
  | yes hit ↦
      let now : (k == i) ≡ true = ground (arith, hit) in
      rw now (AreAsked-other h h' q i m same (subst (λ x. lookup x m ≡ none) hit new) a)
  | no miss ↦
      let now : (k == i) ≡ false = ground (arith, miss) in
      rw now (at, same k v miss at empty, lookup-erase i k m new, AreAsked-erase h h' q i m same a)
]

All-get : (n : ℕ) (xs : List ℕ) (k v : ℕ) → All (λ x. x < n) xs → get_elem? xs k ≡ some v → v < n
All-get n [] k v a e = cc
All-get n (x ∷ xs) zero v a e = ground (arith, a.0)
All-get n (x ∷ xs) (suc k) v a e = All-get n xs k v a.1 e

-- The blocks that were started stay where they are, and empty.
pub next_block-listed :
    (h : Store) (q : Piece) (k v : ℕ)
    → IsAligned h q
    → get_elem? q.blocks k ≡ some v
    → (get_elem? (next_block h q).1.blocks k ≡ some v)
      × (((next_block h q).2.cell v).filled ≡ (h.cell v).filled)
unfolding next_block make_shared
next_block-listed h q k v al at =
    let old = All-get h.next q.blocks k v al.fresh at in
    elim (Bool-cases (ltb (length q.blocks) (block_count q))) [
      | inl more ↦ rw more (
        get_elem?-append_left q.blocks _ k (get_elem?-lt q.blocks k at) ∙ at,
        ground (arith, old),
      )
      | inr all ↦ elim (Option-cases (find_open h q.blocks)) [
        | inl shut ↦ rw (all, shut) (at, refl)
        | inr (ptr, found) ↦ rw (all, found) (at, ground arith)
      ]
    ]
