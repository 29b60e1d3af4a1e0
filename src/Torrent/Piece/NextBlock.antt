-- ===== src/Torrent/Piece/NextBlock.antt =====
-- The blocks that `Piece::next_block` hands out.
use picotor.Base.{
  ℕ, zero, suc, ◌+◌, ◌*◌, ◌/◌, ◌%◌, ◌≤◌, ◌<◌, ◌≡◌, refl, ◌∙◌, true, false, not, ◌&&◌, List, [], ◌∷◌,
  ◌++◌, none, some, arith, All, All-append, length, length-append, get_elem?, get_elem?-append_last,
  get_elem?-lt, ltb, ltb→lt, ltb→le, Option-cases, Bool-cases, inl, inr, ◌⊎◌,
}
use picotor.Common.Words.{u32_mod}
use picotor.Torrent.Block.{block_size, Store, new_block, make_shared}
use picotor.Torrent.Piece.{Piece, block_count, find_open, reserve, next_block}
use picotor.Torrent.Piece.Count.{block_count_bounds}

-- From block `k` on, block `i` starts at `i * block_size`.
abbrev pub Offsets : Store → List ℕ → ℕ → Type 0
Offsets h [] k = Unit {0}
Offsets h (ptr ∷ ptrs) k = ((h.cell ptr).offset ≡ k * block_size) × Offsets h ptrs (suc k)

-- The blocks of a piece are those of its front, each at its place.
pub record IsAligned (h : Store) (p : Piece) : Type 0 where
  pub fresh : All (λ ptr. ptr < h.next) p.blocks
  pub offsets : Offsets h p.blocks 0
  pub few : length p.blocks ≤ block_count p
  pub small : p.piece_size < u32_mod

pub Offsets-same :
    (h h' : Store) (n : ℕ) (ptrs : List ℕ) (k : ℕ)
    → ((q : ℕ) → q < n → (h'.cell q).offset ≡ (h.cell q).offset)
    → All (λ ptr. ptr < n) ptrs
    → Offsets h ptrs k
    → Offsets h' ptrs k
Offsets-same h h' n [] k same low o = tt
Offsets-same h h' n (ptr ∷ ptrs) k same low o =
    (same ptr low.0 ∙ o.0, Offsets-same h h' n ptrs (suc k) same low.1 o.1)

Offsets-snoc :
    (h : Store) (ptr : ℕ) (ptrs : List ℕ) (k : ℕ)
    → Offsets h ptrs k
    → (h.cell ptr).offset ≡ (k + length ptrs) * block_size
    → Offsets h (ptrs ++ ptr ∷ []) k
Offsets-snoc h ptr [] k o e = (omega arith, tt)
Offsets-snoc h ptr (q ∷ ptrs) k o e = (o.0, Offsets-snoc h ptr ptrs (suc k) o.1 (omega arith))

pub Offsets-get :
    (h : Store) (ptr : ℕ) (ptrs : List ℕ) (k i : ℕ)
    → Offsets h ptrs k
    → get_elem? ptrs i ≡ some ptr
    → (h.cell ptr).offset ≡ (k + i) * block_size
Offsets-get h ptr [] k i o e = cc
Offsets-get h ptr (q ∷ ptrs) k zero o e = ground arith
Offsets-get h ptr (q ∷ ptrs) k (suc i) o e = omega (arith, Offsets-get h ptr ptrs (suc k) i o.1 e)

fresh_mono :
    (m n : ℕ) (ptrs : List ℕ) → m ≤ n → All (λ ptr. ptr < m) ptrs → All (λ ptr. ptr < n) ptrs
fresh_mono m n [] h a = tt
fresh_mono m n (ptr ∷ ptrs) h a = (omega arith, fresh_mono m n ptrs h a.1)

find_open-some :
    (h : Store) (ptrs : List ℕ) (ptr : ℕ)
    → find_open h ptrs ≡ some ptr
    → (i : ℕ) × (get_elem? ptrs i ≡ some ptr)
      × ((h.cell ptr).filled ≡ false)
      × ((h.cell ptr).reserved ≡ false)
unfolding find_open
find_open-some h [] ptr e = cc
find_open-some h (q ∷ ptrs) ptr e =
    elim (Bool-cases (not (h.cell q).filled && not (h.cell q).reserved)) [
      | inl open_here ↦ (0, ground arith, ground arith, ground arith)
      | inr closed ↦
          let (i, found, empty, free) = find_open-some h ptrs ptr (rw closed at e) in
          (suc i, found, empty, free)
    ]

-- What a caller of `next_block` is given.
pub record Gives (p : Piece) (ptr : ℕ) (p' : Piece) (h' : Store) : Type 0 where
  pub aligned : IsAligned h' p'
  pub same_piece : (p'.index ≡ p.index) × (p'.piece_size ≡ p.piece_size)
  pub empty : (h'.cell ptr).filled ≡ false
  pub reserved : (h'.cell ptr).reserved ≡ true
  pub inside : (h'.cell ptr).offset < p.piece_size
  pub at_block : (h'.cell ptr).offset % block_size ≡ 0
  pub listed : get_elem? p'.blocks ((h'.cell ptr).offset / block_size) ≡ some ptr

reserve-offset : (h : Store) (ptr q : ℕ) → ((reserve h ptr).cell q).offset ≡ (h.cell q).offset
reserve-offset h ptr q = ground arith

reserve-filled : (h : Store) (ptr q : ℕ) → ((reserve h ptr).cell q).filled ≡ (h.cell q).filled
reserve-filled h ptr q = ground arith

reserve_self : (h : Store) (ptr : ℕ) → ((reserve h ptr).cell ptr).reserved ≡ true
reserve_self h ptr = ground arith

-- A block that stands at place `i` of an aligned piece, and is reserved.
reserve-Gives :
    (h : Store) (p p' : Piece) (ptr i : ℕ)
    → IsAligned h p'
    → (p'.index ≡ p.index) × (p'.piece_size ≡ p.piece_size)
    → block_count p' ≡ block_count p
    → get_elem? p'.blocks i ≡ some ptr
    → (h.cell ptr).filled ≡ false
    → Gives p ptr p' (reserve h ptr)
reserve-Gives h p p' ptr i a same count found empty =
    let at : (h.cell ptr).offset ≡ i * block_size =
      Offsets-get h ptr p'.blocks 0 i a.offsets found ∙ omega arith in
    let now = reserve-offset h ptr ptr ∙ at in
    let place : ((reserve h ptr).cell ptr).offset / block_size ≡ i = omega (arith, now) in
    record {
      aligned = record {
        fresh = a.fresh;
        offsets =
            Offsets-same h (reserve h ptr) h.next p'.blocks 0 (λ q _. reserve-offset h ptr q)
              a.fresh a.offsets;
        few = a.few;
        small = a.small;
      };
      same_piece = same;
      empty = reserve-filled h ptr ptr ∙ empty;
      reserved = reserve_self h ptr;
      inside = omega (arith, now, block_count_bounds p, get_elem?-lt p'.blocks i found);
      at_block = omega (arith, now);
      listed = rw place found;
    }

find_open-Gives :
    (h : Store) (p : Piece) (ptr : ℕ)
    → IsAligned h p
    → find_open h p.blocks ≡ some ptr
    → Gives p ptr p (reserve h ptr)
find_open-Gives h p ptr a e =
    let (i, found, empty, free) = find_open-some h p.blocks ptr e in
    reserve-Gives h p p ptr i a (refl, refl) refl found empty

make_shared-other :
    (h : Store) (offset q : ℕ)
    → q < h.next
    → ((make_shared h offset).1.cell q).offset ≡ (h.cell q).offset
unfolding make_shared
make_shared-other h offset q low = ground arith

make_shared_self :
    (h : Store) (offset : ℕ)
    → (((make_shared h offset).1.cell h.next).offset ≡ offset)
      × (((make_shared h offset).1.cell h.next).filled ≡ false)
unfolding make_shared new_block
make_shared_self h offset = ground arith

abbrev extended : Store → Piece → Piece
extended h p = record p { blocks = p.blocks ++ h.next ∷ [] }

fresh-make_shared :
    (h : Store) (offset : ℕ) (ptrs : List ℕ)
    → All (λ ptr. ptr < h.next) ptrs
    → All (λ ptr. ptr < (make_shared h offset).1.next) (ptrs ++ h.next ∷ [])
unfolding make_shared
fresh-make_shared h offset ptrs low =
    All-append (λ ptr. ptr < h.next + 1) ptrs (h.next ∷ [])
      (fresh_mono h.next (h.next + 1) ptrs (omega arith) low) (omega arith)

make_shared-IsAligned :
    (h : Store) (p : Piece)
    → IsAligned h p
    → length p.blocks < block_count p
    → IsAligned (make_shared h (length p.blocks * block_size % u32_mod)).1 (extended h p)
unfolding block_count
make_shared-IsAligned h p a more =
    let offset = length p.blocks * block_size % u32_mod in
    let exact : offset ≡ (0 + length p.blocks) * block_size =
      omega (arith, block_count_bounds p, a.small) in
    record {
      fresh = fresh-make_shared h offset p.blocks a.fresh;
      offsets =
          Offsets-snoc (make_shared h offset).1 h.next p.blocks 0
            (Offsets-same h (make_shared h offset).1 h.next p.blocks 0 (make_shared-other h offset)
              a.fresh a.offsets)
            ((make_shared_self h offset).0 ∙ exact);
      few = omega (arith, length-append p.blocks (h.next ∷ []));
      small = a.small;
    }

make_shared-Gives :
    (h : Store) (p : Piece)
    → IsAligned h p
    → length p.blocks < block_count p
    → let (ptr, h') = make_shared h (length p.blocks * block_size % u32_mod) in
      Gives p ptr (record p { blocks = p.blocks ++ ptr ∷ [] }) (reserve h' ptr)
unfolding block_count make_shared
make_shared-Gives h p a more =
    let offset = length p.blocks * block_size % u32_mod in
    reserve-Gives (make_shared h offset).1 p (extended h p) h.next (length p.blocks)
      (make_shared-IsAligned h p a more) (refl, refl) refl (get_elem?-append_last p.blocks h.next)
      (make_shared_self h offset).1

abbrev pub IsTaken : Store → ℕ → Type 0
IsTaken h ptr = ((h.cell ptr).filled ≡ true) ⊎ ((h.cell ptr).reserved ≡ true)

find_open-none : (h : Store) (ptrs : List ℕ) → find_open h ptrs ≡ none → All (IsTaken h) ptrs
unfolding find_open
find_open-none h [] e = tt
find_open-none h (q ∷ ptrs) e =
    elim (Bool-cases (not (h.cell q).filled && not (h.cell q).reserved)) [
      | inl open_here ↦ absurd (ground arith)
      | inr closed ↦ (ground arith, find_open-none h ptrs (rw closed at e))
    ]

-- In an aligned piece `next_block` hands out a block that is empty, now reserved, starts inside the
-- piece at a multiple of the block size, and stands in the list where `accept` will look for it; or
-- it returns a null pointer and changes nothing, and then every block was started and is filled or
-- reserved.
pub next_block_cases :
    (h : Store) (p : Piece)
    → IsAligned h p
    → let (o, p', h') = next_block h p in
      ((ptr : ℕ) × (o ≡ some ptr) × Gives p ptr p' h')
      ⊎ ((o ≡ none)
          × (p' ≡ p)
          × (h' ≡ h)
          × (length p.blocks ≡ block_count p)
          × All (IsTaken h) p.blocks)
unfolding next_block
next_block_cases h p a = elim (Bool-cases (ltb (length p.blocks) (block_count p))) [
  | inl more ↦ rw more (inl (_, refl, make_shared-Gives h p a (ltb→lt _ _ more)))
  | inr all_started ↦ rw all_started (elim (Option-cases (find_open h p.blocks)) [
    | inl shut ↦ rw shut (
        inr (
          refl,
          refl,
          refl,
          omega (arith, ltb→le _ _ all_started, a.few),
          find_open-none h p.blocks shut,
        ))
    | inr (ptr, found) ↦ rw found (inl (ptr, refl, find_open-Gives h p ptr a found))
  ])
]
