-- ===== src/Peer/Download/Fuel.antt =====
-- `Peer::async_download` of src/peer.cpp: its loop ends.
use picotor.Base.{
  ℕ, zero, suc, ◌+◌, ◌-◌, ◌*◌, ◌%◌, ◌^◌, ◌≤◌, ◌<◌, ◌≡◌, refl, not, ◌&&◌, ◌||◌, List, [], ◌∷◌, ◌++◌,
  Option, none, some, arith, length, length-append, if◌then◌else◌, ltb, ltb→lt, ◌==◌, Outcome, ok,
  Bool-cases, Option-cases, inl, inr,
}
use picotor.Common.Bitfield.{get, size}
use picotor.Torrent.Block.{Store, block_size, make_shared}
use picotor.Torrent.Piece.{
  Piece, new_piece, block_count, find_open, reserve, next_block, is_complete,
}
use picotor.Message.Frame.{request, serialize}
use picotor.Result.{TorrentContext}
use picotor.Peer.State.{Peer, pipeline_limit}
use picotor.Peer.Download.{
  Acquired, stopped, holding, take_work, acquire, request_block, after_next, request_next,
  download_from, async_download,
}
use picotor.Peer.Handlers.{download_fuel}
use picotor.Torrent.Piece.Count.{block_count_bounds}

-- How many of the blocks are neither filled nor reserved.
abbrev opens : Store → List ℕ → ℕ
opens h [] = 0
opens h (ptr ∷ ptrs) =
    (if not (h.cell ptr).filled && not (h.cell ptr).reserved then 1 else 0) + opens h ptrs

-- How many blocks of a piece can still be handed out.
abbrev left : Store → Piece → ℕ
left h q = block_count q - length q.blocks + opens h q.blocks

opens_le : (h : Store) (ptrs : List ℕ) → opens h ptrs ≤ length ptrs
opens_le h [] = omega arith
opens_le h (ptr ∷ ptrs) = ground (arith, opens_le h ptrs)

opens_append : (h : Store) (xs ys : List ℕ) → opens h (xs ++ ys) ≡ opens h xs + opens h ys
opens_append h [] ys = omega arith
opens_append h (x ∷ xs) ys = omega (arith, opens_append h xs ys)

opens-reserve : (h : Store) (p : ℕ) (ptrs : List ℕ) → opens (reserve h p) ptrs ≤ opens h ptrs
opens-reserve h p [] = omega arith
opens-reserve h p (ptr ∷ ptrs) = ground (arith, opens-reserve h p ptrs)

opens-find_open :
    (h : Store) (ptrs : List ℕ) (p : ℕ)
    → find_open h ptrs ≡ some p
    → opens (reserve h p) ptrs < opens h ptrs
unfolding find_open
opens-find_open h [] p e = cc
opens-find_open h (ptr ∷ ptrs) p e =
    elim (Bool-cases (not (h.cell ptr).filled && not (h.cell ptr).reserved)) [
      | inl found ↦ ground (arith, opens-reserve h p ptrs)
      | inr shut ↦ ground (arith, opens-find_open h ptrs p (rw shut at e))
    ]

-- A block that is made and reserved at once is not open, and no other block becomes so.
opens-make_shared :
    (h : Store) (offset : ℕ) (ptrs : List ℕ)
    → opens (reserve (make_shared h offset).1 h.next) ptrs ≤ opens h ptrs
unfolding make_shared
opens-make_shared h offset [] = omega arith
opens-make_shared h offset (ptr ∷ ptrs) = ground (arith, opens-make_shared h offset ptrs)

opens_self :
    (h : Store) (offset : ℕ) → opens (reserve (make_shared h offset).1 h.next) (h.next ∷ []) ≡ 0
unfolding make_shared
opens_self h offset = ground arith

block_count-blocks :
    (q : Piece) (ptrs : List ℕ) → block_count (record q { blocks = ptrs }) ≡ block_count q
unfolding block_count
block_count-blocks q ptrs = refl

-- A round that finds a block leaves one less.
left-next_block :
    (h : Store) (q : Piece) (ptr : ℕ)
    → (next_block h q).0 ≡ some ptr
    → left (next_block h q).2 (next_block h q).1 < left h q
unfolding next_block make_shared
left-next_block h q ptr e = elim (Bool-cases (ltb (length q.blocks) (block_count q))) [
  | inl more ↦
      let offset = length q.blocks * block_size % 2 ^ 32 in
      let h' = reserve (make_shared h offset).1 h.next in
      rw more (
        omega (
          arith,
          ltb→lt _ _ more,
          block_count-blocks q (q.blocks ++ h.next ∷ []),
          length-append q.blocks (h.next ∷ []),
          opens_append h' q.blocks (h.next ∷ []),
          opens-make_shared h offset q.blocks,
          opens_self h offset,
        ))
  | inr all ↦
      let e' = rw all at e in
      elim (Option-cases (find_open h q.blocks)) [
        | inl none_open ↦ absurd (cc (rw none_open at e'))
        | inr (p, found) ↦ rw (all, found) (omega (arith, opens-find_open h q.blocks p found))
      ]
]

-- A request can always be serialised, and it changes neither the piece nor the blocks.
request_block-ok :
    (q : Piece) (ptr : ℕ) (p : Peer)
    → (r : Peer) × (request_block q ptr p ≡ ok r) × (r.piece ≡ p.piece) × (r.store ≡ p.store)
unfolding request_block request serialize
request_block-ok q ptr p = (_, refl, refl, refl)

module _ (ctx : TorrentContext) where
  -- How many rounds can still request a block.
  abbrev rounds_of : Store → Option Piece → ℕ
  rounds_of h none = block_count (new_piece 0 ctx.tor.piece_length)
  rounds_of h (some q) = left h q

  abbrev rounds : Peer → ℕ
  rounds p = rounds_of p.store p.piece

  abbrev Holds : ℕ → Acquired → Type 0
  Holds n (stopped p) = Unit {0}
  Holds n (holding q p) = left p.store q ≤ n

  new_piece-left :
      (h : Store) (index : ℕ)
      → left h (new_piece index ctx.tor.piece_length)
        ≤ block_count (new_piece 0 ctx.tor.piece_length)
  unfolding new_piece block_count
  new_piece-left h index = ground arith

  take_work-Holds :
      (p : Peer) (offers : List ℕ)
      → Holds (block_count (new_piece 0 ctx.tor.piece_length)) (take_work ctx p offers)
  unfolding take_work
  take_work-Holds p [] = tt
  take_work-Holds p (index ∷ offers) = elim (Bool-cases (get p.available_pieces index)) [
    | inl has ↦ rw has (new_piece-left p.store index)
    | inr lacks ↦ rw lacks tt
  ]

  acquire-Holds : (p : Peer) → Holds (rounds p) (acquire ctx p)
  unfolding acquire
  acquire-Holds p = elim (Option-cases p.piece) [
    | inl idle ↦ rw (idle, acquire) (take_work-Holds p p.offers)
    | inr (q, busy) ↦ rw (busy, acquire) (omega arith)
  ]

  request_next-ok :
      (again : Peer → Outcome Peer) (n : ℕ) (q : Piece) (p : Peer) (o : Option ℕ)
      → ((r : Peer) → rounds r < n → (r' : Peer) × (again r ≡ ok r'))
      → left p.store q ≤ n
      → (next_block p.store q).0 ≡ o
      → (r' : Peer) × (request_next again (next_block p.store q).1 (after_next q p) o ≡ ok r')
  unfolding request_next
  request_next-ok again n q p none ih few e = (_, refl)
  request_next-ok again n q p (some ptr) ih few e =
      let (r, asked, same, kept) = request_block-ok (next_block p.store q).1 ptr (after_next q p) in
      let less = left-next_block p.store q ptr e in
      rw asked (ih r (rw (same, kept) (omega (arith, less))))

  download_from-ok :
      (again : Peer → Outcome Peer) (n : ℕ) (x : Acquired)
      → ((r : Peer) → rounds r < n → (r' : Peer) × (again r ≡ ok r'))
      → Holds n x
      → (r' : Peer) × (download_from again x ≡ ok r')
  unfolding download_from
  download_from-ok again n (stopped p) ih few = (p, refl)
  download_from-ok again n (holding q p) ih few = elim (Bool-cases (is_complete p.store q)) [
    | inl complete ↦ rw complete (p, refl)
    | inr more ↦ rw more (request_next-ok again n q p (next_block p.store q).0 ih few refl)
  ]

  async_download-ok :
      (f : ℕ) (p : Peer) → rounds p < f → (r : Peer) × (async_download ctx f p ≡ ok r)
  unfolding async_download
  async_download-ok zero p few = absurd (omega arith)
  async_download-ok (suc f) p few = elim (Bool-cases (ltb (length p.requests) pipeline_limit)) [
    | inr full ↦ rw full (p, refl)
    | inl room ↦ rw room (elim (Bool-cases (p.choked || size p.available_pieces == 0)) [
      | inl idle ↦ rw idle (p, refl)
      | inr ready ↦ rw ready (
          download_from-ok (async_download ctx f) (rounds p) (acquire ctx p)
            (λ r less. async_download-ok f r (omega (arith, less))) (acquire-Holds p))
    ])
  ]

  -- A piece of the torrent's size, with no more blocks than it has.
  abbrev pub IsSized : Option Piece → Type 0
  IsSized none = Unit {0}
  IsSized (some q) = (q.piece_size ≡ ctx.tor.piece_length) × (length q.blocks ≤ block_count q)

  rounds_of-lt : (h : Store) (o : Option Piece) → IsSized o → rounds_of h o < download_fuel ctx
  unfolding download_fuel new_piece
  rounds_of-lt h none s = omega (arith, block_count_bounds (new_piece 0 ctx.tor.piece_length))
  rounds_of-lt h (some q) (size, few) =
      omega (arith, block_count_bounds q, size, few, opens_le h q.blocks)

-- For a peer with no piece, or with a piece of the torrent's size that has started no more blocks than
-- it has, the loop of `async_download` ends within the rounds that the handlers give it.
pub async_download-returns :
    (ctx : TorrentContext) (p : Peer)
    → IsSized ctx p.piece
    → (r : Peer) × (async_download ctx (download_fuel ctx) p ≡ ok r)
async_download-returns ctx p s =
    async_download-ok ctx (download_fuel ctx) p (rounds_of-lt ctx p.store p.piece s)
