-- ===== src/Peer/Run/Honest/Fetch.antt =====
-- `Peer` of src/peer.cpp: from the first request for a piece to its report.
use picotor.Base.{
  ℕ, suc, ◌+◌, ◌*◌, ◌/◌, ◌<◌, ◌≤◌, ◌≡◌, refl, sym, ap, ap₂, subst, ◌∙◌, Bool, true, false, ◌||◌,
  ◌==◌, List, [], ◌∷◌, Option, none, some, arith, Bytes, length, length-take, drop, ltb, lt→ltb,
  if◌then◌else◌, ok, inl, inr, ◌⊎◌,
}
use picotor.Stream.{Junk}
use picotor.Common.Words.{u32_mod}
use picotor.Common.Bitfield.{Bitfield, get, size}
use picotor.Common.Hash.{Hash}
use picotor.Common.Hash
use picotor.Torrent.Block.{block_size}
use picotor.Torrent.Metainfo.{piece_hash}
use picotor.Torrent.Piece.{Piece, new_piece, block_count}
use picotor.Torrent.Piece.Count.{block_count_bounds}
use picotor.Torrent.Piece.Accept.{payload_of}
use picotor.Torrent.Piece.Built.{slice}
use picotor.Torrent.Piece.Assembly.{Builds, begin, Builds-IsBuilt}
use picotor.Result.{piece_complete, TorrentContext}
use picotor.Peer.State.{Peer, push_result, pop_work, emit, pipeline_limit, release_piece}
use picotor.Peer.Download.{stopped, async_download, download_from, acquire, take_work, holding}
use picotor.Peer.Download.Stops.{HasStopped}
use picotor.Peer.Handlers.{download_fuel, handle_piece}
use picotor.Peer.Run.Honest.Fetching.{IsFetching}
use picotor.Peer.Run.Honest.Answer.{wanted}
use picotor.Peer.Run.Honest.Round.{handle_piece-answer}
use picotor.Peer.Run.Honest.Finish.{received, received-IsFetching, whole_piece}

get-size : (field : Bitfield) (index : ℕ) → get field index ≡ true → 0 < size field
unfolding get
get-size field index has = ground (arith, has)

async_download-ready :
    (ctx : TorrentContext) (f : ℕ) (p : Peer)
    → length p.requests < pipeline_limit
    → p.choked ≡ false
    → 0 < size p.available_pieces
    → async_download ctx (suc f) p ≡ download_from (async_download ctx f) (acquire ctx p)
unfolding async_download
async_download-ready ctx f p room open_ field =
    let some_room : ltb (length p.requests) pipeline_limit ≡ true = lt→ltb _ _ room in
    let ready : (p.choked || size p.available_pieces == 0) ≡ false = ground (arith, open_, field) in
    rw (some_room, ready) refl

module _ (sha1 : Bytes → Bytes) (ctx : TorrentContext) (junk : Junk) (text : Bytes) (index : ℕ)
    (h : Hash) (small : length text < u32_mod) (digest : Hash.of sha1 text ≡ ok h)
    (listed : piece_hash ctx.tor index ≡ ok h) where
  -- What the answer to a request does, before the peer asks for more.
  abbrev pub IsAnswered : ℕ → Piece → List ℕ → Peer → Peer → Type 0
  IsAnswered n q queue p p1 =
      (IsFetching text index (suc n) q p1 × (p1.history ≡ p.history))
      ⊎ ((p1.piece ≡ none)
          × (p1.requests ≡ [])
          × (p1.history ≡ push_result (piece_complete (whole_piece text index)) ∷ p.history)
          × (p1.offers ≡ queue))

  -- A block that is wanted is sent.
  pub answer_wanted :
      (n : ℕ) (q : Piece) (p : Peer) (queue : List ℕ)
      → IsFetching text index n q p
      → HasStopped p
      → (payload : Bytes) × (p1 : Peer) × (length (7 ∷ payload) < u32_mod)
        × (handle_piece junk sha1 ctx payload (received (7 ∷ payload) queue p) ≡ ok p1)
        × IsAnswered n q queue (received (7 ∷ payload) queue p) p1
  answer_wanted n q p queue f stops =
      let (i, v, at, empty) = wanted text index n small q p f stops in
      let b = Builds-IsBuilt text p.store q small f.builds in
      let block = slice text (i * block_size / block_size) in
      let payload = payload_of q.index (i * block_size) block in
      let p0 = received (7 ∷ payload) queue p in
      let short : length block ≤ block_size =
        omega (
          arith,
          length-take block_size (drop ((i * block_size / block_size) * block_size) text),
        ) in
      elim (handle_piece-answer text index n junk q p0 i v
        (received-IsFetching text index n q p (7 ∷ payload) queue f) b at empty sha1 ctx h small
        digest listed) [
          | inl (p1, e, idle, free, told, shut) ↦
              let named : record { bytes = text; piece_index = q.index; size = q.piece_size }
                  ≡ whole_piece text index =
                ap₂ (λ x y. record { bytes = text; piece_index = x; size = y }) f.named b.size in
              (
                payload,
                p1,
                omega (arith, short),
                e,
                inr (
                  idle,
                  free,
                  told ∙ ap (λ c. push_result (piece_complete c) ∷ p0.history) named,
                  shut,
                ),
              )
          | inr (p1, e, f1, _, told) ↦ (payload, p1, omega (arith, short), e, inl (f1, told))
        ]

-- The piece has the blocks of its size.
pub same_count :
    (text : Bytes) (index n : ℕ) (q : Piece) (p : Peer)
    → length text < u32_mod
    → IsFetching text index n q p
    → block_count q ≡ block_count (new_piece index (length text))
unfolding block_count new_piece
same_count text index n q p small f =
    let b = Builds-IsBuilt text p.store q small f.builds in ground (arith, b.size)

module _ (ctx : TorrentContext) (text : Bytes) (index : ℕ) (rest : List ℕ)
    (sized : length text ≡ ctx.tor.piece_length) where
  -- The peer when it has taken the piece.
  abbrev pub taken : Peer → Peer
  taken p =
      emit (pop_work index)
        (record p { offers = rest; piece = some (new_piece index ctx.tor.piece_length) })

  pub taken-IsFetching :
      (p : Peer)
      → 0 < length text
      → index < u32_mod
      → p.requests ≡ []
      → p.choked ≡ false
      → get p.available_pieces index ≡ true
      → IsFetching text index 0 (new_piece index ctx.tor.piece_length) (taken p)
  unfolding new_piece
  taken-IsFetching p long known none_ serves has = record {
    at = refl;
    named = refl;
    builds = subst (λ n. Builds text p.store (new_piece index n)) sized (begin p.store index known);
    asked = rw none_ tt;
    count = omega arith;
    open_ = omega (arith, block_count_bounds (new_piece index ctx.tor.piece_length), sized);
    serves = serves;
    field = get-size p.available_pieces index has;
  }

  taken-next :
      (p : Peer) (f : ℕ)
      → p.piece ≡ none
      → p.requests ≡ []
      → p.offers ≡ index ∷ rest
      → p.choked ≡ false
      → get p.available_pieces index ≡ true
      → async_download ctx (suc f) p ≡ async_download ctx (suc f) (taken p)
  unfolding acquire take_work
  taken-next p f idle none_ head serves has =
      let room : length p.requests < pipeline_limit = omega (arith, ap length none_) in
      let field = get-size p.available_pieces index has in
      let q = new_piece index ctx.tor.piece_length in
      async_download-ready ctx f p room serves field
      ∙ ap (download_from (async_download ctx f)) (
          ap
            (λ (o : Option Piece). elim o [
              | some x ↦ holding x p
              | none ↦ take_work ctx p p.offers
            ])
            idle
          ∙ ap (take_work ctx p) head
          ∙ ap (λ (b : Bool). if b then holding q (taken p) else stopped (release_piece (taken p)))
              has)
      ∙ sym (async_download-ready ctx f (taken p) room serves field)

  -- A free peer goes on with the piece that the queue gives out.
  pub download-taken :
      (p : Peer)
      → p.piece ≡ none
      → p.requests ≡ []
      → p.offers ≡ index ∷ rest
      → p.choked ≡ false
      → get p.available_pieces index ≡ true
      → async_download ctx (download_fuel ctx) p ≡ async_download ctx (download_fuel ctx) (taken p)
  unfolding download_fuel
  download-taken p idle none_ head serves has =
      let rounds_left : suc (ctx.tor.piece_length + 1) ≡ ctx.tor.piece_length + 2 = omega arith in
      subst (λ n. async_download ctx n p ≡ async_download ctx n (taken p)) rounds_left
        (taken-next p (ctx.tor.piece_length + 1) idle none_ head serves has)
