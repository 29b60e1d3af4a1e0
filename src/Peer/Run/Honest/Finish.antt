-- ===== src/Peer/Run/Honest/Finish.antt =====
-- `Peer` of src/peer.cpp: a piece is fetched from a peer that answers every request.
use picotor.Base.{
  ℕ, ◌<◌, ◌≡◌, refl, sym, subst, ◌∙◌, false, List, [], ◌∷◌, Bytes, length, ok, ◌==◌, arith,
}
use picotor.Stream.{Junk}
use picotor.Common.Words.{u32_mod, big_endian, load32, swap32, swap32-load32}
use picotor.Common.Hash.{Hash}
use picotor.Common.Hash
use picotor.Torrent.CompletePiece.{CompletePiece}
use picotor.Torrent.Metainfo.{piece_hash}
use picotor.Torrent.Piece.{Piece}
use picotor.Torrent.Piece.Assembly.{Builds-IsBuilt}
use picotor.Message.Frame
use picotor.Message.Kind
use picotor.Result.{TorrentContext}
use picotor.Peer.State.{Peer, emit, read, body}
use picotor.Peer.Download.{async_download}
use picotor.Peer.Download.Fuel.{IsSized}
use picotor.Peer.Download.Stops.{
  HasStopped, full, choked, no_bitfield, no_piece, finished, no_block,
}
use picotor.Peer.Handlers.{
  async_read_message, handle_piece, download_fuel, dispatch, handle_kind, async_handle_message,
  body_read, async_read_len,
}
use picotor.Peer.Run.{body_done, length_read, step}
use picotor.Peer.Run.Honest.Fetching.{IsFetching, Fetches}

-- What the read of a message hands the handler.
abbrev pub loaded : Bytes → List ℕ → Peer → Peer
loaded buffer offers p = record p { recv_buffer = buffer; offers = offers }

-- A length is read, and the body is asked for.
abbrev pub heard : ℕ → Peer → Peer
heard n p = emit (read n body) (record p { recv_buffer = big_endian n })

-- The message is there, and the work queue as it is.
abbrev pub received : Bytes → List ℕ → Peer → Peer
received buffer queue p = loaded buffer queue (heard (length buffer) p)

pub step-length :
    (sha1 : Bytes → Bytes) (ctx : TorrentContext) (n : ℕ) (p : Peer)
    → 0 < n
    → n < u32_mod
    → step sha1 ctx p (length_read false (big_endian n)) ≡ ok (heard n p)
unfolding step async_read_len
step-length sha1 ctx n p some_ small =
    let e : swap32 (load32 (big_endian n)) ≡ n = swap32-load32 n [] small in
    let more : (n == 0) ≡ false = ground (arith, some_) in rw (e, more) refl

pub step-piece :
    (sha1 : Bytes → Bytes) (ctx : TorrentContext) (junk : Junk) (payload : Bytes) (queue : List ℕ)
    (p p1 p2 : Peer)
    → handle_piece junk sha1 ctx payload (loaded (7 ∷ payload) queue p) ≡ ok p1
    → async_download ctx (download_fuel ctx) p1 ≡ ok p2
    → step sha1 ctx p (body_done junk false (7 ∷ payload) queue) ≡ ok (async_read_message p2)
unfolding step body_read async_handle_message Frame.parse Kind.try_from handle_kind dispatch
step-piece sha1 ctx junk payload queue p p1 p2 e1 e2 = rw (e1, e2) refl

pub step-unchoke :
    (sha1 : Bytes → Bytes) (ctx : TorrentContext) (junk : Junk) (queue : List ℕ) (p p2 : Peer)
    → async_download ctx (download_fuel ctx) (record (loaded (1 ∷ []) queue p) { choked = false })
      ≡ ok p2
    → step sha1 ctx p (body_done junk false (1 ∷ []) queue) ≡ ok (async_read_message p2)
unfolding step body_read async_handle_message Frame.parse Kind.try_from handle_kind dispatch
step-unchoke sha1 ctx junk queue p p2 e = rw e refl

pub HasStopped-read : (p : Peer) → HasStopped p → HasStopped (async_read_message p)
unfolding async_read_message
HasStopped-read p (full f) = full f
HasStopped-read p (choked c) = choked c
HasStopped-read p (no_bitfield z) = no_bitfield z
HasStopped-read p (no_piece e) = no_piece e
HasStopped-read p (finished q at done) = finished q at done
HasStopped-read p (no_block q at e) = no_block q at e

module _ (text : Bytes) (index n : ℕ) where
  pub Fetches-read :
      (p : Peer) → Fetches text index n p → Fetches text index n (async_read_message p)
  unfolding async_read_message
  Fetches-read p (q, f) = (
    q,
    record {
      at = f.at;
      named = f.named;
      builds = f.builds;
      asked = f.asked;
      count = f.count;
      open_ = f.open_;
      serves = f.serves;
      field = f.field;
    },
  )

  pub received-IsFetching :
      (q : Piece) (p : Peer) (buffer : Bytes) (queue : List ℕ)
      → IsFetching text index n q p
      → IsFetching text index n q (received buffer queue p)
  received-IsFetching q p buffer queue f = record {
    at = f.at;
    named = f.named;
    builds = f.builds;
    asked = f.asked;
    count = f.count;
    open_ = f.open_;
    serves = f.serves;
    field = f.field;
  }

-- The piece that the monitor is told of.
abbrev pub whole_piece : Bytes → ℕ → CompletePiece
whole_piece text index = record { bytes = text; piece_index = index; size = length text }

module _ (sha1 : Bytes → Bytes) (ctx : TorrentContext) (junk : Junk) (text : Bytes) (index : ℕ)
    (h : Hash) (small : length text < u32_mod) (sized : length text ≡ ctx.tor.piece_length)
    (digest : Hash.of sha1 text ≡ ok h) (listed : piece_hash ctx.tor index ≡ ok h) where
  pub Fetches-IsSized : (n : ℕ) (p : Peer) → Fetches text index n p → IsSized ctx p.piece
  Fetches-IsSized n p (q, f) =
      let b = Builds-IsBuilt text p.store q small f.builds in
      subst (IsSized ctx) (sym f.at) (b.size ∙ sized, b.aligned.few)
