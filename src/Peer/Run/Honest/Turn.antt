-- ===== src/Peer/Run/Honest/Turn.antt =====
-- `Peer` of src/peer.cpp: what a handler leaves behind that goes on to fetch a piece.
use picotor.Base.{ℕ, suc, ◌<◌, ◌≡◌, refl, sym, subst, ◌∙◌, false, List, none, Bytes, length, ok}
use picotor.Common.Words.{u32_mod}
use picotor.Common.Bitfield.{Bitfield}
use picotor.Torrent.Piece.Assembly.{Builds-IsBuilt}
use picotor.Result.{TorrentContext}
use picotor.Peer.State.{Peer, length_word, body}
use picotor.Peer.Download.{async_download}
use picotor.Peer.Download.Rule.{async_download-kept}
use picotor.Peer.Download.Fuel.{IsSized}
use picotor.Peer.Download.Stops.{HasStopped, async_download-stops}
use picotor.Peer.Handlers.{async_read_message, download_fuel}
use picotor.Peer.Run.{Event}
use picotor.Peer.Run.Orderly.{reading, ended}
use picotor.Peer.Run.Honest.Fetching.{Fetches, Fetches-kept}
use picotor.Peer.Run.Honest.Finish.{HasStopped-read, Fetches-read}
use picotor.Peer.Run.Honest.Field.{HasField, HasField-kept}
use picotor.Peer.Run.Honest.Tally.{IsTallied, Tallies-kept}

-- After the completions `done`, the peer fetches the piece, has at least `n` blocks of it, and waits for
-- the length of a message.
pub record IsBusy (text : Bytes) (index n : ℕ) (field : Bitfield) (done : List Event) (p : Peer)
    : Type 0 where
  pub fetches : Fetches text index n p
  pub stops : HasStopped p
  pub has_field : HasField field false p
  pub waits :
      IsTallied (suc (ended (reading length_word) done)) (ended (reading body) done) 0 0 p.history

module _ (sha1 : Bytes → Bytes) (ctx : TorrentContext) (l b a k : ℕ) where
  -- The download of a peer with a piece.
  pub fetch_more :
      (text : Bytes) (index n : ℕ) (field : Bitfield) (p1 : Peer)
      → length text < u32_mod
      → length text ≡ ctx.tor.piece_length
      → Fetches text index n p1
      → HasField field false p1
      → IsTallied l b a k p1.history
      → (p2 : Peer) × (async_download ctx (download_fuel ctx) p1 ≡ ok p2)
        × Fetches text index n (async_read_message p2)
        × HasStopped (async_read_message p2)
        × HasField field false (async_read_message p2)
        × IsTallied (suc l) b a k (async_read_message p2).history
  unfolding async_read_message
  fetch_more text index n field p1 small sized (q, f) has tally =
      let built = Builds-IsBuilt text p1.store q small f.builds in
      let (p2, e, stops) =
        async_download-stops ctx p1
          (subst (IsSized ctx) (sym f.at) (built.size ∙ sized, built.aligned.few)) in
      let f2 =
        async_download-kept ctx (Fetches text index n) (Fetches-kept text index n ctx small)
          (download_fuel ctx) p1 p2 e (q, f) in
      let has2 =
        async_download-kept ctx (HasField field false) (HasField-kept field false sha1 ctx)
          (download_fuel ctx) p1 p2 e has in
      let (c, d, open_, size, told) =
        async_download-kept ctx _ (Tallies-kept l b a k ctx) (download_fuel ctx) p1 p2 e tally in
      (
        p2,
        e,
        Fetches-read text index n p2 f2,
        HasStopped-read p2 stops,
        has2,
        (rw c refl, d, open_, refl, told),
      )

  -- The download of a peer without a piece.
  pub end_idle :
      (p1 : Peer)
      → p1.piece ≡ none
      → IsTallied l b a k p1.history
      → (p2 : Peer) × (async_download ctx (download_fuel ctx) p1 ≡ ok p2)
        × IsTallied (suc l) b a k (async_read_message p2).history
  unfolding async_read_message
  end_idle p1 idle tally =
      let (p2, e, _) = async_download-stops ctx p1 (subst (IsSized ctx) (sym idle) tt) in
      let (c, d, open_, size, told) =
        async_download-kept ctx _ (Tallies-kept l b a k ctx) (download_fuel ctx) p1 p2 e tally in
      (p2, e, (rw c refl, d, open_, refl, told))
