-- ===== src/Peer/Run/Honest/Tally.antt =====
-- `Peer` of src/peer.cpp: the loop of `async_download` begins no read and closes nothing.
use picotor.Base.{
  ℕ, ◌≤◌, ◌≡◌, refl, subst, true, List, [], ◌∷◌, >>=-eq-ok, ok-injective, Bool-cases, Option-cases,
  inl, inr,
}
use picotor.Common.Bitfield.{get}
use picotor.Torrent.Piece.{next_block}
use picotor.Message.Frame.{request, serialize}
use picotor.Result.{TorrentContext}
use picotor.Peer.State.{Peer, Effect, length_word, body, release_piece}
use picotor.Peer.Download.{take_work, acquire, request_block}
use picotor.Peer.Download.Rule.{OnAcquired, HasRoom, IsKept}
use picotor.Peer.Run.Orderly.{reading, begun, read_size, is_open}
use picotor.Main.Client.{completed}

-- Of the calls: `l` reads of a length, the newest of 4 bytes, and `b` reads of a body were begun on a
-- socket that is open, and piece `a` was reported at least `k` times.
abbrev pub IsTallied : ℕ → ℕ → ℕ → ℕ → List Effect → Type 0
IsTallied l b a k h =
    (begun (reading length_word) h ≡ l)
    × (begun (reading body) h ≡ b)
    × (is_open h ≡ true)
    × (read_size (reading length_word) h ≡ 4)
    × (k ≤ completed a h)

module _ (l b a k : ℕ) where
  abbrev Tallies : Peer → Type 0
  Tallies p = IsTallied l b a k p.history

  release_piece-Tallies : (p : Peer) → Tallies p → Tallies (release_piece p)
  unfolding release_piece
  release_piece-Tallies p v = elim (Option-cases p.piece) [
    | inl idle ↦ rw (idle, release_piece) v
    | inr (q, busy) ↦ rw (busy, release_piece) v
  ]

  take_work-Tallies :
      (ctx : TorrentContext) (p : Peer) (offers : List ℕ)
      → Tallies p
      → HasRoom p
      → OnAcquired Tallies (take_work ctx p offers)
  unfolding take_work
  take_work-Tallies ctx p [] v room = v
  take_work-Tallies ctx p (index ∷ offers) v room =
      elim (Bool-cases (get p.available_pieces index)) [
        | inl has ↦ rw has (v, refl, room)
        | inr lacks ↦ rw lacks (release_piece-Tallies _ v)
      ]

  acquire-Tallies :
      (ctx : TorrentContext) (p : Peer) → Tallies p → HasRoom p → OnAcquired Tallies (acquire ctx p)
  unfolding acquire
  acquire-Tallies ctx p v room = elim (Option-cases p.piece) [
    | inl idle ↦ rw (idle, acquire) (take_work-Tallies ctx p p.offers v room)
    | inr (x, busy) ↦ rw (busy, acquire) (v, busy, room)
  ]

  pub Tallies-kept : (ctx : TorrentContext) → IsKept ctx Tallies
  unfolding request_block
  Tallies-kept ctx = record {
    acquires = acquire-Tallies ctx;
    no_block = λ q p v at e. v;
    requests = λ q ptr p p' v at room e asked.
        let (bytes, _, done) =
          >>=-eq-ok
            (serialize (request (next_block p.store q).1 ((next_block p.store q).2.cell ptr))) _
            asked in
        subst Tallies (ok-injective done) v;
  }
