-- ===== src/Main/Client/Serving/Offers.antt =====
-- `Peer` of src/peer.cpp: a handler takes from the work queue of src/main.cpp what it is offered.
use picotor.Base.{
  ℕ, ◌≡◌, refl, sym, ap, subst, true, false, List, [], ◌∷◌, ◌++◌, some, Bytes, ok, Bool-cases,
  Option-cases, inl, inr,
}
use picotor.Common.Bitfield.{get}
use picotor.Torrent.Piece.{new_piece, next_block}
use picotor.Result.{TorrentContext}
use picotor.Peer.State.{Peer, Effect, pop_work, emit}
use picotor.Peer.Download.{take_work, acquire, after_next}
use picotor.Peer.Download.Rule.{OnAcquired, HasRoom}
use picotor.Peer.Run.{Event, step, body_done}
use picotor.Peer.Run.Rule.{IsStable, quiet_step-kept, body_read-kept}
use picotor.Main.Client.{Serves}
use picotor.Main.Client.Serving.{
  IsServed, IsServed-same, release_piece-IsServed, IsServed-IsPlain, handle_piece-IsServed,
  request_block-IsServed,
}

-- The work queue gives out what the handler was offered.
module _ (before : List Effect) (q : List ℕ) (sha1 : Bytes → Bytes) (ctx : TorrentContext) where
  abbrev IsOffered : Peer → Type 0
  IsOffered = IsServed true before q

  take_work-IsOffered :
      (p : Peer) (offers : List ℕ)
      → p.offers ≡ offers
      → IsOffered p
      → HasRoom p
      → OnAcquired IsOffered (take_work ctx p offers)
  unfolding take_work
  take_work-IsOffered p [] same v room = v
  take_work-IsOffered p (index ∷ offers) same v room =
      let taken : IsOffered (
          emit (pop_work index)
            (record p { offers = offers; piece = some (new_piece index ctx.tor.piece_length) })) =
        record {
          calls = pop_work index ∷ v.calls;
          rest = v.rest;
          grown = ap (λ h. pop_work index ∷ h) v.grown;
          served = (
            (index ∷ offers) ++ v.rest,
            subst (λ x. Serves v.calls q (x ++ v.rest)) same v.served,
            refl,
          );
        } in
      elim (Bool-cases (get p.available_pieces index)) [
        | inl has ↦ rw has (taken, refl, room)
        | inr lacks ↦ rw lacks (release_piece-IsServed true before q _ taken)
      ]

  acquire-IsOffered : (p : Peer) → IsOffered p → HasRoom p → OnAcquired IsOffered (acquire ctx p)
  unfolding acquire
  acquire-IsOffered p v room = elim (Option-cases p.piece) [
    | inl idle ↦ rw (idle, acquire) (take_work-IsOffered p p.offers refl v room)
    | inr (x, busy) ↦ rw (busy, acquire) (v, busy, room)
  ]

  IsOffered-IsStable : IsStable sha1 ctx IsOffered
  IsOffered-IsStable = record {
    plain = IsServed-IsPlain true before q;
    handles = handle_piece-IsServed true before q sha1 ctx;
    downloads = record {
      acquires = acquire-IsOffered;
      no_block = λ x p v at e. IsServed-same true before q p (after_next x p) refl refl v;
      requests = λ x ptr p r v at room e asked.
          request_block-IsServed true before q sha1 ctx (next_block p.store x).1 ptr
            (after_next x p) r (IsServed-same true before q p (after_next x p) refl refl v) asked;
    };
  }

-- A completion hands a handler only what the queue gives out.
abbrev pub IsFed : List ℕ → Event → Type 0
IsFed q (body_done junk failed buffer offers) = (rest : List ℕ) × (q ≡ offers ++ rest)
IsFed q _ = Unit {0}

-- The queue can serve every handler.
pub step-Serves :
    (sha1 : Bytes → Bytes) (ctx : TorrentContext) (q : List ℕ) (p p' : Peer) (e : Event)
    → IsFed q e
    → step sha1 ctx p e ≡ ok p'
    → (calls : List Effect) × (q' : List ℕ) × (p'.history ≡ calls ++ p.history) × Serves calls q q'
unfolding step
step-Serves sha1 ctx q p p' (body_done junk failed buffer offers) (rest, e) done =
    let loaded : Peer = record p { recv_buffer = buffer; offers = offers } in
    let v =
      body_read-kept sha1 ctx (IsOffered p.history q sha1 ctx)
        (IsOffered-IsStable p.history q sha1 ctx) junk failed loaded p'
        (record { calls = []; rest = rest; grown = refl; served = sym e }) done in
    (v.calls, _, v.grown, v.served)
step-Serves sha1 ctx q p p' e fed done =
    let v =
      quiet_step-kept sha1 ctx (IsServed false p.history q) (IsServed-IsPlain false p.history q) p
        p' e refl (record { calls = []; rest = q; grown = refl; served = refl }) done in
    (v.calls, v.rest, v.grown, v.served)
