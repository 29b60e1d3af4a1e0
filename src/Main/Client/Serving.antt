-- ===== src/Main/Client/Serving.antt =====
-- `Peer` of src/peer.cpp with the work queue of src/main.cpp: a handler can always be served.
pub mod Offers
use picotor.Base.{
  ℕ, ◌≡◌, refl, sym, ap, subst, ◌∙◌, Bool, true, false, List, [], ◌∷◌, ◌++◌, append_assoc, some,
  Bytes, ok, >>=-eq-ok, ok-injective, Bool-cases, Option-cases, inl, inr,
}
use picotor.Stream.{Junk}
use picotor.Common.Bitfield.{get}
use picotor.Common.Hash.{equals}
use picotor.Torrent.Block.{BlockStatus, accepted}
use picotor.Torrent.CompletePiece
use picotor.Torrent.CompletePiece.{CompletePiece}
use picotor.Torrent.Metainfo.{piece_hash}
use picotor.Torrent.Piece.{Piece, new_piece, next_block, accept, is_complete, finalize}
use picotor.Message.Frame.{request, serialize}
use picotor.Result.{piece_complete, peer_connected, peer_dropped, TorrentContext}
use picotor.Peer.State.{
  Peer, Effect, connect, write_handshake, write_message, write_request, read, start_timer,
  close_socket, pop_work, push_work, push_result, emit, release_block, release_piece, timeout_ms,
}
use picotor.Peer.Download.{take_work, acquire, request_block, after_next}
use picotor.Peer.Download.Rule.{OnAcquired, HasRoom}
use picotor.Peer.Handlers.{settle, finish_piece, after_accept, handle_piece}
use picotor.Peer.Run.{Event, step, body_done}
use picotor.Peer.Run.Rule.{
  is_neutral, IsPlain, IsStable, close-kept, quiet_step-kept, body_read-kept, release_block-same,
  release_block-offers,
}
use picotor.Main.Client.{Serves}

-- The offers that are left, where `live` says that they count.
abbrev left : Bool → List ℕ → List ℕ
left true offers = offers
left false offers = []

Serves-neutral :
    (e : Effect) (h : List Effect) (q q' : List ℕ)
    → is_neutral e ≡ true
    → Serves h q q'
    → Serves (e ∷ h) q q'
Serves-neutral (connect _ _) h q q' n s = s
Serves-neutral (write_handshake _) h q q' n s = s
Serves-neutral (write_message _) h q q' n s = s
Serves-neutral (write_request _ _) h q q' n s = s
Serves-neutral (read _ _) h q q' n s = s
Serves-neutral (start_timer _ _) h q q' n s = s
Serves-neutral close_socket h q q' n s = s
Serves-neutral (pop_work _) h q q' n s = cc
Serves-neutral (push_work _) h q q' n s = cc
Serves-neutral (push_result (piece_complete _)) h q q' n s = cc
Serves-neutral (push_result (peer_connected _)) h q q' n s = s
Serves-neutral (push_result (peer_dropped _)) h q q' n s = s

module _ (live : Bool) (before : List Effect) (q : List ℕ) where
  -- Calls were made since `before`, and they lead the queue from `q` to the offers that are left and a rest.
  pub record IsServed (p : Peer) : Type 0 where
    pub calls : List Effect
    pub rest : List ℕ
    pub grown : p.history ≡ calls ++ before
    pub served : Serves calls q (left live p.offers ++ rest)

  pub IsServed-same :
      (p p' : Peer) → p'.history ≡ p.history → p'.offers ≡ p.offers → IsServed p → IsServed p'
  IsServed-same p p' h o v = record {
    calls = v.calls;
    rest = v.rest;
    grown = h ∙ v.grown;
    served = subst (λ x. Serves v.calls q (x ++ v.rest)) (sym (ap (left live) o)) v.served;
  }

  pub emit-IsServed :
      (e : Effect) (p : Peer) → is_neutral e ≡ true → IsServed p → IsServed (emit e p)
  emit-IsServed e p n v = record {
    calls = e ∷ v.calls;
    rest = v.rest;
    grown = ap (λ h. e ∷ h) v.grown;
    served = Serves-neutral e v.calls q (left live p.offers ++ v.rest) n v.served;
  }

  push-IsServed :
      (c : CompletePiece) (p : Peer)
      → IsServed p
      → IsServed (emit (push_result (piece_complete c)) p)
  push-IsServed c p v = record {
    calls = push_result (piece_complete c) ∷ v.calls;
    rest = v.rest;
    grown = ap (λ h. push_result (piece_complete c) ∷ h) v.grown;
    served = v.served;
  }

  pub release_piece-IsServed : (p : Peer) → IsServed p → IsServed (release_piece p)
  unfolding release_piece
  release_piece-IsServed p v = elim (Option-cases p.piece) [
    | inl idle ↦ rw (idle, release_piece) v
    | inr (x, busy) ↦
        rw (busy, release_piece)
          (record {
            calls = push_work x.index ∷ v.calls;
            rest = v.rest ++ x.index ∷ [];
            grown = ap (λ h. push_work x.index ∷ h) v.grown;
            served = (
              left live p.offers ++ v.rest,
              v.served,
              sym (append_assoc (left live p.offers) v.rest (x.index ∷ [])),
            );
          })
  ]

  pub IsServed-IsPlain : IsPlain IsServed
  IsServed-IsPlain = record {
    looks = λ p p' piece history offers fewer. IsServed-same p p' history offers;
    emits = emit-IsServed;
    gives_up = release_piece-IsServed;
  }

  module _ (sha1 : Bytes → Bytes) (ctx : TorrentContext) where
    settle-IsServed :
        (b : Bool) (done : CompletePiece) (x : Piece) (p : Peer)
        → IsServed p
        → IsServed (settle b done x p)
    unfolding settle
    settle-IsServed true done x p v =
        IsServed-same (emit (push_result (piece_complete done)) p) _ refl refl
          (push-IsServed done p v)
    settle-IsServed false done x p v =
        close-kept sha1 ctx IsServed IsServed-IsPlain (record p { piece = some x })
          (IsServed-same p (record p { piece = some x }) refl refl v)

    after_accept-IsServed :
        (junk : Junk) (x : Piece) (status : BlockStatus) (p p' : Peer)
        → IsServed p
        → after_accept junk sha1 ctx x status p ≡ ok p'
        → IsServed p'
    unfolding after_accept finish_piece
    after_accept-IsServed junk x accepted p p' v e = elim (Bool-cases (is_complete p.store x)) [
      | inl complete ↦
          let ((done, x'), _, r1) = >>=-eq-ok (finalize junk p.store x) _ (rw complete at e) in
          let (hash, _, r2) = >>=-eq-ok (CompletePiece.hash sha1 done) _ r1 in
          let (expected, _, r3) = >>=-eq-ok (piece_hash ctx.tor x.index) _ r2 in
          subst IsServed (ok-injective r3) (
            settle-IsServed (equals hash expected) done x' (record p { requests = [] })
              (IsServed-same p (record p { requests = [] }) refl refl v))
      | inr more ↦ subst IsServed (ok-injective (rw more at e)) v
    ]
    after_accept-IsServed junk x _ p p' v e = subst IsServed (ok-injective e) v

    pub handle_piece-IsServed :
        (junk : Junk) (payload : Bytes) (p p' : Peer)
        → IsServed p
        → handle_piece junk sha1 ctx payload p ≡ ok p'
        → IsServed p'
    unfolding handle_piece
    handle_piece-IsServed junk payload p p' v e = elim (Option-cases p.piece) [
      | inl idle ↦ subst IsServed (ok-injective (rw (idle, handle_piece) at e)) v
      | inr (x, busy) ↦
          let ((status, index), store) = accept junk p.store x payload in
          let next : Peer = record p { store = store } in
          let (_, kept, _) = release_block-same index next in
          after_accept-IsServed junk x status (release_block index next) p'
            (IsServed-same p (release_block index next) kept (release_block-offers index next) v)
            (rw (busy, handle_piece) at e)
    ]

    pub request_block-IsServed :
        (x : Piece) (ptr : ℕ) (p r : Peer) → IsServed p → request_block x ptr p ≡ ok r → IsServed r
    unfolding request_block
    request_block-IsServed x ptr p r v e =
        let (bytes, _, done) = >>=-eq-ok (serialize (request x (p.store.cell ptr))) _ e in
        subst IsServed (ok-injective done) (
          emit-IsServed (write_request bytes ptr) _ refl
            (emit-IsServed (start_timer timeout_ms ptr) _ refl (IsServed-same p _ refl refl v)))
