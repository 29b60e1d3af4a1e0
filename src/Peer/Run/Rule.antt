-- ===== src/Peer/Run/Rule.antt =====
-- `Peer` of src/peer.cpp: what is to be shown of a property for every sequence of completions to keep it.
use picotor.Base.{
  ℕ, ◌≡◌, refl, subst, Bool, true, false, ◌==◌, List, [], ◌∷◌, Option, none, some, Bytes, ok,
  >>=-eq-ok, ok-injective, Bool-cases, Option-cases, fault-ne-ok, inl, inr, arith,
}
use picotor.Base.{length, ◌≤◌}
use picotor.Peer.State.{erase}
use picotor.Stream.{Junk}
use picotor.Common.Words.{load32, swap32}
use picotor.Message.Handshake
use picotor.Message.Kind
use picotor.Message.Kind.{MessageType}
use picotor.Message.Frame
use picotor.Message.Frame.{Message, interested, serialize}
use picotor.Torrent.Block.{block_index}
use picotor.Result.{piece_complete, TorrentContext}
use picotor.Peer.State.{
  Peer, Effect, pop_work, push_work, push_result, emit, release_block, release_piece, close,
}
use picotor.Peer.Download.{async_download}
use picotor.Peer.Download.Rule.{IsKept, async_download-kept}
use picotor.Peer.Handlers.{
  async_handshake_write, async_handshake_read, async_read_message, async_next, async_read_len,
  handle_piece, download_fuel, dispatch, handle_kind, async_handle_message, body_read,
  block_timeout, request_written,
}
use picotor.Peer.Run.{
  Event, connected, handshake_written, handshake_read, length_read, body_done, timer_expired,
  request_done, step, run,
}

-- Calls that are about no piece.
abbrev pub is_neutral : Effect → Bool
is_neutral (pop_work _) = false
is_neutral (push_work _) = false
is_neutral (push_result (piece_complete _)) = false
is_neutral _ = true

-- Every completion but that of the read of a body.
abbrev pub is_quiet : Event → Bool
is_quiet (body_done junk failed buffer offers) = false
is_quiet _ = true

-- What the handlers of the other completions do keeps a property.
pub record IsPlain (P : Peer → Type 0) : Type 0 where
  pub looks :
      (p p' : Peer)
      → p'.piece ≡ p.piece
      → p'.history ≡ p.history
      → p'.offers ≡ p.offers
      → length p'.requests ≤ length p.requests
      → P p
      → P p'
  pub emits : (e : Effect) (p : Peer) → is_neutral e ≡ true → P p → P (emit e p)
  pub gives_up : (p : Peer) → P p → P (release_piece p)

-- The handler of a body keeps it too.
pub record IsStable (sha1 : Bytes → Bytes) (ctx : TorrentContext) (P : Peer → Type 0) : Type 0 where
  pub plain : IsPlain P
  pub handles :
      (junk : Junk) (payload : Bytes) (p p' : Peer)
      → P p
      → handle_piece junk sha1 ctx payload p ≡ ok p'
      → P p'
  pub downloads : IsKept ctx P

-- And it does not depend on what the work queue gives out.
pub record IsInvariant (sha1 : Bytes → Bytes) (ctx : TorrentContext) (P : Peer → Type 0)
    : Type 0 where
  pub stable : IsStable sha1 ctx P
  pub loads : (p : Peer) (offers : List ℕ) → P p → P (record p { offers = offers })

length-erase : (index : ℕ) (m : List (ℕ × ℕ)) → length (erase index m) ≤ length m
unfolding erase
length-erase index [] = omega arith
length-erase index ((j, v) ∷ m) = ground (arith, length-erase index m)

pub release_block-same :
    (index : ℕ) (p : Peer)
    → ((release_block index p).piece ≡ p.piece)
      × ((release_block index p).history ≡ p.history)
      × (length (release_block index p).requests ≤ length p.requests)
unfolding release_block
release_block-same index p = ground (arith, length-erase index p.requests)

pub release_block-offers : (index : ℕ) (p : Peer) → (release_block index p).offers ≡ p.offers
unfolding release_block
release_block-offers index p = ground arith

module _ (sha1 : Bytes → Bytes) (ctx : TorrentContext) (P : Peer → Type 0) (k : IsPlain P) where
  pub close-kept : (p : Peer) → P p → P (close p)
  unfolding close
  close-kept p v = k.emits _ _ refl (
      k.emits _ _ refl
        (k.gives_up _ (k.looks p (record p { closed = true }) refl refl refl (omega arith) v)))

  pub quiet_step-kept :
      (p p' : Peer) (e : Event) → is_quiet e ≡ true → P p → step sha1 ctx p e ≡ ok p' → P p'
  unfolding step async_handshake_write async_handshake_read async_next async_read_len
      async_read_message block_timeout request_written
  quiet_step-kept p p' (connected true) z v e = subst P (ok-injective e) (close-kept p v)
  quiet_step-kept p p' (connected false) z v e = subst P (ok-injective e) (k.emits _ p refl v)
  quiet_step-kept p p' (handshake_written true) z v e = subst P (ok-injective e) (close-kept p v)
  quiet_step-kept p p' (handshake_written false) z v e =
      subst P (ok-injective e) (k.emits _ p refl v)
  quiet_step-kept p p' (handshake_read junk true buffer) z v e =
      subst P (ok-injective e) (
        close-kept _ (k.looks p (record p { recv_buffer = buffer }) refl refl refl (omega arith) v))
  quiet_step-kept p p' (handshake_read junk false buffer) z v e =
      let (bytes, _, r) = >>=-eq-ok (serialize interested) _ e in
      subst P (ok-injective r) (
        k.emits _ _ refl (
          k.emits _ _ refl (
            k.emits _ _ refl (
              k.looks p
                (record p { recv_buffer = buffer; peer_id = (Handshake.parse junk buffer).peer_id })
                refl refl refl (omega arith) v))))
  quiet_step-kept p p' (length_read true buffer) z v e =
      subst P (ok-injective e) (
        close-kept _ (k.looks p (record p { recv_buffer = buffer }) refl refl refl (omega arith) v))
  quiet_step-kept p p' (length_read false buffer) z v e =
      let w = k.looks p (record p { recv_buffer = buffer }) refl refl refl (omega arith) v in
      elim (Bool-cases (swap32 (load32 buffer) == 0)) [
        | inl alive ↦ subst P (ok-injective (rw alive at e)) (k.emits _ _ refl w)
        | inr more ↦ subst P (ok-injective (rw more at e)) (k.emits _ _ refl w)
      ]
  quiet_step-kept p p' (body_done junk failed buffer offers) z v e = cc
  quiet_step-kept p p' (timer_expired true block) z v e = subst P (ok-injective e) v
  quiet_step-kept p p' (timer_expired false block) z v e =
      elim (Bool-cases (p.store.cell block).filled) [
        | inl got ↦ subst P (ok-injective (rw got at e)) v
        | inr late ↦
            subst P (ok-injective (rw late at e))
              (close-kept _ (k.looks p (record p { closed = true }) refl refl refl (omega arith) v))
      ]
  quiet_step-kept p p' (request_done false block) z v e = subst P (ok-injective e) v
  quiet_step-kept p p' (request_done true block) z v e = elim (Option-cases p.piece) [
    | inl idle ↦ absurd (fault-ne-ok (rw idle at e))
    | inr (q, found) ↦
        let (same, kept, fewer) = release_block-same (block_index (p.store.cell block)) p in
        subst P (ok-injective (rw found at e))
          (k.looks p _ same kept (release_block-offers _ p) fewer v)
  ]

module _ (sha1 : Bytes → Bytes) (ctx : TorrentContext) (P : Peer → Type 0)
    (k : IsStable sha1 ctx P) where
  dispatch-kept :
      (junk : Junk) (t : MessageType) (payload : Bytes) (p p' : Peer)
      → P p
      → dispatch junk sha1 ctx t payload p ≡ ok p'
      → P p'
  unfolding dispatch
  dispatch-kept junk Kind.piece payload p p' v e = k.handles junk payload p p' v e
  dispatch-kept junk Kind.choke payload p p' v e =
      subst P (ok-injective e) (k.plain.looks p _ refl refl refl (omega arith) v)
  dispatch-kept junk Kind.unchoke payload p p' v e =
      subst P (ok-injective e) (k.plain.looks p _ refl refl refl (omega arith) v)
  dispatch-kept junk Kind.bitfield payload p p' v e =
      subst P (ok-injective e) (k.plain.looks p _ refl refl refl (omega arith) v)
  dispatch-kept junk _ payload p p' v e = subst P (ok-injective e) v

  handle_kind-kept :
      (junk : Junk) (o : Option MessageType) (payload : Bytes) (p p' : Peer)
      → P p
      → handle_kind junk sha1 ctx o payload p ≡ ok p'
      → P p'
  unfolding handle_kind async_read_message
  handle_kind-kept junk none payload p p' v e = subst P (ok-injective e) v
  handle_kind-kept junk (some t) payload p p' v e =
      let (p1, e1, r1) = >>=-eq-ok (dispatch junk sha1 ctx t payload p) _ e in
      let (p2, e2, r2) = >>=-eq-ok (async_download ctx (download_fuel ctx) p1) _ r1 in
      subst P (ok-injective r2) (
        k.plain.emits _ p2 refl (
          async_download-kept ctx P k.downloads (download_fuel ctx) p1 p2 e2
            (dispatch-kept junk t payload p p1 v e1)))

  pub body_read-kept :
      (junk : Junk) (failed : Bool) (p p' : Peer)
      → P p
      → body_read junk sha1 ctx failed p ≡ ok p'
      → P p'
  unfolding body_read async_handle_message
  body_read-kept junk true p p' v e = subst P (ok-injective e) (k.plain.gives_up p v)
  body_read-kept junk false p p' v e =
      let (msg, _, r) = >>=-eq-ok (Frame.parse p.recv_buffer) _ e in
      handle_kind-kept junk msg.kind msg.payload p p' v r

module _ (sha1 : Bytes → Bytes) (ctx : TorrentContext) (P : Peer → Type 0)
    (k : IsInvariant sha1 ctx P) where
  pub step-kept : (p p' : Peer) (e : Event) → P p → step sha1 ctx p e ≡ ok p' → P p'
  unfolding step
  step-kept p p' (body_done junk failed buffer offers) v e =
      let loaded =
        k.loads (record p { recv_buffer = buffer }) offers
          (k.stable.plain.looks p (record p { recv_buffer = buffer }) refl refl refl (omega arith)
            v) in
      body_read-kept sha1 ctx P k.stable junk failed
        (record p { recv_buffer = buffer; offers = offers }) p' loaded e
  step-kept p p' e v done = quiet_step-kept sha1 ctx P k.stable.plain p p' e refl v done

  pub run-kept : (p p' : Peer) (es : List Event) → P p → run sha1 ctx p es ≡ ok p' → P p'
  unfolding run
  run-kept p p' [] v e = subst P (ok-injective e) v
  run-kept p p' (x ∷ es) v e =
      let (q, first, rest) = >>=-eq-ok (step sha1 ctx p x) _ e in
      run-kept q p' es (step-kept p q x v first) rest
