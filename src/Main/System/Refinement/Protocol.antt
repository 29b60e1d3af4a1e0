-- ===== src/Main/System/Refinement/Protocol.antt =====
-- src/main.cpp with src/peer.cpp: every step of the client is one of the protocol.
use picotor.Base.{
  ℕ, ◌+◌, ◌<◌, ◌≡◌, ap, subst, ◌∙◌, [], ◌∷◌, ◌++◌, arith, Bytes, ltb, inl, inr, Bool-cases, ltb→lt,
  ltb→le,
}
use picotor.Torrent.Metainfo.{SingleFileTorrent, pieces}
use picotor.Torrent.Tracker.{TrackerResponse}
use picotor.Result.{TorrentContext}
use picotor.Main.{start_connections}
use picotor.Main.Client.{Move, act, count, held_by_all, completed}
use picotor.Main.System.{
  System, pushed, calls_of, mover, Tick, handle, deliver, Trace, system_of, waiting, pending,
}
use picotor.Main.System.Places.Waiting.{waiting_append, waiting-pushed}
use picotor.Main.System.Places.Accounted.{written, Trace-AreBalanced}
use picotor.Main.System.Places.{one_place}
use picotor.Peer.Run.Conservation.{step-IsBalanced}
use picotor.Main.Client.Counts.{completed_append}
use picotor.Main.Client.Conservation.{AreBalanced, AreBalanced-at, exchange}
use picotor.Main.System.Refinement.{Actor, peer, monitor, store, Runs, stay, go, holder, place}
use picotor.Main.System.Refinement.Holder.{holder-none}
use picotor.Main.System.Refinement.View.{place_of-reported, place_of-stored, own_step}

handle_step :
    (sha1 : Bytes → Bytes) (ctx : TorrentContext) (a r : ℕ) (s t : System)
    (m : Move sha1 ctx s.client t.client)
    → AreBalanced a s.client.peers
    → t.result_queue ≡ s.result_queue ++ pushed (calls_of m)
    → pending a s + r ≡ 1
    → Runs (peer (mover m)) (place s a) (place t a)
unfolding place
handle_step sha1 ctx a r s t (act front back p p' e calls before after done grown served) v q
      total =
    let b = AreBalanced-at a front back p (subst (AreBalanced a) before v) in
    let b' = step-IsBalanced sha1 ctx a p p' e b done in
    let moved = exchange a p p' calls s.client.work_queue t.client.work_queue b b' grown served in
    let w =
      ap (waiting a) q
      ∙ waiting_append a s.result_queue (pushed calls)
      ∙ ap (λ n. waiting a s.result_queue + n) (waiting-pushed a calls) in
    rw (before, after, w)
      (own_step a front back p p' (count a s.client.work_queue) (count a t.client.work_queue)
        (waiting a s.result_queue) (completed a calls) r
        (omega (arith, total, ap (held_by_all a) before))
        (omega (arith, moved, ap (completed a) grown, completed_append a calls p.history)))

deliver_step :
    (a n r : ℕ) (s t : System)
    → t.client ≡ s.client
    → waiting a s.result_queue ≡ n + waiting a t.result_queue
    → pending a s + r ≡ 1
    → Runs monitor (place s a) (place t a)
unfolding place
deliver_step a n r s t same w total =
    let c = count a s.client.work_queue in
    let o = holder a s.client.peers in
    rw same (elim (Bool-cases (ltb 0 n)) [
      | inr none_ ↦
          let e : waiting a t.result_queue ≡ waiting a s.result_queue =
            omega (arith, w, ltb→le 0 n none_) in
          rw e stay
      | inl some_ ↦
          let h = ltb→lt 0 n some_ in
          let empty = holder-none a s.client.peers (omega (arith, w, h, total)) in
          let x =
            place_of-reported c (waiting a s.result_queue) o (omega (arith, w, h, total)) empty
              (omega (arith, w, h)) in
          let y =
            place_of-stored c (waiting a t.result_queue) o (omega (arith, w, h, total)) empty
              (omega (arith, w, h, total)) in
          rw (x, y) (go stay store)
    ])

-- The whole client keeps to the protocol: however its threads interleave, as long as no handler faults,
-- one step has one actor, a peer or the monitor, and each piece of the torrent moves, if it moves, by
-- what that actor may do. So a piece that one peer has is not touched by another, and only a piece
-- that was reported is stored.
pub Tick-Runs :
    (sha1 : Bytes → Bytes) (tor : SingleFileTorrent) (response : TrackerResponse) (clock : ℕ)
    (s t : System)
    → let start = start_connections tor response clock in
      Trace sha1 start.context (system_of start) s
      → Tick sha1 start.context s t
      → (who : Actor) × ((a : ℕ) → a < pieces tor → Runs who (place s a) (place t a))
unfolding start_connections
Tick-Runs sha1 tor response clock s t r (handle m q same) =
    let start = start_connections tor response clock in
    (
      peer (mover m),
      λ a h.
          handle_step sha1 start.context a (written start.context a s) s t m
            (Trace-AreBalanced sha1 tor response clock s a r) q
            (ground (arith, one_place sha1 tor response clock s a r)),
    )
Tick-Runs sha1 tor response clock s t r (deliver clock' y more q m same) =
    let start = start_connections tor response clock in
    (
      monitor,
      λ a h.
          deliver_step a (waiting a (y ∷ [])) (written start.context a s) s t same
            (ap (waiting a) q ∙ waiting_append a (y ∷ []) t.result_queue)
            (ground (arith, one_place sha1 tor response clock s a r)),
    )
