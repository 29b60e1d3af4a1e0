-- ===== src/Main/System/Enabled.antt =====
-- src/main.cpp with src/peer.cpp: no handler faults, and the client can always go on.
use picotor.Base.{
  ℕ, ◌<◌, ◌≤◌, ◌≡◌, refl, sym, subst, ◌∙◌, false, List, [], ◌∷◌, ◌++◌, map, arith, Bytes, All,
  All-at, All-update, All-front, length, ok, ok-injective,
}
use picotor.Common.Address.{Address}
use picotor.Torrent.Block.{new_block}
use picotor.Torrent.Metainfo.{SingleFileTorrent, pieces}
use picotor.Torrent.Tracker.{TrackerResponse}
use picotor.Result.{TorrentContext}
use picotor.Peer.State.{Peer, new_peer}
use picotor.Peer.Run.{Event, body_done, request_done, step}
use picotor.Peer.Run.Safe.{IsSafe}
use picotor.Peer.Run.Handling.{IsRegular, IsExpected, Succeeds}
use picotor.Peer.Run.Safety.{step-Succeeds}
use picotor.Main.{start_connections}
use picotor.Main.Client.{Client, Move, act, count}
use picotor.Main.Client.Serving.Offers.{IsFed, step-Serves}
use picotor.Main.System.{
  System, pushed, event_of, Tick, handle, deliver, Trace, here, next, system_of,
}
use picotor.Main.System.Places.{one_place}

-- What a completion brings in a client whose work queue is `q`: the body of a message is not empty, a pop
-- gives what the queue gives out, and no request fails to be written.
abbrev pub IsFeasible : List ℕ → Event → Type 0
IsFeasible q (body_done junk failed buffer offers) =
    (0 < length buffer) × IsFed q (body_done junk failed buffer offers)
IsFeasible q (request_done failed block) = failed ≡ false
IsFeasible q _ = Unit {0}

module _ {sha1 : Bytes → Bytes} {ctx : TorrentContext} {s : System} where
  abbrev pub AreFeasible : {t : System} → Trace sha1 ctx s t → Type 0
  AreFeasible here = Unit {0}
  AreFeasible (next {t = t} r (handle m _ _)) =
      AreFeasible r × IsFeasible t.client.work_queue (event_of m)
  AreFeasible (next r (deliver _ _ _ _ _ _)) = AreFeasible r

All_below : (n : ℕ) (xs : List ℕ) → ((a : ℕ) → 0 < count a xs → a < n) → All (λ a. a < n) xs
All_below n [] known = tt
All_below n (x ∷ xs) known = (known x (ground arith), All_below n xs λ a h. known a (ground arith))

IsFeasible-IsExpected :
    (ctx : TorrentContext) (q : List ℕ) (e : Event)
    → All (λ a. a < length ctx.tor.piece_hashes) q
    → IsFeasible q e
    → IsExpected ctx e
IsFeasible-IsExpected ctx q (body_done junk failed buffer offers) known (full, (rest, e)) =
    (full, All-front (λ a. a < length ctx.tor.piece_hashes) offers rest (subst (All _) e known))
IsFeasible-IsExpected ctx q (request_done failed block) known f = f
IsFeasible-IsExpected ctx q _ known f = tt

IsFeasible-IsFed : (q : List ℕ) (e : Event) → IsFeasible q e → IsFed q e
IsFeasible-IsFed q (body_done junk failed buffer offers) (full, fed) = fed
IsFeasible-IsFed q _ f = tt

module _ (sha1 : Bytes → Bytes) (tor : SingleFileTorrent) (response : TrackerResponse) (clock : ℕ)
    (g : IsRegular sha1 (start_connections tor response clock).context)
    (hashed : pieces tor ≤ length tor.piece_hashes) where
  -- The work queue gives out pieces of the torrent only.
  queue-below :
      (s : System)
      → let start = start_connections tor response clock in
        Trace sha1 start.context (system_of start) s
        → All (λ a. a < length tor.piece_hashes) s.client.work_queue
  queue-below s r =
      All_below (length tor.piece_hashes) s.client.work_queue
        λ a h. ground (arith, one_place sha1 tor response clock s a r, hashed)

  step-IsSafe :
      (s : System) (p : Peer) (e : Event)
      → let start = start_connections tor response clock in
        Trace sha1 start.context (system_of start) s
        → IsFeasible s.client.work_queue e
        → IsSafe start.context p
        → Succeeds sha1 start.context g (step sha1 start.context p e)
  unfolding start_connections
  step-IsSafe s p e r f v =
      let ctx = (start_connections tor response clock).context in
      step-Succeeds sha1 ctx g p e
        (IsFeasible-IsExpected ctx s.client.work_queue e (queue-below s r) f) v

  start-IsSafe :
      (xs : List Address)
      → All (IsSafe (start_connections tor response clock).context) (map new_peer xs)
  unfolding new_peer new_block
  start-IsSafe [] = tt
  start-IsSafe (x ∷ xs) = ((tt, (λ ptr. omega arith), tt), start-IsSafe xs)

  Move-IsSafe :
      (s : System) (d : Client)
      → let start = start_connections tor response clock in
        Trace sha1 start.context (system_of start) s
        → (m : Move sha1 start.context s.client d) → IsFeasible s.client.work_queue (event_of m)
        → All (IsSafe start.context) s.client.peers
        → All (IsSafe start.context) d.peers
  Move-IsSafe s d r (act front back p p' e calls before after done grown served) f v =
      let ctx = (start_connections tor response clock).context in
      let w = subst (All (IsSafe ctx)) before v in
      let (p1, e1, v1) = step-IsSafe s p e r f (All-at (IsSafe ctx) front back p w) in
      let v' = subst (IsSafe ctx) (ok-injective (sym e1 ∙ done)) v1 in
      subst (All (IsSafe ctx)) (sym after) (All-update (IsSafe ctx) front back p p' w v')

  Trace-IsSafe :
      (s : System)
      → let start = start_connections tor response clock in
        (r : Trace sha1 start.context (system_of start) s)
        → AreFeasible r
        → All (IsSafe start.context) s.client.peers
  unfolding start_connections
  Trace-IsSafe s here f = start-IsSafe response.peers
  Trace-IsSafe s (next {t = x} r (handle m q same)) (f, now) =
      Move-IsSafe x s.client r m now (Trace-IsSafe x r f)
  Trace-IsSafe s (next {t = x} r (deliver clock' y more q m same)) f =
      let ctx = (start_connections tor response clock).context in
      subst (λ (c : Client). All (IsSafe ctx) c.peers) (sym same) (Trace-IsSafe x r f)

-- For a torrent whose pieces are whole blocks and have a hash each, and a SHA-1 that gives digests: in
-- every state that the client reaches with completions that bring no empty body and no request that
-- fails to be written, however its threads interleave, and whatever the peers send, another such
-- completion at any peer is handled without a fault, with a step of the whole client.
pub handler_enabled :
    (sha1 : Bytes → Bytes) (tor : SingleFileTorrent) (response : TrackerResponse) (clock : ℕ)
    (s : System) (front back : List Peer) (p : Peer) (e : Event)
    → let start = start_connections tor response clock in
      IsRegular sha1 start.context
      → pieces tor ≤ length tor.piece_hashes
      → (r : Trace sha1 start.context (system_of start) s) → AreFeasible r
      → s.client.peers ≡ front ++ p ∷ back
      → IsFeasible s.client.work_queue e
      → (p' : Peer) × (t : System) × (step sha1 start.context p e ≡ ok p')
        × (t.client.peers ≡ front ++ p' ∷ back)
        × Tick sha1 start.context s t
handler_enabled sha1 tor response clock s front back p e g hashed r f at now =
    let ctx = (start_connections tor response clock).context in
    let v =
      All-at (IsSafe ctx) front back p
        (subst (All (IsSafe ctx)) at (Trace-IsSafe sha1 tor response clock g hashed s r f)) in
    let (p', done, _) = step-IsSafe sha1 tor response clock g hashed s p e r now v in
    let (calls, q', grown, served) =
      step-Serves sha1 ctx s.client.work_queue p p' e (IsFeasible-IsFed s.client.work_queue e now)
        done in
    let t : System = record {
      client = record { work_queue = q'; peers = front ++ p' ∷ back };
      result_queue = s.result_queue ++ pushed calls;
      monitor = s.monitor;
    } in
    (p', t, done, refl, handle (act front back p p' e calls at refl done grown served) refl refl)
