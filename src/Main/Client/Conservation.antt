-- ===== src/Main/Client/Conservation.antt =====
-- src/main.cpp with src/peer.cpp: where each piece is, over all peers and the work queue.
use picotor.Base.{
  ℕ, zero, suc, ◌+◌, ◌≡◌, refl, sym, ap, subst, ◌∙◌, ◌&&◌, List, [], ◌∷◌, ◌++◌, map, arith, Bytes,
  ltb, leb, if◌then◌else◌,
}
use picotor.Common.Address.{Address}
use picotor.Torrent.Metainfo.{SingleFileTorrent, pieces}
use picotor.Torrent.Tracker.{TrackerResponse}
use picotor.Result.{TorrentContext}
use picotor.Peer.State.{Peer, Effect, new_peer}
use picotor.Peer.Run.Ownership.{taken, given, held, IsBalanced}
use picotor.Peer.Run.Conservation.{step-IsBalanced}
use picotor.Monitor.{push_all}
use picotor.Main.{start_connections}
use picotor.Main.Client.{
  Serves, Client, Move, act, Reach, here, next, count, completed, held_by_all, completed_by_all,
  client_of, places,
}
use picotor.Main.Client.Counts.{
  count_append, given-parts, taken_append, given_append, Serves-count, completed_append,
}

abbrev pub AreBalanced : ℕ → List Peer → Type 0
AreBalanced a [] = Unit {0}
AreBalanced a (p ∷ ps) = IsBalanced a p × AreBalanced a ps

pub AreBalanced-at :
    (a : ℕ) (front back : List Peer) (p : Peer) → AreBalanced a (front ++ p ∷ back) → IsBalanced a p
AreBalanced-at a [] back p v = v.0
AreBalanced-at a (x ∷ front) back p v = AreBalanced-at a front back p v.1

AreBalanced-update :
    (a : ℕ) (front back : List Peer) (p p' : Peer)
    → AreBalanced a (front ++ p ∷ back)
    → IsBalanced a p'
    → AreBalanced a (front ++ p' ∷ back)
AreBalanced-update a [] back p p' v b = (b, v.1)
AreBalanced-update a (x ∷ front) back p p' v b = (v.0, AreBalanced-update a front back p p' v.1 b)

abbrev share : ℕ → Peer → ℕ
share a p = held a p + completed a p.history

abbrev shares : ℕ → List Peer → ℕ
shares a ps = held_by_all a ps + completed_by_all a ps

shares-update :
    (a : ℕ) (front back : List Peer) (p p' : Peer)
    → shares a (front ++ p' ∷ back) + share a p ≡ shares a (front ++ p ∷ back) + share a p'
shares-update a [] back p p' = omega arith
shares-update a (x ∷ front) back p p' = omega (arith, shares-update a front back p p')

-- What one handler does to the places of a piece.
pub exchange :
    (a : ℕ) (p p' : Peer) (calls : List Effect) (q q' : List ℕ)
    → IsBalanced a p
    → IsBalanced a p'
    → p'.history ≡ calls ++ p.history
    → Serves calls q q'
    → count a q' + share a p' ≡ count a q + share a p
exchange a p p' calls q q' v v' e s = omega (
  arith,
  v.1,
  v'.1,
  ap (taken a) e,
  ap (given a) e,
  ap (completed a) e,
  taken_append a calls p.history,
  given_append a calls p.history,
  completed_append a calls p.history,
  given-parts a calls,
  Serves-count a calls q q' s,
)

pub count-push_all :
    (a n i : ℕ) (xs : List ℕ)
    → count a (push_all n i xs) ≡ count a xs + (if leb i a && ltb a (i + n) then 1 else 0)
unfolding push_all
count-push_all a zero i xs = ground arith
count-push_all a (suc n) i xs =
    ground (arith, count-push_all a n (i + 1) (xs ++ i ∷ []), count_append a xs (i ∷ []))

pub start-AreBalanced : (a : ℕ) (xs : List Address) → AreBalanced a (map new_peer xs)
unfolding new_peer
start-AreBalanced a [] = tt
start-AreBalanced a (x ∷ xs) = ((tt, refl), start-AreBalanced a xs)

start-shares : (a : ℕ) (xs : List Address) → shares a (map new_peer xs) ≡ 0
unfolding new_peer
start-shares a [] = refl
start-shares a (x ∷ xs) = omega (arith, start-shares a xs)

module _ (sha1 : Bytes → Bytes) (ctx : TorrentContext) (a : ℕ) where
  pub Move-kept :
      (c d : Client)
      → Move sha1 ctx c d
      → AreBalanced a c.peers
      → AreBalanced a d.peers × (places a d ≡ places a c)
  Move-kept c d (act front back p p' e calls before after done grown served) v =
      let w = subst (AreBalanced a) before v in
      let b = AreBalanced-at a front back p w in
      let b' = step-IsBalanced sha1 ctx a p p' e b done in
      (
        subst (AreBalanced a) (sym after) (AreBalanced-update a front back p p' w b'),
        omega (
          arith,
          exchange a p p' calls c.work_queue d.work_queue b b' grown served,
          shares-update a front back p p',
          ap (shares a) before,
          ap (shares a) after,
        ),
      )

  pub Reach-kept :
      (c d : Client)
      → Reach sha1 ctx c d
      → AreBalanced a c.peers
      → AreBalanced a d.peers × (places a d ≡ places a c)
  Reach-kept c d here v = (v, refl)
  Reach-kept c d (next {d = x} r m) v =
      let (w, e) = Reach-kept c x r v in let (w', e') = Move-kept x d m w in (w', e' ∙ e)

-- However the completions of the peers interleave, as long as no handler faults: each piece of the torrent is in exactly one place,
-- in the work queue, at one peer, or reported complete once; and no other index is anywhere.
pub places-start :
    (sha1 : Bytes → Bytes) (tor : SingleFileTorrent) (response : TrackerResponse) (clock : ℕ)
    (c : Client) (a : ℕ)
    → let start = start_connections tor response clock in
      Reach sha1 start.context (client_of start) c
      → places a c ≡ (if ltb a (pieces tor) then 1 else 0)
unfolding start_connections
places-start sha1 tor response clock c a r =
    (Reach-kept sha1 (start_connections tor response clock).context a
      (client_of (start_connections tor response clock)) c r (start-AreBalanced a response.peers)).1
    ∙ ground (arith, count-push_all a (pieces tor) 0 [], start-shares a response.peers)
