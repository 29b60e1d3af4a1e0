-- ===== src/Main/System/Download/Fetched.antt =====
-- src/main.cpp with src/peer.cpp: a peer that has every piece answers a request.
use picotor.Base.{
  ℕ, zero, suc, ◌*◌, ◌<◌, ◌≤◌, ◌≡◌, refl, sym, ap, subst, ◌∙◌, true, false, List, [], ◌∷◌,
  length-take, length-drop, drop, arith, Bytes, length, ok, inl, inr, ◌⊎◌, none,
}
use picotor.Stream.{Junk}
use picotor.Common.Words.{u32_mod}
use picotor.Common.Bitfield.{Bitfield, get}
use picotor.Torrent.Metainfo.{SingleFileTorrent, pieces}
use picotor.Torrent.Tracker.{TrackerResponse}
use picotor.Torrent.Piece.{new_piece}
use picotor.Result.{TorrentContext}
use picotor.Peer.State.{Peer, length_word, body}
use picotor.Peer.Handlers.{async_read_message, handle_piece, download_fuel}
use picotor.Peer.Download.{async_download}
use picotor.Peer.Run.{Event}
use picotor.Peer.Run.Orderly.{reading, ended}
use picotor.Peer.Run.Honest.Field.{HasField, handle_piece-HasField}
use picotor.Peer.Run.Honest.Fetching.{Fetches}
use picotor.Peer.Run.Honest.Finish.{heard, received, step-piece}
use picotor.Peer.Run.Honest.Fetch.{answer_wanted, taken, taken-IsFetching, download-taken}
use picotor.Peer.Run.Honest.Tally.{IsTallied}
use picotor.Peer.Run.Honest.Turn.{IsBusy, fetch_more, end_idle}
use picotor.Monitor.Place.{IsSmall, piece_end}
use picotor.Monitor.Integrity.{slice}
use picotor.Main.{start_connections}
use picotor.Main.Client.{count, completed, completed_by_all}
use picotor.Main.System.{System, system_of}
use picotor.Main.System.Places.{one_place}
use picotor.Main.System.Places.Accounted.{Trace-IsAccounted}
use picotor.Main.System.Download.{reported, Stage, IsLater, IsPublished}
use picotor.Main.System.Download.Receives.{message, receives}

-- A piece of the text has its size.
pub length-slice :
    (tor : SingleFileTorrent) (text : Bytes) (a : ℕ)
    → IsSmall tor
    → length text ≡ tor.file_length
    → a < pieces tor
    → length (slice tor a text) ≡ tor.piece_length
length-slice tor text a d size less = omega (
  arith,
  size,
  piece_end tor d a less,
  length-take tor.piece_length (drop (a * tor.piece_length) text),
  length-drop (a * tor.piece_length) text,
)

pub le_mul : (a k : ℕ) → 0 < k → a ≤ a * k
le_mul zero k h = omega arith
le_mul (suc a) k h = omega (arith, le_mul a k h)

module _ (sha1 : Bytes → Bytes) (tor : SingleFileTorrent) (response : TrackerResponse) (clock : ℕ)
    (text : Bytes) (junk : Junk) (g : IsPublished sha1 tor text) (back : List Peer)
    (field : Bitfield) (has_all : (a : ℕ) → a < pieces tor → get field a ≡ true) where
  abbrev ctx : TorrentContext
  ctx = (start_connections tor response clock).context

  abbrev start : System
  start = system_of (start_connections tor response clock)

  -- The first peer fetches piece `a`, and has at least `n` blocks of it.
  pub record IsAt (s : System) (p : Peer) (done : List Event) (a n : ℕ) : Type 0 where
    pub stage : Stage sha1 ctx start s p back done
    pub busy : IsBusy (slice tor a text) a n field done p
    pub inside : a < pieces tor

  -- What a peer without a piece is left with that reported one.
  record IsDone (queue : List ℕ) (done : List Event) (a : ℕ) (p p1 : Peer) : Type 0 where
    idle : p1.piece ≡ none
    free : p1.requests ≡ []
    offered : p1.offers ≡ queue
    has_field : HasField field false p1
    tally :
        IsTallied
          (suc (ended (reading length_word) done))
          (suc (ended (reading body) done))
          a
          1
          p1.history

  pub part-small :
      (a : ℕ)
      → a < pieces tor
      → (length (slice tor a text) < u32_mod) × (a < u32_mod) × (0 < length (slice tor a text))
  part-small a less =
      let long = length-slice tor text a g.fits g.size less in
      let end = piece_end tor g.fits a less in
      let low = le_mul a tor.piece_length g.fits.positive in
      (
        omega (arith, long, end, g.fits.small),
        omega (arith, low, end, g.fits.small, g.fits.positive),
        omega (arith, long, g.fits.positive),
      )

  reported_of :
      (t : System) (r : Peer) (done : List Event) (a : ℕ)
      → Stage sha1 ctx start t r back done
      → 1 ≤ completed a r.history
      → 0 < reported ctx t a
  reported_of t r done a stage told = omega (
    arith,
    told,
    ap (completed_by_all a) stage.at,
    (Trace-IsAccounted sha1 tor response clock t a stage.trace).0,
  )

  -- The next state, when the handler has left `p1` before the download goes on.
  goes_on :
      (s : System) (p : Peer) (done : List Event) (payload : Bytes) (a b n k : ℕ) (p1 p1' : Peer)
      → Stage sha1 ctx start s p back done
      → IsTallied (suc (ended (reading length_word) done)) (ended (reading body) done) 0 0 p.history
      → length (7 ∷ payload) < u32_mod
      → b < pieces tor
      → handle_piece junk sha1 ctx payload (received (7 ∷ payload) s.client.work_queue p) ≡ ok p1
      → async_download ctx (download_fuel ctx) p1 ≡ async_download ctx (download_fuel ctx) p1'
      → Fetches (slice tor b text) b n p1'
      → HasField field false p1'
      → IsTallied
          (suc (ended (reading length_word) done))
          (suc (ended (reading body) done))
          a
          k
          p1'.history
      → (t : System) × (r : Peer) × (es : List Event) × IsLater s t
        × IsAt t r es b n
        × (k ≤ completed a r.history)
  unfolding start_connections
  goes_on s p done payload a b n k p1 p1' stage waits short less ran same f has tally =
      let queue = s.client.work_queue in
      let (small, _, _) = part-small b less in
      let (p2, e, f2, stops, has2, (c, d, open_, size, told)) =
        fetch_more sha1 ctx _ _ a k (slice tor b text) b n field p1' small
          (length-slice tor text b g.fits g.size less) f has tally in
      let r = async_read_message p2 in
      let (t, stage', later_) =
        receives sha1 ctx start back s p r done 0 0 junk (7 ∷ payload) stage waits (omega arith)
          short
          (step-piece sha1 ctx junk payload queue (heard (length (7 ∷ payload)) p) p1 p2 ran
            (same ∙ e)) in
      (
        t,
        r,
        message junk (7 ∷ payload) queue done,
        later_,
        record {
          stage = stage';
          busy = record {
            fetches = f2;
            stops = stops;
            has_field = has2;
            waits = (c, d, open_, size, omega arith);
          };
          inside = less;
        },
        told,
      )

  -- The peer is free, and the queue gives out another piece or nothing.
  next_piece :
      (s : System) (p : Peer) (done : List Event) (payload : Bytes) (a : ℕ) (p1 : Peer)
      (queue : List ℕ)
      → Stage sha1 ctx start s p back done
      → IsTallied (suc (ended (reading length_word) done)) (ended (reading body) done) 0 0 p.history
      → length (7 ∷ payload) < u32_mod
      → handle_piece junk sha1 ctx payload (received (7 ∷ payload) s.client.work_queue p) ≡ ok p1
      → IsDone queue done a p p1
      → s.client.work_queue ≡ queue
      → (t : System) × IsLater s t
        × (0 < reported ctx t a)
        × (((r : Peer) × (es : List Event) × (Stage sha1 ctx start t r back es) × (queue ≡ []))
            ⊎ ((r : Peer) × (es : List Event) × (b : ℕ) × IsAt t r es b 0))
  unfolding start_connections
  next_piece s p done payload a p1 [] stage waits short ran d q =
      let (p2, e, (_, _, _, _, told)) = end_idle sha1 ctx _ _ a 1 p1 d.idle d.tally in
      let r = async_read_message p2 in
      let (t, stage', later_) =
        receives sha1 ctx start back s p r done 0 0 junk (7 ∷ payload) stage waits (omega arith)
          short
          (step-piece sha1 ctx junk payload s.client.work_queue (heard (length (7 ∷ payload)) p) p1
            p2 ran e) in
      (
        t,
        later_,
        reported_of t r _ a stage' told,
        inl (r, message junk (7 ∷ payload) s.client.work_queue done, stage', refl),
      )
  next_piece s p done payload a p1 (b ∷ rest) stage waits short ran d q =
      let less : b < pieces tor =
        ground (arith, one_place sha1 tor response clock s b stage.trace, ap (count b) q) in
      let (_, low, long) = part-small b less in
      let sized = length-slice tor text b g.fits g.size less in
      let has = ap (λ f. get f b) d.has_field.0 ∙ has_all b less in
      let p1' = taken ctx (slice tor b text) b rest sized p1 in
      let f =
        taken-IsFetching ctx (slice tor b text) b rest sized p1 long low d.free d.has_field.1 has in
      let same =
        download-taken ctx (slice tor b text) b rest sized p1 d.idle d.free d.offered d.has_field.1
          has in
      let (t, r, es, later_, at, told) =
        goes_on s p done payload a b 0 1 p1 p1' stage waits short less ran same
          (new_piece b tor.piece_length, f) d.has_field d.tally in
      (t, later_, reported_of t r es a at.stage told, inr (r, es, b, at))

  -- One answer: the piece has a block more, or it is reported.
  pub answered :
      (s : System) (p : Peer) (done : List Event) (a n : ℕ)
      → IsAt s p done a n
      → (t : System) × IsLater s t
        × (((r : Peer) × (es : List Event) × IsAt t r es a (suc n))
            ⊎ ((0 < reported ctx t a)
                × (((r : Peer) × (es : List Event) × (Stage sha1 ctx start t r back es)
                      × (s.client.work_queue ≡ []))
                    ⊎ ((r : Peer) × (es : List Event) × (b : ℕ) × IsAt t r es b 0))))
  unfolding start_connections
  answered s p done a n at =
      let queue = s.client.work_queue in
      let (q, f) = at.busy.fetches in
      let (c, d, open_, size, _) = at.busy.waits in
      let (h, digest, listed) = g.hashed a at.inside in
      let (small, _, _) = part-small a at.inside in
      let (payload, p1, short, ran, out) =
        answer_wanted sha1 ctx junk (slice tor a text) a h small digest listed n q p queue f
          at.busy.stops in
      let has =
        handle_piece-HasField field false sha1 ctx junk payload (received (7 ∷ payload) queue p) p1
          at.busy.has_field ran in
      elim out [
        | inl (f1, told) ↦
            let tally =
              subst (IsTallied _ _ a 0) (sym told) (c, ap suc d, open_, size, omega arith) in
            let (t, r, es, later_, at', _) =
              goes_on s p done payload a a (suc n) 0 p1 p1 at.stage at.busy.waits short at.inside
                ran refl (q, f1) has tally in
            (t, later_, inl (r, es, at'))
        | inr (idle, free, told, offered) ↦
            let tally =
              subst (IsTallied _ _ a 1) (sym told) (c, ap suc d, open_, size, ground arith) in
            let (t, later_, done_, more) =
              next_piece s p done payload a p1 queue at.stage at.busy.waits short ran
                (record {
                  idle = idle;
                  free = free;
                  offered = offered;
                  has_field = has;
                  tally = tally;
                })
                refl in
            (t, later_, inr (done_, more))
      ]
