-- ===== src/Main/System/Download/Started.antt =====
-- src/main.cpp with src/peer.cpp: from the start to the end of a download.
use picotor.Base.{
  ℕ, suc, ◌+◌, ◌/◌, ◌<◌, ◌≡◌, refl, sym, ap, ◌∙◌, true, false, List, [], ◌∷◌, map, none, arith,
  Bytes, length, length-replicate, replicate,
}
use picotor.Stream.{Junk}
use picotor.Common.Address.{Address}
use picotor.Common.Bitfield.{copy_from, empty, get}
use picotor.Torrent.Metainfo.{SingleFileTorrent, pieces}
use picotor.Torrent.Tracker.{TrackerResponse}
use picotor.Torrent.Piece.{new_piece}
use picotor.Result.{TorrentContext}
use picotor.Peer.State.{Peer, new_peer, length_word, body}
use picotor.Peer.Handlers.{async_read_message}
use picotor.Peer.Run.{Event}
use picotor.Peer.Run.Ownership.{held_as}
use picotor.Peer.Run.Orderly.{reading, ended}
use picotor.Peer.Run.Honest.Finish.{heard, received, step-unchoke}
use picotor.Peer.Run.Honest.Fetch.{taken, taken-IsFetching, download-taken}
use picotor.Peer.Run.Honest.Tally.{IsTallied}
use picotor.Peer.Run.Honest.Turn.{fetch_more}
use picotor.Monitor.{complete}
use picotor.Monitor.Integrity.{slice}
use picotor.Monitor.Place.{pieces-le}
use picotor.Main.{start_connections}
use picotor.Main.Client.{count, held_by_all}
use picotor.Main.System.{System, Trace, system_of}
use picotor.Main.System.Orderly.{AreOrderly}
use picotor.Main.System.Places.{one_place}
use picotor.Main.System.Download.{Stage, IsPublished}
use picotor.Main.System.Download.Receives.{message, receives}
use picotor.Main.System.Download.Fetched.{part-small, length-slice, le_mul}
use picotor.Main.System.Download.Rounds.{rounds}
use picotor.Main.System.Download.Drained.{drained}
use picotor.Main.System.Download.Greets.{
  full_field, step-bitfield, new-idle, greeted, greeted-tally, greets,
}

module _ (sha1 : Bytes → Bytes) (tor : SingleFileTorrent) (clock interval : ℕ) (x : Address)
    (others : List Address) (text : Bytes) (junk : Junk) where
  abbrev response : TrackerResponse
  response = record { interval = interval; peers = x ∷ others }

  abbrev ctx : TorrentContext
  ctx = (start_connections tor response clock).context

  abbrev start : System
  start = system_of (start_connections tor response clock)

  abbrev back : List Peer
  back = map new_peer others

  -- The peer has told that it has every piece.
  abbrev bits : Bytes
  bits = replicate (pieces tor / 8 + 1) 255

  abbrev told : Peer → List ℕ → Peer
  told p queue = async_read_message (record (received (5 ∷ bits) queue p) {
    available_pieces = copy_from p.available_pieces bits;
  })

  -- The first piece is taken when the peer lets the client send requests.
  begins :
      (g : IsPublished sha1 tor text) (s : System) (p : Peer) (done : List Event) (a : ℕ)
      (rest : List ℕ)
      → Stage sha1 ctx start s p back done
      → IsTallied (suc (ended (reading length_word) done)) (ended (reading body) done) 0 0 p.history
      → p.piece ≡ none
      → p.requests ≡ []
      → p.available_pieces ≡ copy_from empty bits
      → s.client.work_queue ≡ a ∷ rest
      → (t : System) × (r : Trace sha1 ctx start t) × AreOrderly r × (complete t.monitor ≡ true)
  unfolding start_connections
  begins g s p done a rest stage waits idle free has q =
      let field = copy_from empty bits in
      let has_all : (b : ℕ) → b < pieces tor → get field b ≡ true =
        λ b l. full_field (pieces tor / 8 + 1) b (omega (arith, l)) in
      let less : a < pieces tor =
        ground (arith, one_place sha1 tor response clock s a stage.trace, ap (count a) q) in
      let (small, low, long) =
        part-small sha1 tor response clock text junk g back field has_all a less in
      let part = slice tor a text in
      let sized = length-slice tor text a g.fits g.size less in
      let queue = s.client.work_queue in
      let p1 : Peer = record (received (1 ∷ []) queue p) { choked = false } in
      let p1' = taken ctx part a rest sized p1 in
      let has1 = ap (λ f. get f a) has ∙ has_all a less in
      let f = taken-IsFetching ctx part a rest sized p1 long low free refl has1 in
      let same = download-taken ctx part a rest sized p1 idle free q refl has1 in
      let (c, d, open_, size, _) = waits in
      let (p2, e, f2, stops, has2, (c2, d2, open2, size2, _)) =
        fetch_more sha1 ctx _ _ 0 0 part a 0 field p1' small sized (new_piece a tor.piece_length, f)
          (has, refl) (c, ap suc d, open_, size, omega arith) in
      let (t, stage', _) =
        receives sha1 ctx start back s p (async_read_message p2) done 0 0 junk (1 ∷ []) stage waits
          (omega arith) (omega arith)
          (step-unchoke sha1 ctx junk queue (heard 1 p) p2 (same ∙ e)) in
      let (u, r, orderly, quiet) =
        rounds sha1 tor response clock text junk g back (λ b. new-idle b others) field has_all
          (pieces tor) t (async_read_message p2) (message junk (1 ∷ []) queue done) a
          (record {
            stage = stage';
            busy = record {
              fetches = f2;
              stops = stops;
              has_field = has2;
              waits = (c2, d2, open2, size2, omega arith);
            };
            inside = less;
          })
          (omega arith) in
      drained sha1 tor response clock u.result_queue u r orderly refl quiet

  -- With the bit field read, the download begins, or there is nothing to download.
  offered :
      (g : IsPublished sha1 tor text) (s : System) (p : Peer) (done : List Event) (queue : List ℕ)
      → Stage sha1 ctx start s p back done
      → IsTallied (suc (ended (reading length_word) done)) (ended (reading body) done) 0 0 p.history
      → p.piece ≡ none
      → p.requests ≡ []
      → p.available_pieces ≡ copy_from empty bits
      → s.client.work_queue ≡ queue
      → (t : System) × (r : Trace sha1 ctx start t) × AreOrderly r × (complete t.monitor ≡ true)
  offered g s p done [] stage waits idle free has q =
      drained sha1 tor response clock s.result_queue s stage.trace stage.orderly refl λ a less.
        omega (
          arith,
          ap (count a) q,
          ap (held_by_all a) stage.at,
          ap (held_as a) idle,
          new-idle a others,
        )
  offered g s p done (a ∷ rest) stage waits idle free has q =
      begins g s p done a rest stage waits idle free has q

  -- A download can complete: from its start, for a torrent with a file below 4 GB and pieces that are not
  -- empty, whose hashes are those of a text of the length of the file, and a tracker that names a peer,
  -- there is an interleaving in which the monitor becomes complete, and in which each completion ends
  -- an operation that its peer has begun and that has not ended before, a success comes on an open
  -- socket, a read gives as many bytes as it asked for, and the work queue gives out what it has.
  pub can_finish :
      IsPublished sha1 tor text
      → (t : System) × (r : Trace sha1 ctx start t) × AreOrderly r × (complete t.monitor ≡ true)
  unfolding start_connections async_read_message
  can_finish g =
      let p = greeted sha1 ctx junk x in
      let (tally, choked, idle, free, none_) = greeted-tally sha1 ctx junk x in
      let (s, es, stage, lengths, bodies) = greets sha1 ctx junk start x back refl in
      let (c, d, open_, size, _) = tally in
      let queue = s.client.work_queue in
      let some_bits = length-replicate {A = ℕ} (pieces tor / 8 + 1) 255 in
      let (t, stage', _) =
        receives sha1 ctx start back s p (told p queue) es 0 0 junk (5 ∷ bits) stage
          (c ∙ sym (ap suc lengths), d ∙ sym bodies, open_, size, omega arith) (omega arith)
          (omega (
            arith,
            some_bits,
            le_mul (pieces tor) tor.piece_length g.fits.positive,
            pieces-le tor g.fits.positive,
            g.fits.small,
          ))
          (step-bitfield sha1 ctx junk bits queue (heard (length (5 ∷ bits)) p) choked free) in
      offered g t (told p queue) (message junk (5 ∷ bits) queue es) t.client.work_queue stage'
        (ap suc (c ∙ sym (ap suc lengths)), ap suc (d ∙ sym bodies), open_, refl, omega arith) idle
        free (ap (λ f. copy_from f bits) none_) refl
