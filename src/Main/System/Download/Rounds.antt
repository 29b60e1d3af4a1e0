-- ===== src/Main/System/Download/Rounds.antt =====
-- src/main.cpp with src/peer.cpp: one peer fetches piece after piece, to the end of the download.
use picotor.Base.{
  ℕ, zero, suc, ◌+◌, ◌<◌, ◌≤◌, ◌≡◌, ap, true, List, [], ◌++◌, arith, Bytes, length, inl, inr, ◌⊎◌,
}
use picotor.Stream.{Junk}
use picotor.Common.Bitfield.{Bitfield, get}
use picotor.Torrent.Metainfo.{SingleFileTorrent, pieces}
use picotor.Torrent.Tracker.{TrackerResponse}
use picotor.Torrent.Piece.{new_piece, block_count}
use picotor.Result.{Result, TorrentContext}
use picotor.Peer.State.{Peer}
use picotor.Peer.Run.{Event}
use picotor.Peer.Run.Ownership.{held_as, one_if}
use picotor.Peer.Run.Honest.Fetch.{same_count}
use picotor.Monitor.{Monitor}
use picotor.Monitor.Missing.{has}
use picotor.Monitor.Integrity.{slice}
use picotor.Main.{start_connections}
use picotor.Main.Client.{count, held_by_all}
use picotor.Main.System.{System, Trace, system_of, waiting}
use picotor.Main.System.Orderly.{AreOrderly}
use picotor.Main.System.Places.{one_place}
use picotor.Main.System.Places.Waiting.{waiting_append}
use picotor.Main.System.Download.{reported, Stage, IsLater, IsPublished}
use picotor.Main.System.Download.Sums.{total, total-lt, total_full}
use picotor.Main.System.Download.Fetched.{IsAt, answered, part-small}

-- Nothing that was reported is lost by more reports.
reported_grows :
    (ctx : TorrentContext) (s t : System) (extra : List Result)
    → t.monitor ≡ s.monitor
    → t.result_queue ≡ s.result_queue ++ extra
    → (a : ℕ) → reported ctx s a ≤ reported ctx t a
reported_grows ctx s t extra same more a = ground (
  arith,
  ap (λ (m : Monitor). has a m.missing_pieces) same,
  ap (waiting a) more,
  waiting_append a s.result_queue extra,
)

module _ (sha1 : Bytes → Bytes) (tor : SingleFileTorrent) (response : TrackerResponse) (clock : ℕ)
    (text : Bytes) (junk : Junk) (g : IsPublished sha1 tor text) (back : List Peer)
    (back_idle : (a : ℕ) → held_by_all a back ≡ 0) (field : Bitfield)
    (has_all : (a : ℕ) → a < pieces tor → get field a ≡ true) where
  abbrev ctx : TorrentContext
  ctx = (start_connections tor response clock).context

  abbrev start : System
  start = system_of (start_connections tor response clock)

  -- No piece is in the work queue or at a peer.
  abbrev IsQuiet : System → Type 0
  IsQuiet s =
      (a : ℕ) → a < pieces tor → count a s.client.work_queue + held_by_all a s.client.peers ≡ 0

  abbrev At : System → Peer → List Event → ℕ → ℕ → Type 0
  At = IsAt sha1 tor response clock text junk g back field has_all

  -- No piece is on its way, or the first peer fetches the next one.
  abbrev GoesOn : System → Type 0
  GoesOn t =
      ((r : Trace sha1 ctx start t) × AreOrderly r × IsQuiet t)
      ⊎ ((p : Peer) × (done : List Event) × (b : ℕ) × At t p done b 0)

  grown : (s t : System) → IsLater s t → (b : ℕ) → reported ctx s b ≤ reported ctx t b
  grown s t (same, (extra, more)) = reported_grows ctx s t extra same more

  all_reported :
      (s : System)
      → Trace sha1 ctx start s
      → ((a : ℕ) → a < pieces tor → 0 < reported ctx s a)
      → IsQuiet s
  unfolding start_connections
  all_reported s trace full a less =
      ground (arith, one_place sha1 tor response clock s a trace, full a less)

  -- The piece that is fetched is at one place, so it was not reported.
  held_here :
      (s : System) (p : Peer) (done : List Event) (a n b : ℕ)
      → At s p done a n
      → held_by_all b s.client.peers ≡ one_if b a
  held_here s p done a n b at =
      let (q, f) = at.busy.fetches in
      omega (
        arith,
        ap (held_by_all b) at.stage.at,
        ap (held_as b) f.at,
        ap (one_if b) f.named,
        back_idle b,
      )

  -- With the last piece reported, and an empty work queue, none is on its way.
  last_quiet :
      (s t : System) (p r : Peer) (done es : List Event) (a n : ℕ)
      → At s p done a n
      → IsLater s t
      → 0 < reported ctx t a
      → Stage sha1 ctx start t r back es
      → s.client.work_queue ≡ []
      → IsQuiet t
  unfolding start_connections
  last_quiet s t p r done es a n at later_ told stage q = all_reported t stage.trace λ b less.
      ground (
        arith,
        told,
        one_place sha1 tor response clock s b at.stage.trace,
        held_here s p done a n b at,
        ap (count b) q,
        grown s t later_ b,
      )

  -- The blocks of a piece.
  blocks :
      (m n : ℕ) (s : System) (p : Peer) (done : List Event) (a : ℕ)
      → At s p done a n
      → block_count (new_piece a (length (slice tor a text))) ≤ n + m
      → (t : System) × ((b : ℕ) → reported ctx s b ≤ reported ctx t b)
        × (0 < reported ctx t a)
        × GoesOn t
  blocks zero n s p done a at enough =
      let (q, f) = at.busy.fetches in
      absurd (
        omega (
          arith,
          enough,
          f.count,
          f.open_,
          same_count (slice tor a text) a n q p
              (part-small sha1 tor response clock text junk g back field has_all a at.inside).0 f,
        ))
  blocks (suc m) n s p done a at enough =
      let (t, later_, out) =
        answered sha1 tor response clock text junk g back field has_all s p done a n at in
      elim out [
        | inl (r, es, at') ↦
            let (u, more, told, next_) = blocks m (suc n) t r es a at' (omega (arith, enough)) in
            (u, λ b. omega (arith, grown s t later_ b, more b), told, next_)
        | inr (told, inl (r, es, stage, q)) ↦ (
          t,
          grown s t later_,
          told,
          inl (stage.trace, stage.orderly, last_quiet s t p r done es a n at later_ told stage q),
        )
        | inr (told, inr (r, es, b, at')) ↦ (t, grown s t later_, told, inr (r, es, b, at'))
      ]

  -- Piece after piece.
  pub rounds :
      (m : ℕ) (s : System) (p : Peer) (done : List Event) (a : ℕ)
      → At s p done a 0
      → pieces tor ≤ total (reported ctx s) (pieces tor) + m
      → (t : System) × (r : Trace sha1 ctx start t) × AreOrderly r × IsQuiet t
  unfolding start_connections
  rounds zero s p done a at enough =
      let once =
        total_full (reported ctx s) (pieces tor) a
          (λ b l. ground (arith, one_place sha1 tor response clock s b at.stage.trace))
          (omega (arith, enough)) at.inside in
      absurd (
        ground (
          arith,
          once,
          one_place sha1 tor response clock s a at.stage.trace,
          at.inside,
          held_here s p done a 0 a at,
        ))
  rounds (suc m) s p done a at enough =
      let before : reported ctx s a ≡ 0 = ground (
        arith,
        one_place sha1 tor response clock s a at.stage.trace,
        at.inside,
        held_here s p done a 0 a at,
      ) in
      let (t, more, told, next_) =
        blocks (block_count (new_piece a (length (slice tor a text)))) 0 s p done a at
          (omega arith) in
      let gain =
        total-lt (reported ctx s) (reported ctx t) (pieces tor) a (λ b _. more b) at.inside
          (omega (arith, before, told)) in
      elim next_ [
        | inl (r, orderly, quiet) ↦ (t, r, orderly, quiet)
        | inr (r, es, b, at') ↦ rounds m t r es b at' (omega (arith, enough, gain))
      ]
