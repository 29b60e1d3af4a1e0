-- ===== src/Main/System/OnDisk.antt =====
-- src/main.cpp with src/peer.cpp: what is no longer on its way is on the disk.
use picotor.Base.{
  ℕ, ◌+◌, ◌<◌, ◌≡◌, ltb→lt, refl, Bool, true, false, not, ◌&&◌, arith, Bytes, ltb, if◌then◌else◌,
  Outcome, ok, inl, inr, Bool-cases,
}
use picotor.Common.Hash.{Hash, equals}
use picotor.Common.Hash
use picotor.Common.Hash.Laws.{equals_iff}
use picotor.Torrent.Metainfo.{SingleFileTorrent, pieces, piece_hash}
use picotor.Torrent.Tracker.{TrackerResponse}
use picotor.Result.{TorrentContext}
use picotor.Monitor.Missing.{has}
use picotor.Monitor.Place.{IsSmall}
use picotor.Monitor.Integrity.{slice, IsChecked}
use picotor.Main.{start_connections}
use picotor.Main.System.{System, Tick, Trace, next, system_of, pending}
use picotor.Main.System.Places.{one_place}
use picotor.Main.System.Places.Accounted.{written}
use picotor.Main.System.Integrity.{Trace-AllSound}
use picotor.Main.System.Refinement.{Place, queued, taken, reported, stored, Actor, Runs, place}
use picotor.Main.System.Refinement.Protocol.{Tick-Runs}
use picotor.Main.System.Refinement.Complete.{place-pending}

abbrev same_hash : Outcome Hash → Outcome Hash → Bool
same_hash (ok h) (ok k) = equals h k
same_hash _ _ = false

-- The bytes of the file where piece `a` belongs have the hash that the metainfo file lists for it.
abbrev pub is_checked : (Bytes → Bytes) → TorrentContext → Bytes → ℕ → Bool
is_checked sha1 ctx file a = same_hash (Hash.of sha1 (slice ctx.tor a file)) (piece_hash ctx.tor a)

-- Piece `a` of the torrent is on the disk: the monitor waits for it no more, and the file has it.
abbrev pub on_disk : (Bytes → Bytes) → TorrentContext → ℕ → System → ℕ
on_disk sha1 ctx a s =
    if ltb a (pieces ctx.tor)
      && (not (has a s.monitor.missing_pieces) && is_checked sha1 ctx s.monitor.file a)
    then 1
    else 0

-- What the abstract view calls stored is on the disk.
abbrev pub is_kept : Place → Bool → Bool
is_kept stored checked = checked
is_kept _ checked = true

IsChecked-is_checked :
    (sha1 : Bytes → Bytes) (ctx : TorrentContext) (file : Bytes) (a : ℕ)
    → IsChecked sha1 ctx file a
    → is_checked sha1 ctx file a ≡ true
IsChecked-is_checked sha1 ctx file a v = rw (v.digest, v.listed) ((equals_iff v.hash v.hash).1 refl)

module _ (sha1 : Bytes → Bytes) (tor : SingleFileTorrent) (response : TrackerResponse) (clock : ℕ)
    (d : IsSmall tor) where
  abbrev ctx : TorrentContext
  ctx = (start_connections tor response clock).context

  abbrev start : System
  start = system_of (start_connections tor response clock)

  -- A piece that is not missing has its hash in the file.
  not_missing :
      (s : System) (a : ℕ)
      → Trace sha1 ctx start s
      → a < pieces tor
      → has a s.monitor.missing_pieces ≡ false
      → is_checked sha1 ctx s.monitor.file a ≡ true
  unfolding start_connections
  not_missing s a r h gone =
      elim ((Trace-AllSound sha1 tor response clock d s r).file.checked a h) [
        | inl missing ↦ absurd (cc (missing, gone))
        | inr checked ↦ IsChecked-is_checked sha1 ctx s.monitor.file a checked
      ]

  on_disk-written :
      (s : System) (a : ℕ) → Trace sha1 ctx start s → on_disk sha1 ctx a s ≡ written ctx a s
  unfolding start_connections
  on_disk-written s a r = elim (Bool-cases (ltb a (pieces tor))) [
    | inr outside ↦ rw outside refl
    | inl inside ↦ elim (Bool-cases (has a s.monitor.missing_pieces)) [
      | inl missing ↦ rw (inside, missing) refl
      | inr gone ↦ rw (inside, gone, not_missing s a r (ltb→lt a (pieces tor) inside) gone) refl
    ]
  ]

  is_kept-checked :
      (s : System) (a : ℕ) (x : Place)
      → place s a ≡ x
      → Trace sha1 ctx start s
      → a < pieces tor
      → is_kept x (is_checked sha1 ctx s.monitor.file a) ≡ true
  unfolding start_connections
  is_kept-checked s a queued e r h = refl
  is_kept-checked s a (taken k) e r h = refl
  is_kept-checked s a reported e r h = refl
  is_kept-checked s a stored e r h =
      let total = one_place sha1 tor response clock s a r in
      not_missing s a r h (ground (arith, total, place-pending s a e, h))

-- For a torrent with a file below 4 GB and pieces that are not empty, however the handlers of the peers
-- and the thread of the monitor interleave, as long as no handler faults: each piece of the torrent is
-- in exactly one place, in the work queue, at one peer, in one report that waits for the monitor, or in
-- the file, where the bytes have the hash that is listed for it; and no other index is anywhere.
pub placed_once :
    (sha1 : Bytes → Bytes) (tor : SingleFileTorrent) (response : TrackerResponse) (clock : ℕ)
    (s : System) (a : ℕ)
    → IsSmall tor
    → let start = start_connections tor response clock in
      Trace sha1 start.context (system_of start) s
      → pending a s + on_disk sha1 start.context a s ≡ (if ltb a (pieces tor) then 1 else 0)
placed_once sha1 tor response clock s a d r = omega (
  arith,
  one_place sha1 tor response clock s a r,
  on_disk-written sha1 tor response clock d s a r,
)

-- The client keeps to a protocol of ownership, for a torrent with a file below 4 GB and pieces that are
-- not empty: in any interleaving in which no handler faults, one step has one actor, a peer or the
-- monitor, and each piece moves, if it moves, by what that actor may do: a peer takes it from the queue,
-- puts it back or reports it, and the monitor stores what was reported. A piece that is stored after
-- the step has its hash in the file.
pub Tick-Stores :
    (sha1 : Bytes → Bytes) (tor : SingleFileTorrent) (response : TrackerResponse) (clock : ℕ)
    (s t : System)
    → IsSmall tor
    → let start = start_connections tor response clock in
      Trace sha1 start.context (system_of start) s
      → Tick sha1 start.context s t
      → (who : Actor) × ((a : ℕ)
          → a < pieces tor
          → Runs who (place s a) (place t a)
            × (is_kept (place t a) (is_checked sha1 start.context t.monitor.file a) ≡ true))
Tick-Stores sha1 tor response clock s t d r tick =
    let (who, runs) = Tick-Runs sha1 tor response clock s t r tick in
    (
      who,
      λ a h. (
        runs a h,
        is_kept-checked sha1 tor response clock d t a (place t a) refl (next r tick) h,
      ),
    )
