-- ===== src/Monitor/File.antt =====
-- What the file on disk holds.
use native.Mathlib.Decide.{ℕ_discrete}
use picotor.Base.{
  ℕ, ◌+◌, ◌*◌, ◌≤◌, ◌<◌, ◌≡◌, refl, sym, ap, ◌∙◌, true, List, [], ◌∷◌, some, arith, Bytes, length,
  length-replicate, take, get_elem?, get_elem?-replicate, Bool-cases, inl, inr, ◌⊎◌,
}
use picotor.Torrent.CompletePiece
use picotor.Torrent.CompletePiece.{CompletePiece}
use picotor.Torrent.Metainfo.{SingleFileTorrent, pieces}
use picotor.Common.Address.{Address}
use picotor.Result.{Result, piece_complete, peer_connected, peer_dropped, TorrentContext}
use picotor.Monitor.{
  Monitor, new_monitor, complete, write_at, erase_piece, report_progress, on_piece_complete,
  on_peer_connected, on_peer_dropped, visit, monitor_loop, monitor_thread,
}
use picotor.Monitor.Missing.{has, has-erase_piece, has_of_is_empty, has-push_all}
use picotor.Monitor.Place.{
  IsSmall, IsSized, written, write-written, length-written, written_self, written_other,
  written_tail,
}

-- A torrent whose numbers fit, for a file that holds `text`.
pub record Describes (tor : SingleFileTorrent) (text : Bytes) : Type 0 where
  pub size : length text ≡ tor.file_length
  pub fits : IsSmall tor

-- A complete piece that is the right slice of the text, as the hash check means it to be.
pub record IsGenuine (tor : SingleFileTorrent) (text : Bytes) (c : CompletePiece) : Type 0 where
  pub sized : IsSized tor c
  pub right :
      (k : ℕ)
      → k < tor.piece_length
      → get_elem? c.bytes k ≡ get_elem? text (c.piece_index * tor.piece_length + k)

abbrev pub AreGenuine : SingleFileTorrent → Bytes → List (ℕ × Result) → Type 0
AreGenuine tor text [] = Unit {0}
AreGenuine tor text ((clock, piece_complete c) ∷ rs) = IsGenuine tor text c × AreGenuine tor text rs
AreGenuine tor text (_ ∷ rs) = AreGenuine tor text rs

module _ (tor : SingleFileTorrent) (text : Bytes) where
  -- Byte `k` of piece `i`, for every piece that is not missing, and the bytes behind the last piece.
  record IsWritten (m : Monitor) : Type 0 where
    size : length m.file ≡ length text
    right :
        (i k : ℕ)
        → i < pieces tor
        → k < tor.piece_length
        → (has i m.missing_pieces ≡ true)
          ⊎ (get_elem? m.file (i * tor.piece_length + k)
              ≡ get_elem? text (i * tor.piece_length + k))
    tail :
        (j : ℕ) → pieces tor * tor.piece_length ≤ j → j < length text → get_elem? m.file j ≡ some 0

pub visit-file :
    (clock : ℕ) (c : CompletePiece) (m : Monitor)
    → ((visit clock (piece_complete c) m).file
        ≡ write_at m.file (CompletePiece.offset c) (take c.size c.bytes))
      × ((visit clock (piece_complete c) m).missing_pieces
          ≡ erase_piece c.piece_index m.missing_pieces)
unfolding visit on_piece_complete report_progress
visit-file clock c m = ground arith

pub visit-other :
    (clock : ℕ) (addr : Address) (m : Monitor)
    → ((visit clock (peer_connected addr) m).file ≡ m.file)
      × ((visit clock (peer_connected addr) m).missing_pieces ≡ m.missing_pieces)
unfolding visit on_peer_connected
visit-other clock addr m = ground arith

pub visit-dropped :
    (clock : ℕ) (addr : Address) (m : Monitor)
    → ((visit clock (peer_dropped addr) m).file ≡ m.file)
      × ((visit clock (peer_dropped addr) m).missing_pieces ≡ m.missing_pieces)
unfolding visit on_peer_dropped
visit-dropped clock addr m = (refl, refl)

module _ (tor : SingleFileTorrent) (text : Bytes) (clock : ℕ) where
  first-AreGenuine :
      (r : Result) (rs : List (ℕ × Result))
      → AreGenuine tor text ((clock, r) ∷ rs)
      → AreGenuine tor text ((clock, r) ∷ [])
  first-AreGenuine (piece_complete c) rs g = (g.0, tt)
  first-AreGenuine (peer_connected a) rs g = tt
  first-AreGenuine (peer_dropped a) rs g = tt

  rest-AreGenuine :
      (r : Result) (rs : List (ℕ × Result))
      → AreGenuine tor text ((clock, r) ∷ rs)
      → AreGenuine tor text rs
  rest-AreGenuine (piece_complete c) rs g = g.1
  rest-AreGenuine (peer_connected a) rs g = g
  rest-AreGenuine (peer_dropped a) rs g = g

module _ (tor : SingleFileTorrent) (text : Bytes) (d : Describes tor text) where
  IsWritten-same :
      (m m' : Monitor)
      → m'.file ≡ m.file
      → m'.missing_pieces ≡ m.missing_pieces
      → IsWritten tor text m
      → IsWritten tor text m'
  IsWritten-same m m' f e v = record {
    size = ap length f ∙ v.size;
    right = λ i k hi hk. rw (f, e) (v.right i k hi hk);
    tail = λ j hj hl. rw f (v.tail j hj hl);
  }

  write-IsWritten :
      (c : CompletePiece) (m m' : Monitor) (g : IsGenuine tor text c)
      → m'.file ≡ written tor d.fits c g.sized m.file
      → m'.missing_pieces ≡ erase_piece c.piece_index m.missing_pieces
      → IsWritten tor text m
      → IsWritten tor text m'
  write-IsWritten c m m' g f e v = record {
    size = ap length f ∙ length-written tor d.fits c g.sized m.file (v.size ∙ d.size) ∙ sym d.size;
    right = λ i k hi hk.
        rw (f, e)
          (elim (ℕ_discrete i c.piece_index) [
            | yes same ↦ inr (
                rw same
                  (written_self tor d.fits c g.sized m.file (v.size ∙ d.size) k hk ∙ g.right k hk))
            | no other ↦ elim (v.right i k hi hk) [
              | inl missing ↦ inl (ground (arith, has-erase_piece i c.piece_index m.missing_pieces))
              | inr done ↦
                  inr (
                    written_other tor d.fits c g.sized m.file (v.size ∙ d.size) i k hk other ∙ done)
            ]
          ]);
    tail = λ j hj hl.
        rw f (written_tail tor d.fits c g.sized m.file (v.size ∙ d.size) j hj ∙ v.tail j hj hl);
  }

  visit-IsWritten :
      (clock : ℕ) (r : Result) (m : Monitor)
      → AreGenuine tor text ((clock, r) ∷ [])
      → IsWritten tor text m
      → IsWritten tor text (visit clock r m)
  visit-IsWritten clock (piece_complete c) m (g, _) v =
      let (f, e) = visit-file clock c m in
      write-IsWritten c m (visit clock (piece_complete c) m) g
        (f ∙ write-written tor d.fits c g.sized m.file) e v
  visit-IsWritten clock (peer_connected a) m g v =
      let (f, e) = visit-other clock a m in
      IsWritten-same m (visit clock (peer_connected a) m) f e v
  visit-IsWritten clock (peer_dropped a) m g v =
      IsWritten-same m (visit clock (peer_dropped a) m) (visit-dropped clock a m).0
        (visit-dropped clock a m).1 v

  monitor_loop-IsWritten :
      (rs : List (ℕ × Result)) (m : Monitor)
      → AreGenuine tor text rs
      → IsWritten tor text m
      → IsWritten tor text (monitor_loop rs m)
  unfolding monitor_loop
  monitor_loop-IsWritten [] m g v = v
  monitor_loop-IsWritten ((clock, r) ∷ rs) m g v = elim (Bool-cases (complete m)) [
    | inl done ↦ rw done v
    | inr more ↦ rw more (
        monitor_loop-IsWritten rs (visit clock r m) (rest-AreGenuine tor text clock r rs g)
          (visit-IsWritten clock r m (first-AreGenuine tor text clock r rs g) v))
  ]

new_monitor-IsWritten :
    (ctx : TorrentContext) (text : Bytes) (clock : ℕ)
    → Describes ctx.tor text
    → IsWritten ctx.tor text (new_monitor ctx clock)
unfolding new_monitor
new_monitor-IsWritten ctx text clock d = record {
  size = omega (arith, d.size, length-replicate {A = ℕ} ctx.tor.file_length 0);
  right = λ i k hi hk. inl (ground (arith, has-push_all (pieces ctx.tor) 0 i []));
  tail = λ j hj hl. get_elem?-replicate ctx.tor.file_length j 0 (omega (arith, d.size));
}

-- When the loop ends after results whose pieces are the right slices of a text, the file has the
-- length of the text and agrees with it in every byte of every whole piece; the bytes behind the
-- last whole piece, which no piece of the client stands for, are zeros.
pub complete-file :
    (ctx : TorrentContext) (text : Bytes) (clock : ℕ) (rs : List (ℕ × Result))
    → Describes ctx.tor text
    → AreGenuine ctx.tor text rs
    → complete (monitor_thread ctx clock rs) ≡ true
    → let file = (monitor_thread ctx clock rs).file in
      let l = ctx.tor.piece_length in
      (length file ≡ length text)
      × ((i k : ℕ)
          → i < pieces ctx.tor
          → k < l
          → get_elem? file (i * l + k) ≡ get_elem? text (i * l + k))
      × ((j : ℕ) → pieces ctx.tor * l ≤ j → j < length text → get_elem? file j ≡ some 0)
unfolding monitor_thread complete
complete-file ctx text clock rs d g done =
    let m = monitor_loop rs (new_monitor ctx clock) in
    let v =
      monitor_loop-IsWritten ctx.tor text d rs (new_monitor ctx clock) g
        (new_monitor-IsWritten ctx text clock d) in
    (
      v.size,
      λ i k hi hk. elim (v.right i k hi hk) [
        | inl missing ↦ cc (missing, has_of_is_empty i m.missing_pieces done)
        | inr right ↦ right
      ],
      v.tail,
    )
