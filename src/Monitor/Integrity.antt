-- ===== src/Monitor/Integrity.antt =====
-- The pieces in the file on disk and their hashes.
use native.Mathlib.Decide.{ℕ_discrete}
use picotor.Base.{
  ℕ, ◌+◌, ◌*◌, ◌<◌, ◌≡◌, sym, subst, ap, ◌∙◌, true, [], arith, Bytes, length, length-replicate,
  take, drop, take-agree, take-all, get_elem?, get_elem?-drop, inl, inr, ◌⊎◌, ok,
}
use picotor.Common.Hash.{Hash}
use picotor.Common.Hash
use picotor.Torrent.CompletePiece.{CompletePiece}
use picotor.Torrent.CompletePiece
use picotor.Torrent.Metainfo.{SingleFileTorrent, pieces, piece_hash}
use picotor.Result.{Result, piece_complete, peer_connected, peer_dropped, TorrentContext}
use picotor.Peer.Run.Verified.{Matches}
use picotor.Monitor.{Monitor, new_monitor, complete, erase_piece, visit}
use picotor.Monitor.Missing.{has, has-erase_piece, has_of_is_empty, has-push_all}
use picotor.Monitor.Place.{
  IsSmall, IsSized, written, write-written, length-written, written_self, written_other,
}
use picotor.Monitor.File.{visit-file, visit-other, visit-dropped}

-- The part of a file that piece `i` stands for.
abbrev pub slice : SingleFileTorrent → ℕ → Bytes → Bytes
slice tor i file = take tor.piece_length (drop (i * tor.piece_length) file)

slice-agree :
    (tor : SingleFileTorrent) (i : ℕ) (file file' : Bytes)
    → ((k : ℕ)
        → k < tor.piece_length
        → get_elem? file (i * tor.piece_length + k) ≡ get_elem? file' (i * tor.piece_length + k))
    → slice tor i file ≡ slice tor i file'
slice-agree tor i file file' same = take-agree tor.piece_length _ _ λ k h.
    get_elem?-drop (i * tor.piece_length) k file
    ∙ same k h
    ∙ sym (get_elem?-drop (i * tor.piece_length) k file')

module _ (tor : SingleFileTorrent) (d : IsSmall tor) (c : CompletePiece) (g : IsSized tor c)
    (file : Bytes) (size : length file ≡ tor.file_length) where
  slice_self : slice tor c.piece_index (written tor d c g file) ≡ c.bytes
  slice_self =
      take-agree tor.piece_length _ c.bytes (λ k h.
        get_elem?-drop (c.piece_index * tor.piece_length) k (written tor d c g file)
        ∙ written_self tor d c g file size k h)
      ∙ take-all tor.piece_length c.bytes (omega (arith, g.whole))

  slice_other :
      (i : ℕ) → ¬ (i ≡ c.piece_index) → slice tor i (written tor d c g file) ≡ slice tor i file
  slice_other i other =
      slice-agree tor i _ file λ k h. written_other tor d c g file size i k h other

  -- The monitor writes the bytes of the piece where the piece belongs.
  pub visit-slice :
      (clock : ℕ) (m : Monitor)
      → m.file ≡ file
      → slice tor c.piece_index (visit clock (piece_complete c) m).file ≡ c.bytes
  visit-slice clock m e =
      ap (slice tor c.piece_index)
        ((visit-file clock c m).0 ∙ write-written tor d c g m.file ∙ ap (written tor d c g) e)
      ∙ slice_self

module _ (sha1 : Bytes → Bytes) (ctx : TorrentContext) where
  -- Piece `i` of the file has the hash that the metainfo file lists for it.
  pub record IsChecked (file : Bytes) (i : ℕ) : Type 0 where
    pub hash : Hash
    pub digest : Hash.of sha1 (slice ctx.tor i file) ≡ ok hash
    pub listed : piece_hash ctx.tor i ≡ ok hash

  -- The file has its length, and every piece that is not missing is checked.
  pub record IsIntact (m : Monitor) : Type 0 where
    pub size : length m.file ≡ ctx.tor.file_length
    pub checked :
        (i : ℕ) → i < pieces ctx.tor → (has i m.missing_pieces ≡ true) ⊎ IsChecked m.file i

  IsIntact-same :
      (m m' : Monitor)
      → m'.file ≡ m.file
      → m'.missing_pieces ≡ m.missing_pieces
      → IsIntact m
      → IsIntact m'
  IsIntact-same m m' f e v = record {
    size = ap length f ∙ v.size;
    checked = λ i h. rw (f, e) (v.checked i h);
  }

  IsChecked-slice :
      (file file' : Bytes) (i : ℕ)
      → slice ctx.tor i file' ≡ slice ctx.tor i file
      → IsChecked file i
      → IsChecked file' i
  IsChecked-slice file file' i e v = record {
    hash = v.hash;
    digest = ap (Hash.of sha1) e ∙ v.digest;
    listed = v.listed;
  }

  Matches-IsChecked :
      (c : CompletePiece) (file : Bytes)
      → Matches sha1 ctx c
      → slice ctx.tor c.piece_index file ≡ c.bytes
      → IsChecked file c.piece_index
  unfolding CompletePiece.hash
  Matches-IsChecked c file v e =
      let all = take-all c.size c.bytes (omega (arith, v.size, v.whole)) in
      record {
        hash = v.hash;
        digest = ap (Hash.of sha1) (e ∙ sym all) ∙ v.digest;
        listed = v.listed;
      }

  write-IsIntact :
      (d : IsSmall ctx.tor) (c : CompletePiece) (g : IsSized ctx.tor c) (m m' : Monitor)
      → Matches sha1 ctx c
      → m'.file ≡ written ctx.tor d c g m.file
      → m'.missing_pieces ≡ erase_piece c.piece_index m.missing_pieces
      → IsIntact m
      → IsIntact m'
  write-IsIntact d c g m m' match f e v = record {
    size = ap length f ∙ length-written ctx.tor d c g m.file v.size;
    checked = λ i h.
        rw (f, e)
          (elim (ℕ_discrete i c.piece_index) [
            | yes same ↦ inr (
                subst (IsChecked _) (sym same)
                  (Matches-IsChecked c _ match (slice_self ctx.tor d c g m.file v.size)))
            | no other ↦ elim (v.checked i h) [
              | inl missing ↦ inl (ground (arith, has-erase_piece i c.piece_index m.missing_pieces))
              | inr done ↦ inr (
                  IsChecked-slice m.file _ i (slice_other ctx.tor d c g m.file v.size i other) done)
            ]
          ]);
  }

  -- What a result has to be for the file to stay intact.
  abbrev pub IsSound : Result → Type 0
  IsSound (piece_complete c) = (c.piece_index < pieces ctx.tor) × Matches sha1 ctx c
  IsSound (peer_connected _) = Unit {0}
  IsSound (peer_dropped _) = Unit {0}

  pub visit-IsIntact :
      (d : IsSmall ctx.tor) (clock : ℕ) (r : Result) (m : Monitor)
      → IsSound r
      → IsIntact m
      → IsIntact (visit clock r m)
  visit-IsIntact d clock (piece_complete c) m (index, match) v =
      let g : IsSized ctx.tor c = record {
        index = index;
        size = match.size;
        whole = match.whole;
      } in
      let (f, e) = visit-file clock c m in
      write-IsIntact d c g m (visit clock (piece_complete c) m) match
        (f ∙ write-written ctx.tor d c g m.file) e v
  visit-IsIntact d clock (peer_connected a) m s v =
      let (f, e) = visit-other clock a m in IsIntact-same m (visit clock (peer_connected a) m) f e v
  visit-IsIntact d clock (peer_dropped a) m s v =
      let (f, e) = visit-dropped clock a m in IsIntact-same m (visit clock (peer_dropped a) m) f e v

  pub new_monitor-IsIntact : (clock : ℕ) → IsIntact (new_monitor ctx clock)
  unfolding new_monitor
  new_monitor-IsIntact clock = record {
    size = length-replicate {A = ℕ} ctx.tor.file_length 0;
    checked = λ i h. inl (ground (arith, has-push_all (pieces ctx.tor) 0 i []));
  }

  pub IsIntact-IsChecked :
      (m : Monitor)
      → complete m ≡ true
      → IsIntact m
      → (i : ℕ) → i < pieces ctx.tor
      → IsChecked m.file i
  unfolding complete
  IsIntact-IsChecked m done v i h = elim (v.checked i h) [
    | inl missing ↦ cc (missing, has_of_is_empty i m.missing_pieces done)
    | inr right ↦ right
  ]
