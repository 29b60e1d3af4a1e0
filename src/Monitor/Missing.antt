-- ===== src/Monitor/Missing.antt =====
-- Which pieces the monitor still waits for.
use picotor.Base.{
  ℕ, zero, suc, ◌+◌, ◌<◌, ◌≡◌, refl, ap, ◌∙◌, Bool, true, false, not, ◌&&◌, ◌||◌, List, [], ◌∷◌,
  ◌++◌, arith, ltb, leb, ◌==◌, Bool-cases, inl, inr, ◌↔◌,
}
use picotor.Torrent.Metainfo.{pieces}
use picotor.Result.{Result, piece_complete, peer_connected, peer_dropped, TorrentContext}
use picotor.Monitor.{
  Monitor, push_all, new_monitor, is_empty, complete, erase_piece, report_progress,
  on_piece_complete, on_peer_connected, on_peer_dropped, visit, monitor_loop, monitor_thread,
}

abbrev pub has : ℕ → List ℕ → Bool
has i [] = false
has i (x ∷ xs) = (x == i) || has i xs

-- Piece `i` is among the results.
abbrev pub reported : ℕ → List (ℕ × Result) → Bool
reported i [] = false
reported i ((clock, piece_complete c) ∷ rs) = (c.piece_index == i) || reported i rs
reported i (_ ∷ rs) = reported i rs

has-append : (i : ℕ) (xs ys : List ℕ) → has i (xs ++ ys) ≡ (has i xs || has i ys)
has-append i [] ys = refl
has-append i (x ∷ xs) ys = ground (arith, has-append i xs ys)

pub has-push_all :
    (n k i : ℕ) (xs : List ℕ) → has i (push_all n k xs) ≡ (has i xs || (leb k i && ltb i (k + n)))
unfolding push_all
has-push_all zero k i xs = ground arith
has-push_all (suc n) k i xs =
    ground (arith, has-push_all n (k + 1) i (xs ++ k ∷ []), has-append i xs (k ∷ []))

pub has-erase_piece :
    (i j : ℕ) (xs : List ℕ) → has i (erase_piece j xs) ≡ (not (j == i) && has i xs)
unfolding erase_piece
has-erase_piece i j [] = ground arith
has-erase_piece i j (x ∷ xs) = ground (arith, has-erase_piece i j xs)

pub has-visit :
    (clock i : ℕ) (r : Result) (m : Monitor)
    → has i (visit clock r m).missing_pieces
      ≡ (not (reported i ((clock, r) ∷ [])) && has i m.missing_pieces)
unfolding visit on_piece_complete on_peer_connected on_peer_dropped report_progress
has-visit clock i (piece_complete c) m =
    ground (arith, has-erase_piece i c.piece_index m.missing_pieces)
has-visit clock i (peer_connected a) m = ground arith
has-visit clock i (peer_dropped a) m = refl

pub has_of_is_empty : (i : ℕ) (xs : List ℕ) → is_empty xs ≡ true → has i xs ≡ false
unfolding is_empty
has_of_is_empty i [] h = refl
has_of_is_empty i (x ∷ xs) h = cc

has-complete :
    (i : ℕ) (m : Monitor) (b : Bool)
    → complete m ≡ true
    → has i m.missing_pieces ≡ (b && has i m.missing_pieces)
unfolding complete
has-complete i m b done = ground (arith, has_of_is_empty i m.missing_pieces done)

has_twice :
    (i clock : ℕ) (r : Result) (rs : List (ℕ × Result)) (old new : Bool)
    → new ≡ (not (reported i ((clock, r) ∷ [])) && old)
    → (not (reported i rs) && new) ≡ (not (reported i ((clock, r) ∷ rs)) && old)
has_twice i clock (piece_complete c) rs old new e = ground arith
has_twice i clock (peer_connected a) rs old new e = ground arith
has_twice i clock (peer_dropped a) rs old new e = ground arith

pub has-monitor_loop :
    (i : ℕ) (rs : List (ℕ × Result)) (m : Monitor)
    → has i (monitor_loop rs m).missing_pieces ≡ (not (reported i rs) && has i m.missing_pieces)
unfolding monitor_loop
has-monitor_loop i [] m = refl
has-monitor_loop i ((clock, r) ∷ rs) m = elim (Bool-cases (complete m)) [
  | inl done ↦ rw done (has-complete i m _ done)
  | inr more ↦ rw more (
      has-monitor_loop i rs (visit clock r m)
      ∙ has_twice i clock r rs (has i m.missing_pieces) (has i (visit clock r m).missing_pieces)
          (has-visit clock i r m))
]

has-start :
    (ctx : TorrentContext) (clock : ℕ) (rs : List (ℕ × Result)) (i : ℕ)
    → has i (monitor_loop rs (new_monitor ctx clock)).missing_pieces
      ≡ (not (reported i rs) && ltb i (pieces ctx.tor))
unfolding new_monitor
has-start ctx clock rs i =
    has-monitor_loop i rs (new_monitor ctx clock)
    ∙ ap (λ b. not (reported i rs) && b) (has-push_all (pieces ctx.tor) 0 i [] ∙ ground arith)

pub is_empty_of_none : (xs : List ℕ) → ((i : ℕ) → has i xs ≡ false) → is_empty xs ≡ true
unfolding is_empty
is_empty_of_none [] h = refl
is_empty_of_none (x ∷ xs) h = absurd (ground (arith, h x))

-- The monitor's loop ends exactly when every piece of the torrent is among the results, in any order,
-- with any results of other kinds between them.
pub complete_iff :
    (ctx : TorrentContext) (clock : ℕ) (rs : List (ℕ × Result))
    → (complete (monitor_thread ctx clock rs) ≡ true)
      ↔ ((i : ℕ) → i < pieces ctx.tor → reported i rs ≡ true)
unfolding monitor_thread complete
complete_iff ctx clock rs = (
  λ done i h. ground (
    arith,
    has_of_is_empty i (monitor_loop rs (new_monitor ctx clock)).missing_pieces done,
    has-start ctx clock rs i,
  ),
  λ all. is_empty_of_none _ λ i. ground (arith, all i, has-start ctx clock rs i),
)
