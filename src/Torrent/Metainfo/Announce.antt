-- ===== src/Torrent/Metainfo/Announce.antt =====
-- What becomes of the announce address.
use picotor.Base.{
  ℕ, zero, suc, ◌+◌, ◌≡◌, refl, ap, ap₂, true, false, [], ◌∷◌, ◌++◌, ◌⊎◌, inl, inr, none, some,
  arith, Bytes, codes, take, drop, length, Bool-cases, Option-cases,
}
use picotor.Torrent.Metainfo.{udp, http, starts_with, find_udp, ensure_http}

starts_with-split : (p s : Bytes) → starts_with p s ≡ true → s ≡ p ++ drop (length p) s
starts_with-split [] s h = refl
starts_with-split (x ∷ p) [] h = cc
starts_with-split (x ∷ p) (c ∷ s) h = ap₂ ◌∷◌ (ground arith) (starts_with-split p s (ground arith))

-- No `udp` starts in the text, before its end is met.
abbrev pub LacksUdp : Bytes → Type 0
LacksUdp [] = Unit {0}
LacksUdp (c ∷ s) = (starts_with udp (c ∷ s) ≡ false) × LacksUdp s

find_udp-none : (s : Bytes) → find_udp s ≡ none → LacksUdp s
unfolding find_udp
find_udp-none [] h = tt
find_udp-none (c ∷ s) h = elim (Bool-cases (starts_with udp (c ∷ s))) [
  | inl here ↦ absurd (ground arith)
  | inr miss ↦ (miss, find_udp-none s (ground arith))
]

find_udp-nil : (i : ℕ) → ¬ (find_udp [] ≡ some i)
unfolding find_udp
find_udp-nil i h = cc

-- It starts at none of the first `i` places.
abbrev pub LacksUdpBefore : ℕ → Bytes → Type 0
LacksUdpBefore zero s = Unit {0}
LacksUdpBefore (suc i) [] = Unit {0}
LacksUdpBefore (suc i) (c ∷ s) = (starts_with udp (c ∷ s) ≡ false) × LacksUdpBefore i s

abbrev Found : ℕ → Bytes → Type 0
Found i s = (s ≡ take i s ++ (udp ++ drop (i + 3) s)) × LacksUdpBefore i s

find_udp-step :
    (c : ℕ) (s : Bytes) (i : ℕ)
    → starts_with udp (c ∷ s) ≡ false
    → find_udp (c ∷ s) ≡ some i
    → (j : ℕ) × (find_udp s ≡ some j) × (i ≡ suc j)
unfolding find_udp
find_udp-step c s i miss h = elim (Option-cases (find_udp s)) [
  | inl never ↦ absurd (ground arith)
  | inr (j, later) ↦ (j, later, ground arith)
]

find_udp-first :
    (c : ℕ) (s : Bytes) (i : ℕ) → starts_with udp (c ∷ s) ≡ true → find_udp (c ∷ s) ≡ some i → i ≡ 0
unfolding find_udp
find_udp-first c s i here h = ground arith

Found-suc :
    (c : ℕ) (s : Bytes) (j : ℕ)
    → starts_with udp (c ∷ s) ≡ false
    → Found j s
    → Found (suc j) (c ∷ s)
Found-suc c s j miss (e, before) =
    let more : suc j + 3 ≡ suc (j + 3) = omega arith in rw more (ap (◌∷◌ c) e, (miss, before))

find_udp-Found : (s : Bytes) (i : ℕ) → find_udp s ≡ some i → Found i s
find_udp-Found [] i h = absurd (find_udp-nil i h)
find_udp-Found (c ∷ s) i h = elim (Bool-cases (starts_with udp (c ∷ s))) [
  | inl here ↦ rw (find_udp-first c s i here h) (starts_with-split udp (c ∷ s) here, tt)
  | inr miss ↦
      let (j, later, e) = find_udp-step c s i miss h in
      rw e (Found-suc c s j miss (find_udp-Found s j later))
]

-- An address without `udp` is kept. In any other the first `udp`, wherever it stands, becomes `http`,
-- and what is in front of it and behind it stays.
pub ensure_http_cases :
    (s : Bytes)
    → (LacksUdp s × (ensure_http s ≡ s))
      ⊎ ((i : ℕ) × (s ≡ take i s ++ (udp ++ drop (i + 3) s))
          × LacksUdpBefore i s
          × (ensure_http s ≡ take i s ++ (http ++ drop (i + 3) s)))
unfolding ensure_http
ensure_http_cases s = elim (Option-cases (find_udp s)) [
  | inl never ↦ inl (
    find_udp-none s never,
    ap
        (λ o. elim o [
          | none ↦ s
          | some start_pos ↦ take start_pos s ++ (http ++ drop (start_pos + 3) s)
        ])
        never,
  )
  | inr (i, here) ↦
      let (e, before) = find_udp-Found s i here in inr (i, e, before, rw (here, ensure_http))
]

ensure_http_test :
    (ensure_http (codes "udp://t:1") ≡ codes "http://t:1")
    × (ensure_http (codes "http://udp.org") ≡ codes "http://http.org")
unfolding ensure_http find_udp
ensure_http_test = (refl, refl)
