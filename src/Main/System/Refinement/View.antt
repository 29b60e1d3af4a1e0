-- ===== src/Main/System/Refinement/View.antt =====
-- The abstract view of a piece of the client of src/main.cpp, and what a peer does to it.
use picotor.Base.{
  ℕ, ◌+◌, ◌<◌, ◌≡◌, sym, ◌∙◌, List, ◌∷◌, ◌++◌, Option, none, some, arith, length, ltb, ◌⊎◌, inl,
  inr, Bool-cases, Option-cases, ltb→lt, ltb→le,
}
use mathlib.Core.Option.{none-ne-some}
use picotor.Peer.State.{Peer}
use picotor.Peer.Run.Ownership.{held}
use picotor.Main.Client.{held_by_all}
use picotor.Main.System.Refinement.{
  Place, queued, taken, reported, stored, peer, take_up, put_down, report, Runs, stay, go, holder,
  place_of,
}
use picotor.Main.System.Refinement.Holder.{holder-none, held_by_all-at, holder-at, holder-other}

module _ (c w : ℕ) (o : Option ℕ) where
  pub place_of-queued : 0 < c → place_of c o w ≡ queued
  place_of-queued h = elim (Option-cases o) [
    | inl e ↦ rw e (ground arith)
    | inr (k, e) ↦ rw e (ground arith)
  ]

  place_of-taken : (k : ℕ) → c ≡ 0 → o ≡ some k → place_of c o w ≡ taken k
  place_of-taken k z e = rw e (ground arith)

  pub place_of-reported : c ≡ 0 → o ≡ none → 0 < w → place_of c o w ≡ reported
  place_of-reported z e h = rw e (ground arith)

pub place_of-stored : (c w : ℕ) (o : Option ℕ) → c ≡ 0 → o ≡ none → w ≡ 0 → place_of c o w ≡ stored
place_of-stored c w o z e h = rw e (ground arith)

IsMine : ℕ → Place → Type 0
IsMine k x = (x ≡ queued) ⊎ (x ≡ taken k)

Runs-mine : (k : ℕ) (x y : Place) → IsMine k x → IsMine k y ⊎ (y ≡ reported) → Runs (peer k) x y
unfolding IsMine
Runs-mine k x y (inl e) (inl (inl e')) = rw (e, e') stay
Runs-mine k x y (inl e) (inl (inr e')) = rw (e, e') (go stay take_up)
Runs-mine k x y (inl e) (inr e') = rw (e, e') (go (go stay take_up) report)
Runs-mine k x y (inr e) (inl (inl e')) = rw (e, e') (go stay put_down)
Runs-mine k x y (inr e) (inl (inr e')) = rw (e, e') stay
Runs-mine k x y (inr e) (inr e') = rw (e, e') (go stay report)

module _ (a : ℕ) (front back : List Peer) where
  -- A peer with nothing before it has the piece in its hands, if the queue has it or it holds it.
  mine :
      (p : Peer) (c w : ℕ)
      → held_by_all a front ≡ 0
      → 0 < c + held a p
      → IsMine (length front) (place_of c (holder a (front ++ p ∷ back)) w)
  unfolding IsMine
  mine p c w e h = elim (Bool-cases (ltb 0 c)) [
    | inl some_ ↦ inl (place_of-queued c w _ (ltb→lt 0 c some_))
    | inr none_ ↦
        let z = ltb→le 0 c none_ in
        inr (
          place_of-taken c w _ (length front) (omega (arith, z))
            (holder-at a back front p e (omega (arith, z))))
  ]

  pub own_step :
      (p p' : Peer) (c c' w n r : ℕ)
      → c + held_by_all a (front ++ p ∷ back) + w + r ≡ 1
      → c' + held a p' + n ≡ c + held a p
      → Runs
          (peer (length front))
          (place_of c (holder a (front ++ p ∷ back)) w)
          (place_of c' (holder a (front ++ p' ∷ back)) (w + n))
  own_step p p' c c' w n r total exchanged =
      let at = held_by_all-at a back front p in
      elim (Bool-cases (ltb 0 (c + held a p))) [
        | inl own ↦
            let h = ltb→lt 0 (c + held a p) own in
            let front_free : held_by_all a front ≡ 0 = omega (arith, at) in
            Runs-mine (length front) _ _ (mine p c w front_free h)
              (elim (Bool-cases (ltb 0 (c' + held a p'))) [
                | inl kept ↦ inl (mine p' c' (w + n) front_free (ltb→lt 0 _ kept))
                | inr gone ↦
                    let z = ltb→le 0 _ gone in
                    inr (
                      place_of-reported c' (w + n) _ (omega (arith, z))
                        (holder-none a (front ++ p' ∷ back)
                          (omega (arith, z, at, held_by_all-at a back front p')))
                        (omega (arith, z)))
              ])
        | inr other ↦
            let z = ltb→le 0 (c + held a p) other in
            let same = holder-other a back front p p' (omega (arith, z)) (omega (arith, z)) in
            let c_same : c' ≡ c = omega (arith, z) in
            let w_same : w + n ≡ w = omega (arith, z) in rw (same, c_same, w_same) stay
      ]

pub stored_only :
    (c h w : ℕ) (o : Option ℕ)
    → (0 < h → (k : ℕ) × (o ≡ some k))
    → place_of c o w ≡ stored
    → c + h + w ≡ 0
stored_only c h w o some_holder e = elim (Option-cases o) [
  | inr (k, at) ↦
      let e' : place_of c (some k) w ≡ stored = rw at at e in absurd (ground (arith, e'))
  | inl at ↦
      let e' : place_of c none w ≡ stored = rw at at e in
      elim (Bool-cases (ltb 0 h)) [
        | inl some_ ↦
            let (k, at') = some_holder (ltb→lt 0 h some_) in absurd (none-ne-some k (sym at ∙ at'))
        | inr none_ ↦ ground (arith, e', ltb→le 0 h none_)
      ]
]
