-- ===== src/Main/System/Refinement/Holder.antt =====
-- The peer of src/main.cpp that holds a piece.
use picotor.Base.{
  ℕ, suc, ◌+◌, ◌<◌, ◌≡◌, refl, List, [], ◌∷◌, ◌++◌, none, some, arith, length, ltb, inl, inr,
  Bool-cases, ltb→le,
}
use picotor.Peer.State.{Peer}
use picotor.Peer.Run.Ownership.{held}
use picotor.Main.Client.{held_by_all}
use picotor.Main.System.Refinement.{holder}

pub holder-none : (a : ℕ) (ps : List Peer) → held_by_all a ps ≡ 0 → holder a ps ≡ none
unfolding holder
holder-none a [] e = refl
holder-none a (p ∷ ps) e = ground (arith, holder-none a ps (omega arith))

module _ (a : ℕ) (back : List Peer) where
  pub held_by_all-at :
      (front : List Peer) (p : Peer)
      → held_by_all a (front ++ p ∷ back) ≡ held_by_all a front + held a p + held_by_all a back
  held_by_all-at [] p = omega arith
  held_by_all-at (x ∷ front) p = omega (arith, held_by_all-at front p)

  pub holder-at :
      (front : List Peer) (p : Peer)
      → held_by_all a front ≡ 0
      → 0 < held a p
      → holder a (front ++ p ∷ back) ≡ some (length front)
  unfolding holder
  holder-at [] p e h = ground arith
  holder-at (x ∷ front) p e h = ground (arith, holder-at front p (omega arith) h)

  pub holder-other :
      (front : List Peer) (p p' : Peer)
      → held a p ≡ 0
      → held a p' ≡ 0
      → holder a (front ++ p' ∷ back) ≡ holder a (front ++ p ∷ back)
  unfolding holder
  holder-other [] p p' e e' = ground arith
  holder-other (x ∷ front) p p' e e' = ground (arith, holder-other front p p' e e')

pub holder-some : (a : ℕ) (ps : List Peer) → 0 < held_by_all a ps → (k : ℕ) × (holder a ps ≡ some k)
unfolding holder
holder-some a [] h = absurd (omega arith)
holder-some a (p ∷ ps) h = elim (Bool-cases (ltb 0 (held a p))) [
  | inl own ↦ (0, rw own refl)
  | inr other ↦
      let z = ltb→le 0 (held a p) other in
      let (k, e) = holder-some a ps (omega (arith, z)) in (suc k, rw (other, e) refl)
]
