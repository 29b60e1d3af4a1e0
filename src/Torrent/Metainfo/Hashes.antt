-- ===== src/Torrent/Metainfo/Hashes.antt =====
-- The hashes of the pieces, as the metainfo file lists them.
use picotor.Base.{
  ℕ, zero, suc, ◌<◌, ◌≡◌, refl, sym, ap, ◌∙◌, false, List, [], ◌∷◌, ◌++◌, append_assoc, append-nil,
  arith, Bytes, All, length, length-append, drop, take-append, drop-append, ltb, le→ltb, ok,
}
use picotor.Common.Hash.{Hash, hash_size}
use picotor.Common.Hash
use picotor.Torrent.Metainfo.{hash_loop, read_hashes}

abbrev pub IsHash : Hash → Type 0
IsHash h = length h.bytes ≡ hash_size

abbrev pub joined_hashes : List Hash → Bytes
joined_hashes [] = []
joined_hashes (h ∷ hs) = h.bytes ++ joined_hashes hs

from_pointer-append :
    (h : Hash) (rest : Bytes) → IsHash h → Hash.from_pointer (h.bytes ++ rest) ≡ ok h
unfolding Hash.from_pointer
from_pointer-append h rest e =
    let long : ltb (length (h.bytes ++ rest)) hash_size ≡ false =
      le→ltb _ _ (omega (arith, length-append h.bytes rest)) in
    rw long (
      ap (λ (b : Bytes). let k : Hash = record { bytes = b } in ok k)
        (take-append hash_size h.bytes rest e))

hash_loop-step :
    (f : ℕ) (chars behind : Bytes) (hashes : List Hash) (h : Hash)
    → 0 < length chars
    → Hash.from_pointer (chars ++ behind) ≡ ok h
    → hash_loop (suc f) chars behind hashes
      ≡ hash_loop f (drop hash_size chars) behind (hashes ++ h ∷ [])
unfolding hash_loop
hash_loop-step f [] behind hashes h long e = absurd (omega arith)
hash_loop-step f (c ∷ chars) behind hashes h long e = rw e

hash_loop-nil :
    (f : ℕ) (behind : Bytes) (hashes : List Hash) → hash_loop (suc f) [] behind hashes ≡ ok hashes
unfolding hash_loop
hash_loop-nil f behind hashes = refl

hash_loop-joined :
    (f : ℕ) (hs : List Hash) (behind : Bytes) (hashes : List Hash)
    → All IsHash hs
    → length (joined_hashes hs) < f
    → hash_loop f (joined_hashes hs) behind hashes ≡ ok (hashes ++ hs)
hash_loop-joined zero hs behind hashes a fuel = absurd (omega arith)
hash_loop-joined (suc f) [] behind hashes a fuel =
    hash_loop-nil f behind hashes ∙ ap ok (sym (append-nil hashes))
hash_loop-joined (suc f) (h ∷ hs) behind hashes a fuel =
    let total = length-append h.bytes (joined_hashes hs) in
    hash_loop-step f (h.bytes ++ joined_hashes hs) behind hashes h (omega (arith, total, a.0)) (
      ap Hash.from_pointer (append_assoc h.bytes _ _)
      ∙ from_pointer-append h (joined_hashes hs ++ behind) a.0)
    ∙ ap (λ s. hash_loop f s behind (hashes ++ h ∷ []))
        (drop-append hash_size h.bytes (joined_hashes hs) a.0)
    ∙ hash_loop-joined f hs behind (hashes ++ h ∷ []) a.1 (omega (arith, total, a.0))
    ∙ ap ok (append_assoc hashes _ _)

-- A string of whole hashes is cut into those hashes, in order; the rounds of the model suffice, and
-- nothing behind the string is read.
pub read_hashes-joined :
    (hs : List Hash) (behind : Bytes)
    → All IsHash hs
    → read_hashes (record { chars = joined_hashes hs; behind = behind }) ≡ ok hs
unfolding read_hashes
read_hashes-joined hs behind a = hash_loop-joined _ hs behind [] a (omega arith)
