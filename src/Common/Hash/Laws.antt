-- ===== src/Common/Hash/Laws.antt =====
-- Digests: their size, their print and their comparison.
use picotor.Base.{◌≡◌, refl, ap, true, [], ◌∷◌, ◌↔◌, arith, Bytes, length, All, ok}
use picotor.Common.Hex.{hex_to_bytes, IsHexDigit, as_hex-hex_to_bytes}
use picotor.Common.Hash.{Hash, hash_size, from_vector, of, to_hex, equals, same_bytes}

-- What SHA-1 promises of its result: forty lower-case hexadecimal digits.
pub record IsDigest (sha1 : Bytes → Bytes) : Type 0 where
  pub long : (s : Bytes) → length (sha1 s) ≡ 40
  pub hex : (s : Bytes) → All IsHexDigit (sha1 s)

-- With a SHA-1 whose digests are forty lower-case hexadecimal digits `Hash::of` never fails its
-- assertion, and the hash that it gives has 20 bytes and prints as the digest.
pub to_hex-of :
    (sha1 : Bytes → Bytes) (s : Bytes)
    → IsDigest sha1
    → (h : Hash) × (of sha1 s ≡ ok h) × (length h.bytes ≡ hash_size) × (to_hex h ≡ sha1 s)
unfolding of from_vector to_hex
to_hex-of sha1 s d =
    let (l, e) = as_hex-hex_to_bytes 20 (sha1 s) (d.long s) (d.hex s) in
    (record { bytes = hex_to_bytes (sha1 s) }, ground arith, l, e)

pub same_bytes_iff : (xs ys : Bytes) → (same_bytes xs ys ≡ true) ↔ (xs ≡ ys)
same_bytes_iff [] [] = ((λ _. refl), (λ _. refl))
same_bytes_iff [] (y ∷ ys) = ((λ h. cc), (λ h. cc))
same_bytes_iff (x ∷ xs) [] = ((λ h. cc), (λ h. cc))
same_bytes_iff (x ∷ xs) (y ∷ ys) =
    let (f, g) = same_bytes_iff xs ys in ((λ h. ground (arith, f)), (λ h. ground (arith, g)))

-- Two hashes compare equal exactly when they are the same.
pub equals_iff : (a b : Hash) → (equals a b ≡ true) ↔ (a ≡ b)
unfolding equals
equals_iff a b =
    let (f, g) = same_bytes_iff a.bytes b.bytes in
    ((λ h. ap (λ (v : Bytes). record { bytes = v }) (f h)), (λ h. g (ap (λ (k : Hash). k.bytes) h)))
