-- ===== src/Message/Handshake/RoundTrip.antt =====
-- A handshake that is sent is read back.
use picotor.Base.{
  ℕ, ◌+◌, ◌%◌, ◌≡◌, refl, sym, ap, ◌∙◌, ◌∷◌, ◌++◌, append-nil, arith, Bytes, length, length-append,
  drop-all, replicate,
}
use picotor.Stream.{Junk, scratch, length-scratch, stream, read, read-append}
use picotor.Common.Hex.{is_space}
use picotor.Common.Hash.{Hash, hash_size}
use picotor.Message.Handshake.{
  bittorrent, Handshake, extract_char, drain, parse, serialise, new_handshake,
}

-- A handshake of this protocol with fields of the right sizes.
pub record IsHandshake (h : Handshake) : Type 0 where
  pub protocol : h.protocol_str ≡ bittorrent
  pub extensions : length h.extensions ≡ 8
  pub hash : length h.info_hash.bytes ≡ hash_size

read_whole :
    (n : ℕ) (buffer front back : Bytes)
    → length front ≡ n
    → length buffer ≡ n
    → read n buffer (stream (front ++ back)) ≡ (front, stream back)
read_whole n buffer front back h k =
    read-append n buffer front back h
    ∙ ap (λ (b : Bytes). (b, stream back))
        (ap (◌++◌ front) (drop-all n buffer (omega arith)) ∙ append-nil front)

parse-fields :
    (junk : Junk) (extensions hash id : Bytes)
    → length extensions ≡ 8
    → length hash ≡ hash_size
    → parse junk (19 ∷ (bittorrent ++ (extensions ++ (hash ++ id)))) ≡ record {
      protocol_str = bittorrent;
      extensions = extensions;
      info_hash = record { bytes = hash };
      peer_id = id;
    }
unfolding parse extract_char is_space drain
parse-fields junk extensions hash id he hh = rw (
  read_whole 19 (scratch junk 1 19) bittorrent (extensions ++ (hash ++ id)) refl
      (length-scratch junk 1 19),
  read_whole 8 (replicate 8 0) extensions (hash ++ id) he refl,
  read_whole hash_size (scratch junk 256 hash_size) hash id hh (length-scratch junk 256 hash_size),
)

-- `parse` undoes `serialise`, whatever the memory of its local variables held.
pub parse-serialise : (junk : Junk) (h : Handshake) → IsHandshake h → parse junk (serialise h) ≡ h
unfolding serialise
parse-serialise junk h v =
    ap
      (λ (p : Bytes).
        parse junk ((length p % 256) ∷ (p ++ (h.extensions ++ (h.info_hash.bytes ++ h.peer_id)))))
      v.protocol
    ∙ parse-fields junk h.extensions h.info_hash.bytes h.peer_id v.extensions v.hash
    ∙ ap (λ (p : Bytes). let k : Handshake = record h { protocol_str = p } in k) (sym v.protocol)

pub new_handshake-IsHandshake :
    (hash : Hash) (id : Bytes)
    → length hash.bytes ≡ hash_size
    → IsHandshake (new_handshake hash id)
      × (length (serialise (new_handshake hash id)) ≡ 48 + length id)
unfolding new_handshake serialise
new_handshake-IsHandshake hash id e = (
  record { protocol = refl; extensions = refl; hash = e },
  omega (arith, e, length-append hash.bytes id),
)
