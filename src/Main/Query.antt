-- ===== src/Main/Query.antt =====
-- `send_request` of src/main.cpp: the query that the tracker gets.
use picotor.Base.{
  ℕ, ◌+◌, ◌≡◌, refl, ap, false, ◌∙◌, [], ◌∷◌, ◌++◌, arith, Bytes, codes, All, IsByte, length, drop,
  drop_past, if◌then◌else◌, ◌==◌,
}
use picotor.Common.Urlencode.{urlencode, is_plain}
use picotor.Common.Urlencode.Decode.{decode, decode-urlencode, IsQueryChar, urlencode-IsQueryChar}
use picotor.Torrent.Metainfo.{SingleFileTorrent}
use picotor.Main.{request_url}

-- A field of a query ends at the next `&`.
abbrev pub field : Bytes → Bytes
field [] = []
field (c ∷ s) = if c == b'&' then [] else c ∷ field s

no_end : (c : ℕ) → IsQueryChar c → (c == b'&') ≡ false
unfolding is_plain
no_end c plain = ground arith

field-IsQueryChar : (s rest : Bytes) → All IsQueryChar s → field (s ++ b'&' ∷ rest) ≡ s
field-IsQueryChar [] rest plain = refl
field-IsQueryChar (c ∷ s) rest (plain, more) =
    rw (no_end c plain) (ap (◌∷◌ c) (field-IsQueryChar s rest more))

-- A tracker that reads the query of the request finds the hash: the field behind `?info_hash=` ends at
-- the next `&` and decodes to the 20 bytes, whatever bytes they are.
pub request_url-info_hash :
    (tor : SingleFileTorrent)
    → All IsByte tor.info_hash.bytes
    → decode (field (drop (length tor.announce + length (codes "?info_hash=")) (request_url tor)))
      ≡ tor.info_hash.bytes
unfolding request_url
request_url-info_hash tor bytes =
    let hash = tor.info_hash.bytes in
    ap (λ s. decode (field s)) (drop_past (length (codes "?info_hash=")) tor.announce _)
    ∙ ap decode (field-IsQueryChar (urlencode hash) _ (urlencode-IsQueryChar hash bytes))
    ∙ decode-urlencode hash bytes
