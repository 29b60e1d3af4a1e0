-- ===== src/Common/Urlencode.antt =====
-- `cmn::urlencode` of src/common.cpp.
pub mod Decode
use picotor.Base.{
  ℕ, ◌+◌, ◌*◌, ◌/◌, ◌%◌, ◌<◌, ◌≡◌, refl, Bool, true, false, ◌&&◌, ◌||◌, List, [], ◌∷◌, ◌++◌, Option,
  none, some, arith, Bytes, codes, ltb, leb, ◌==◌, if◌then◌else◌,
}
use picotor.Common.Hex.{hexchar}

-- A `char` above 127 is negative in the source and fails each of these tests, as it does here.
unfoldable pub is_plain : ℕ → Bool
is_plain c =
    (leb b'0' c && leb c b'9')
    || ((leb b'a' c && leb c b'z')
        || ((leb b'A' c && leb c b'Z')
            || (c == b'-'
                || (c == b'_'
                    || (c == b'.'
                        || (c == b'!'
                            || (c == b'~'
                                || (c == b'*' || (c == b'\'' || (c == b'(' || c == b')'))))))))))

-- What one round of the loop appends.
unfoldable pub encode_char : ℕ → Bytes
encode_char c =
    if is_plain c
    then c ∷ []
    else if c == b' '
    then b'+' ∷ []
    else b'%' ∷ (hexchar c).0 ∷ (hexchar c).1 ∷ []

unfoldable pub urlencode_loop : Bytes → Bytes → Bytes
urlencode_loop [] v = v
urlencode_loop (c ∷ s) v = urlencode_loop s (v ++ encode_char c)

-- Both overloads: the one for `vector<char>` copies its bytes into a string first.
unfoldable pub urlencode : Bytes → Bytes
unfolding urlencode_loop
urlencode s = urlencode_loop s []

urlencode_test : urlencode (codes "a b/c~" ++ 255 ∷ []) ≡ codes "a+b%2fc~%ff"
unfolding urlencode encode_char is_plain hexchar
urlencode_test = refl
