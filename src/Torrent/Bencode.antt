-- ===== src/Torrent/Bencode.antt =====
-- What the program uses of the vendored bencode library: decoding, access to the variant, lookup in a
-- dictionary, and encoding.
use picotor.Base.{
  ℕ, ◌-◌, ◌%◌, Bytes, Option, Outcome, or_fault, syntax_error, bad_variant, out_of_range, ◌>>=◌,
}
use picotor.Common.Words.{u32_mod}

-- `negsuc n` is -(n + 1).
pub data ℤ : Type 0 where
  pos : ℕ → ℤ
  negsuc : ℕ → ℤ

-- A `string_view` into the decoded text: the bytes that it covers, and those behind it in memory.
pub record View : Type 0 where
  pub chars : Bytes
  pub behind : Bytes

-- `none` is the exception that the library or `std::get` throws.
pub record Bencode (Value Dict : Type 0) : Type 0 where
  pub decode_view : Bytes → Option Value
  pub dict_view : Value → Option Dict
  pub string_view : Value → Option View
  pub integer_view : Value → Option ℤ
  pub find : Dict → Bytes → Option Value
  pub encode : Dict → Bytes

-- The conversion of a `long long` to `uint32_t`.
unfoldable pub to_u32 : ℤ → ℕ
to_u32 (pos n) = n % u32_mod
to_u32 (negsuc n) = u32_mod - 1 - n % u32_mod

module _ {Value Dict : Type 0} (b : Bencode Value Dict) where
  -- `std::get<bencode::dict_view>(bencode::decode_view(data))`
  unfoldable pub decode_dict : Bytes → Outcome Dict
  decode_dict text = do
    value ← or_fault (b.decode_view text) syntax_error
    or_fault (b.dict_view value) bad_variant

  -- `std::get<…>(dict.at(key))`
  unfoldable pub get_dict : Dict → Bytes → Outcome Dict
  get_dict dict key = do
    value ← or_fault (b.find dict key) out_of_range
    or_fault (b.dict_view value) bad_variant

  unfoldable pub get_string : Dict → Bytes → Outcome View
  get_string dict key = do
    value ← or_fault (b.find dict key) out_of_range
    or_fault (b.string_view value) bad_variant

  unfoldable pub get_u32 : Dict → Bytes → Outcome ℕ
  get_u32 dict key = do
    value ← or_fault (b.find dict key) out_of_range
    number ← or_fault (b.integer_view value) bad_variant
    Outcome.ok (to_u32 number)
