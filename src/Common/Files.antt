-- ===== src/Common/Files.antt =====
-- `cmn::read_file` of src/common.cpp. The stream is what is left of the file; a file that cannot be
-- opened is empty, since each read of it fails at once.
use picotor.Base.{
  ℕ, zero, suc, ◌+◌, ◌*◌, ◌/◌, ◌<◌, ◌≡◌, ap, ◌∙◌, [], ◌++◌, append_assoc, arith, Bytes, ltb, length,
  take, drop, if◌then◌else◌, Outcome, ok, fault, out_of_fuel, Bool-cases, inl, inr,
  take-append-drop, length-drop, take-all, ltb→lt, ltb→le,
}

abbrev pub read_size : ℕ
read_size = 4096

-- A round reads a full buffer, or what is left, and then the loop ends.
read_loop : ℕ → Bytes → Bytes → Outcome Bytes
read_loop zero stream out = fault out_of_fuel
read_loop (suc f) stream out =
    let buf = take read_size stream in
    let more = read_loop f (drop read_size stream) (out ++ buf) in
    if ltb (length stream) read_size then ok (out ++ buf) else more

unfoldable pub read_file : Bytes → Outcome Bytes
unfolding read_loop
read_file content = read_loop (length content / read_size + 1) content []

read_loop-append :
    (f : ℕ) (stream out : Bytes)
    → length stream < f * read_size
    → read_loop f stream out ≡ ok (out ++ stream)
unfolding read_loop
read_loop-append zero stream out h = absurd (omega arith)
read_loop-append (suc f) stream out h = elim (Bool-cases (ltb (length stream) read_size)) [
  | inl last ↦ rw last (
      ap (λ s. ok (out ++ s))
        (take-all read_size stream (omega (arith, ltb→lt (length stream) read_size))))
  | inr full ↦ rw full (
      read_loop-append f (drop read_size stream) (out ++ take read_size stream)
        (omega (arith, length-drop read_size stream, ltb→le (length stream) read_size))
      ∙ ap ok (append_assoc out _ _ ∙ ap (◌++◌ out) (take-append-drop read_size stream)))
]

-- The rounds suffice, and the whole file is returned.
pub read_file-content : (content : Bytes) → read_file content ≡ ok content
unfolding read_file
read_file-content content = read_loop-append _ content [] (omega arith)
