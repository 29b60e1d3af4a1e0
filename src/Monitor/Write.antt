-- ===== src/Monitor/Write.antt =====
-- What a write into the file changes, byte by byte.
use picotor.Base.{
  ℕ, ◌+◌, ◌-◌, ◌≤◌, ◌<◌, ◌≡◌, sym, ap, ◌∙◌, ◌++◌, arith, Bytes, length, length-append, length-take,
  length-drop, take, drop, get_elem?, get_elem?-take, get_elem?-drop, get_elem?-append_left,
  get_elem?-append_right,
}
use picotor.Monitor.{write_at}

module _ (file : Bytes) (offset : ℕ) (bytes : Bytes)
    (fits : offset + length bytes ≤ length file) where
  write_at-inside :
      write_at file offset bytes ≡ take offset file ++ (bytes ++ drop (offset + length bytes) file)
  unfolding write_at
  write_at-inside = let none_left : offset - length file ≡ 0 = omega arith in rw none_left

  pub length-write_at : length (write_at file offset bytes) ≡ length file
  length-write_at = omega (
    arith,
    ap length write_at-inside,
    length-append (take offset file) (bytes ++ drop (offset + length bytes) file),
    length-append bytes (drop (offset + length bytes) file),
    length-take offset file,
    length-drop (offset + length bytes) file,
  )

  front_len : length (take offset file) ≡ offset
  front_len = omega (arith, length-take offset file)

  pub write_at-before :
      (j : ℕ) → j < offset → get_elem? (write_at file offset bytes) j ≡ get_elem? file j
  write_at-before j h =
      ap (λ f. get_elem? f j) write_at-inside
      ∙ get_elem?-append_left (take offset file) _ j (omega (arith, front_len))
      ∙ get_elem?-take offset j file h

  write_at-behind_front :
      (k : ℕ)
      → get_elem? (write_at file offset bytes) (offset + k)
        ≡ get_elem? (bytes ++ drop (offset + length bytes) file) k
  write_at-behind_front k =
      ap (λ f. get_elem? f (offset + k)) write_at-inside
      ∙ ap
          (λ n.
            get_elem? (take offset file ++ (bytes ++ drop (offset + length bytes) file)) (n + k))
          (sym front_len)
      ∙ get_elem?-append_right (take offset file) _ k

  pub write_at_within :
      (k : ℕ)
      → k < length bytes
      → get_elem? (write_at file offset bytes) (offset + k) ≡ get_elem? bytes k
  write_at_within k h = write_at-behind_front k ∙ get_elem?-append_left bytes _ k h

  pub write_at_after :
      (j : ℕ)
      → offset + length bytes ≤ j
      → get_elem? (write_at file offset bytes) j ≡ get_elem? file j
  write_at_after j h =
      let k = j - (offset + length bytes) in
      let e : j ≡ offset + (length bytes + k) = omega arith in
      let e' : offset + length bytes + k ≡ j = omega arith in
      ap (get_elem? (write_at file offset bytes)) e
      ∙ write_at-behind_front (length bytes + k)
      ∙ get_elem?-append_right bytes _ k
      ∙ get_elem?-drop (offset + length bytes) k file
      ∙ ap (get_elem? file) e'
