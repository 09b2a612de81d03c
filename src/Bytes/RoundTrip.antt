-- ===== src/Bytes/RoundTrip.antt =====
-- What the writers of BytesWriter.h put down, the readers of BytesReader.h give back.
use omega_streamer.Prelude.{
  ℕ, ◌^◌, zero, suc, ◌+◌, ◌%◌, ◌≤◌, ◌≡◌, List, [], ◌∷◌, arith, length, get_or, set, length-set,
  ◌==◌, ltb, if◌then◌else◌, ◌&&◌,
}
use omega_streamer.Bytes.{
  ◌⊕◌, at, read_uint16_be, read_uint24_be, read_uint32_be, read_uint32_le, write_uint16_be,
  write_uint24_be, write_uint32_be, write_uint32_le,
}

-- A byte of an array after a write, with no side condition.
pub get_or-set :
    (xs : List ℕ) (i j v : ℕ)
    → get_or (set xs i v) j 0 ≡ (if i == j && ltb i (length xs) then v else get_or xs j 0)
get_or-set [] i j v = ground arith
get_or-set (x ∷ xs) zero zero v = ground arith
get_or-set (x ∷ xs) zero (suc j) v = ground arith
get_or-set (x ∷ xs) (suc i) zero v = ground arith
get_or-set (x ∷ xs) (suc i) (suc j) v = ground (arith, get_or-set xs i j v)

ruleset writes = (get_or-set, length-set)

module _ (xs : List ℕ) (k val : ℕ) where
  pub read_uint16_be-write_uint16_be :
      k + 2 ≤ length xs → read_uint16_be (at (write_uint16_be xs k val) ⊕ k) ≡ val % 65536
  unfolding read_uint16_be write_uint16_be
  read_uint16_be-write_uint16_be h = simp writes (ground arith)

  -- In an array that has room, a 24-bit big-endian integer is read back modulo 2 ^ 24.
  pub read_uint24_be-write_uint24_be :
      k + 3 ≤ length xs → read_uint24_be (at (write_uint24_be xs k val) ⊕ k) ≡ val % 16777216
  unfolding read_uint24_be write_uint24_be
  read_uint24_be-write_uint24_be h = simp writes (ground arith)

  pub read_uint32_be-write_uint32_be :
      k + 4 ≤ length xs → read_uint32_be (at (write_uint32_be xs k val) ⊕ k) ≡ val % 4294967296
  unfolding read_uint32_be write_uint32_be
  read_uint32_be-write_uint32_be h = simp writes (ground arith)

  pub read_uint32_le-write_uint32_le :
      k + 4 ≤ length xs → read_uint32_le (at (write_uint32_le xs k val) ⊕ k) ≡ val % 4294967296
  unfolding read_uint32_le write_uint32_le
  read_uint32_le-write_uint32_le h = simp writes (ground arith)

  -- In an array with room for it, what a writer of BytesWriter puts down the matching reader of
  -- BytesReader gives back, modulo 2 to the integer's width: 16, 24 and 32 bits big-endian, and 32
  -- bits little-endian.
  pub readers-writers :
      k + 4 ≤ length xs
      → (read_uint16_be (at (write_uint16_be xs k val) ⊕ k) ≡ val % 2 ^ 16)
        × (read_uint24_be (at (write_uint24_be xs k val) ⊕ k) ≡ val % 2 ^ 24)
        × (read_uint32_be (at (write_uint32_be xs k val) ⊕ k) ≡ val % 2 ^ 32)
        × (read_uint32_le (at (write_uint32_le xs k val) ⊕ k) ≡ val % 2 ^ 32)
  readers-writers h = (
    read_uint16_be-write_uint16_be (omega arith),
    read_uint24_be-write_uint24_be (omega arith),
    read_uint32_be-write_uint32_be h,
    read_uint32_le-write_uint32_le h,
  )
