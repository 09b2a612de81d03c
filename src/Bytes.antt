-- ===== src/Bytes.antt =====
-- media/base/BytesReader.h and media/base/BytesWriter.h: integers in byte strings.
--
-- A `const uint8_t*` is the function that gives the byte at each offset; `p ⊕ k` is `p + k`. The
-- terms joined by `|` in the readers have no bits in common, so that `|` is written as `+`, `<<`
-- as a product, `>>` as a quotient and `& 0xFF` as a remainder. A writer gets the array and the
-- offset of its pointer.
pub mod RoundTrip
use omega_streamer.Prelude.{ℕ, ◌+◌, ◌*◌, ◌/◌, ◌%◌, ◌<◌, List, get_or, set}

abbrev pub Pointer : Type 0
Pointer = ℕ → ℕ

infixl 65 ◌⊕◌
abbrev pub ◌⊕◌ : Pointer → ℕ → Pointer
p ⊕ k = λ i. p (k + i)

-- The pointer to the first byte of an array.
abbrev pub at : List ℕ → Pointer
at xs i = get_or xs i 0

unfoldable pub read_uint8 : Pointer → ℕ
read_uint8 p = p 0

unfoldable pub read_uint16_be : Pointer → ℕ
read_uint16_be p = p 0 * 256 + p 1

unfoldable pub read_uint24_be : Pointer → ℕ
read_uint24_be p = p 0 * 65536 + p 1 * 256 + p 2

unfoldable pub read_uint32_be : Pointer → ℕ
read_uint32_be p = p 0 * 16777216 + p 1 * 65536 + p 2 * 256 + p 3

unfoldable pub read_uint32_le : Pointer → ℕ
read_uint32_le p = p 0 + p 1 * 256 + p 2 * 65536 + p 3 * 16777216

unfoldable pub write_uint8 : List ℕ → ℕ → ℕ → List ℕ
write_uint8 xs k val = set xs k val

unfoldable pub write_uint16_be : List ℕ → ℕ → ℕ → List ℕ
write_uint16_be xs k val = set (set xs k (val / 256 % 256)) (k + 1) (val % 256)

unfoldable pub write_uint24_be : List ℕ → ℕ → ℕ → List ℕ
write_uint24_be xs k val =
    set (set (set xs k (val / 65536 % 256)) (k + 1) (val / 256 % 256)) (k + 2) (val % 256)

unfoldable pub write_uint32_be : List ℕ → ℕ → ℕ → List ℕ
write_uint32_be xs k val =
    set
      (set (set (set xs k (val / 16777216 % 256)) (k + 1) (val / 65536 % 256)) (k + 2)
        (val / 256 % 256))
      (k + 3) (val % 256)

unfoldable pub write_uint32_le : List ℕ → ℕ → ℕ → List ℕ
write_uint32_le xs k val =
    set (set (set (set xs k (val % 256)) (k + 1) (val / 256 % 256)) (k + 2) (val / 65536 % 256))
      (k + 3) (val / 16777216 % 256)
