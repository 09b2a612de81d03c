-- ===== src/Rtmp/Amf0/Reads.antt =====
-- AMF0Decoder's reads, seen as steps on the bytes that remain.
use omega_streamer.Prelude.{
  ℕ, ◌+◌, ◌*◌, ◌≤◌, ◌≡◌, ◌∙◌, sym, ap, refl, List, ◌∷◌, ◌++◌, length, arith, drop, drop-drop,
  get_or-drop, length-drop, le→ltb, take-append, drop-append, length-append, ltb, false,
}
use omega_streamer.Bytes.{at}
use omega_streamer.Rtmp.Amf0.Decoder.{read_uint8, read_uint16_be, read_uint32_be, read_string_data}

-- The position is within the data, and `l` remains from it.
pub record Stands (m : List ℕ) (pos : ℕ) (l : List ℕ) : Type 0 where
  pub inside : pos ≤ length m
  pub left : drop pos m ≡ l

pub length-Stands : {m : List ℕ} {pos : ℕ} {l : List ℕ} → Stands m pos l → length m ≡ pos + length l
length-Stands {m} {pos} s = omega (arith, s.inside, length-drop pos m, ap length s.left)

pub at-Stands :
    {m : List ℕ} {pos : ℕ} {l : List ℕ} (i : ℕ) → Stands m pos l → at m (pos + i) ≡ at l i
at-Stands {m} {pos} i s = sym (get_or-drop pos m i 0) ∙ ap (λ k. at k i) s.left

pub head-Stands : {m : List ℕ} {pos : ℕ} {l : List ℕ} → Stands m pos l → at m pos ≡ at l 0
head-Stands {m} {pos} s = ap (at m) (omega arith) ∙ at-Stands 0 s

-- Behind the bytes `xs`.
pub Stands-behind :
    {m : List ℕ} {pos : ℕ} (xs l : List ℕ) → Stands m pos (xs ++ l) → Stands m (pos + length xs) l
Stands-behind {m} {pos} xs l s = record {
  inside = omega (arith, length-Stands s, length-append xs l);
  left = sym (drop-drop (length xs) pos m) ∙ ap (drop (length xs)) s.left ∙ drop-append xs l;
}

module _ (m : List ℕ) {pos : ℕ} (l : List ℕ) where
  pub read_uint8-eq : {x : ℕ} → Stands m pos (x ∷ l) → read_uint8 m pos ≡ (x, pos + 1)
  unfolding read_uint8
  read_uint8-eq {x} s = ground (arith, length-Stands s, at-Stands 0 s)

  pub read_uint16_be-eq :
      {a b : ℕ} → Stands m pos (a ∷ b ∷ l) → read_uint16_be m pos ≡ (a * 256 + b, pos + 2)
  unfolding read_uint16_be
  read_uint16_be-eq s = ground (arith, length-Stands s, at-Stands 0 s, at-Stands 1 s)

  pub read_uint32_be-after :
      {a b c d : ℕ} → Stands m pos (a ∷ b ∷ c ∷ d ∷ l) → (read_uint32_be m pos).1 ≡ pos + 4
  unfolding read_uint32_be
  read_uint32_be-after s = ground (arith, length-Stands s)

  pub read_string_data-eq :
      (xs : List ℕ)
      → Stands m pos (xs ++ l)
      → read_string_data m (length xs) pos ≡ (xs, pos + length xs)
  unfolding read_string_data
  read_string_data-eq xs s =
      let fits : ltb (length m) (pos + length xs) ≡ false =
        le→ltb _ _ (omega (arith, length-Stands s, length-append xs l)) in
      rw (fits, s.left, take-append xs l) refl
