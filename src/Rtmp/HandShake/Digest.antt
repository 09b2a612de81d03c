-- ===== src/Rtmp/HandShake/Digest.antt =====
-- The digest of the first packets: where it stands, and that the other side finds it.
use omega_streamer.Prelude.{
  ℕ, zero, suc, ◌+◌, ◌≤◌, ◌<◌, ◌≡◌, ◌∙◌, sym, ap, refl, subst, Bool-cases, inl, inr, true, false,
  List, ◌++◌, length, take, drop, arith, ◌==◌, length-append, length-take, length-drop, take-append,
  drop-append, drop-drop, get_or-append_left, get_or-take,
}
use omega_streamer.Bytes.{at}
use omega_streamer.Prelude.Strings.{same_string_self}
use omega_streamer.Rtmp.HandShake.{
  packet_size, sha256_digest_length, write_bytes, get_digest_offset, random_bytes, calculate_digest,
  verify_digest,
}

module _ (xs : List ℕ) (k : ℕ) (ys : List ℕ) (fits : k + length ys ≤ length xs) where
  before : length (take k xs) ≡ k
  before = omega (arith, length-take k xs)

  pub length-write_bytes : length (write_bytes xs k ys) ≡ length xs
  unfolding write_bytes
  length-write_bytes = omega (
    arith,
    length-append (take k xs) (ys ++ drop (k + length ys) xs),
    length-append ys (drop (k + length ys) xs),
    before,
    length-drop (k + length ys) xs,
  )

  take-write_bytes : take k (write_bytes xs k ys) ≡ take k xs
  unfolding write_bytes
  take-write_bytes =
      ap (λ n. take n (take k xs ++ (ys ++ drop (k + length ys) xs))) (sym before)
      ∙ take-append (take k xs) (ys ++ drop (k + length ys) xs)

  pub drop-write_bytes : drop k (write_bytes xs k ys) ≡ ys ++ drop (k + length ys) xs
  unfolding write_bytes
  drop-write_bytes =
      ap (λ n. drop n (take k xs ++ (ys ++ drop (k + length ys) xs))) (sym before)
      ∙ drop-append (take k xs) (ys ++ drop (k + length ys) xs)

  drop-write_bytes_behind : drop (k + length ys) (write_bytes xs k ys) ≡ drop (k + length ys) xs
  drop-write_bytes_behind =
      sym (drop-drop (length ys) k (write_bytes xs k ys))
      ∙ ap (drop (length ys)) drop-write_bytes
      ∙ drop-append ys (drop (k + length ys) xs)

  pub at-write_bytes_before : (i : ℕ) → i < k → at (write_bytes xs k ys) i ≡ at xs i
  unfolding write_bytes
  at-write_bytes_before i lt =
      get_or-append_left (take k xs) (ys ++ drop (k + length ys) xs) i 0 (omega (arith, before))
      ∙ get_or-take k xs i 0 lt

-- The four bytes at `off` place the digest behind them, and it ends within the packet: for both
-- places, 8 and 772, where a digest is looked for.
pub get_digest_offset-within :
    (buf : List ℕ) (off : ℕ)
    → off ≤ 772
    → (off + 4 ≤ get_digest_offset buf off 728)
      × (get_digest_offset buf off 728 + sha256_digest_length ≤ packet_size)
unfolding get_digest_offset
get_digest_offset-within buf off h = omega arith

module _ (hmac : List ℕ → List ℕ → List ℕ)
    (digest_length : (key text : List ℕ) → length (hmac key text) ≡ sha256_digest_length) where
  pub length-calculate_digest :
      (src : List ℕ) (len gap : ℕ) (key : List ℕ)
      → length (calculate_digest hmac src len gap key) ≡ sha256_digest_length
  unfolding calculate_digest
  length-calculate_digest src len gap key = elim (Bool-cases (gap == 0)) [
    | inl e ↦ rw e (digest_length key _)
    | inr e ↦ rw e (digest_length key _)
  ]

  -- What is signed does not hold the digest.
  calculate_digest-written :
      (packet : List ℕ) (offset : ℕ) (key d : List ℕ)
      → length d ≡ sha256_digest_length
      → 0 < offset
      → offset + length d ≤ length packet
      → calculate_digest hmac (write_bytes packet offset d) packet_size offset key
        ≡ calculate_digest hmac packet packet_size offset key
  unfolding calculate_digest
  calculate_digest-written packet offset key d size positive fits =
      let there : (offset == 0) ≡ false = ground arith in
      let behind : drop (offset + 32) (write_bytes packet offset d) ≡ drop (offset + 32) packet =
        subst (λ n. drop (offset + n) (write_bytes packet offset d) ≡ drop (offset + n) packet) size
          (drop-write_bytes_behind packet offset d fits) in
      rw (there, take-write_bytes packet offset d fits, behind) refl

  -- A digest is found where it was written, by the same key.
  pub verify_digest-written :
      (packet : List ℕ) (offset : ℕ) (key : List ℕ)
      → length packet ≡ packet_size
      → 0 < offset
      → offset + sha256_digest_length ≤ packet_size
      → verify_digest hmac
          (write_bytes packet offset (calculate_digest hmac packet packet_size offset key))
          offset
          key
        ≡ true
  unfolding verify_digest
  verify_digest-written packet offset key size positive fits =
      let d = calculate_digest hmac packet packet_size offset key in
      let ld = length-calculate_digest packet packet_size offset key in
      let fits' : offset + length d ≤ length packet = omega (arith, ld) in
      let found : take 32 (drop offset (write_bytes packet offset d)) ≡ d =
        ap (take 32) (drop-write_bytes packet offset d fits')
        ∙ ap (λ n. take n (d ++ drop (offset + length d) packet)) (sym ld)
        ∙ take-append d (drop (offset + length d) packet) in
      rw (found, calculate_digest-written packet offset key d ld positive fits')
        (same_string_self d)

  -- The digest that create_c1s1 writes leaves the bytes that place it.
  pub get_digest_offset-written :
      (packet d : List ℕ) (offset : ℕ)
      → 12 ≤ offset
      → offset + length d ≤ length packet
      → get_digest_offset (write_bytes packet offset d) 8 728 ≡ get_digest_offset packet 8 728
  unfolding get_digest_offset
  get_digest_offset-written packet d offset h fits = omega (
    arith,
    at-write_bytes_before packet offset d fits 8 (omega arith),
    at-write_bytes_before packet offset d fits 9 (omega arith),
    at-write_bytes_before packet offset d fits 10 (omega arith),
    at-write_bytes_before packet offset d fits 11 (omega arith),
  )

pub length-random_bytes : (random : ℕ → ℕ) (n : ℕ) → length (random_bytes random n) ≡ n
unfolding random_bytes
length-random_bytes random zero = refl
length-random_bytes random (suc n) = omega (arith, length-random_bytes (λ i. random (suc i)) n)
