-- ===== src/Rtmp/Double.antt =====
-- The conversion of an unsigned integer to the `double` that AMF0 numbers are, as a bit pattern.
use omega_streamer.Prelude.{
  ℕ, zero, suc, ◌+◌, ◌*◌, ◌-◌, ◌^◌, leb, if◌then◌else◌, ◌<◌, ◌≤◌, Bool-cases, inl, inr,
  leb-false→lt, arith,
}

-- The pattern of m · 2 ^ (e - 1075), for m with its leading bit at 52 after at most `f` doublings.
unfoldable pub normalise : ℕ → ℕ → ℕ → ℕ
normalise zero m e = e * 2 ^ 52 + (m - 2 ^ 52)
normalise (suc f) m e =
    let more = normalise f (2 * m) (e - 1) in
    if leb (2 ^ 52) m then e * 2 ^ 52 + (m - 2 ^ 52) else more

-- static_cast<double> of a `uint32_t`.
unfoldable pub to_double : ℕ → ℕ
unfolding normalise
to_double zero = 0
to_double (suc n) = normalise 52 (suc n) 1075

normalise-lt : (f m e : ℕ) → m < 2 ^ 53 → e ≤ 1075 → normalise f m e < 2 ^ 63
unfolding normalise
normalise-lt zero m e hm he = omega arith
normalise-lt (suc f) m e hm he = elim (Bool-cases (leb (2 ^ 52) m)) [
  | inl full ↦ rw full (omega arith)
  | inr short ↦
      let lt = leb-false→lt (2 ^ 52) m short in
      rw short (normalise-lt f (2 * m) (e - 1) (omega arith) (omega arith))
]

-- The pattern of a 32-bit integer has 64 bits, the sign bit clear.
pub to_double-lt : (n : ℕ) → n < 2 ^ 32 → to_double n < 2 ^ 63
unfolding to_double
to_double-lt zero h = omega arith
to_double-lt (suc n) h = normalise-lt 52 (suc n) 1075 (omega arith) (omega arith)
