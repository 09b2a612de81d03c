-- ===== src/Prelude/Int.antt =====
-- Signed integers over the native numbers, for the places where the program computes in `int`.
use omega_streamer.Prelude.{
  ℕ, suc, ◌+◌, ◌-◌, ◌%◌, ◌^◌, ◌<◌, ◌≡◌, sym, ◌∙◌, Bool, false, ◌≤◌, ltb, leb, ltb→le, le→ltb,
  if◌then◌else◌, arith,
}

-- `negsuc n` is -(n + 1).
pub data ℤ : Type 0 where
  pos : ℕ → ℤ
  negsuc : ℕ → ℤ

abbrev pub pos_part : ℤ → ℕ
pos_part (pos n) = n
pos_part (negsuc n) = 0

abbrev pub neg_part : ℤ → ℕ
neg_part (pos n) = 0
neg_part (negsuc n) = suc n

-- a - b, as an integer.
abbrev pub sub_ℕ : ℕ → ℕ → ℤ
sub_ℕ a b = if leb b a then pos (a - b) else negsuc (b - a - 1)

infixl 65 ◌+ℤ◌
unfoldable pub ◌+ℤ◌ : ℤ → ℤ → ℤ
a +ℤ b = sub_ℕ (pos_part a + pos_part b) (neg_part a + neg_part b)

abbrev pub ltb_ℤ : ℤ → ℤ → Bool
ltb_ℤ a b = ltb (pos_part a + neg_part b) (pos_part b + neg_part a)

-- `std::min`
abbrev pub min_ℤ : ℤ → ℤ → ℤ
min_ℤ a b = if ltb_ℤ b a then b else a

-- `static_cast<int>` of an unsigned value: its low 32 bits, read in two's complement.
abbrev pub to_int : ℕ → ℤ
to_int n = let w = n % 2 ^ 32 in if ltb w (2 ^ 31) then pos w else negsuc (2 ^ 32 - w - 1)

-- `(int)n < z` for an unsigned `n`.
unfoldable pub int_less : ℕ → ℤ → Bool
int_less n z = ltb_ℤ (to_int n) z

pub int_less-pos : (n k : ℕ) → n < 2 ^ 31 → int_less n (pos k) ≡ ltb n k
unfolding int_less
int_less-pos n k h = ground arith

pub int_less→le : (n k : ℕ) → n < 2 ^ 31 → int_less n (pos k) ≡ false → k ≤ n
int_less→le n k h e = ltb→le n k (sym (int_less-pos n k h) ∙ e)

pub le→int_less : (n k : ℕ) → n < 2 ^ 31 → k ≤ n → int_less n (pos k) ≡ false
le→int_less n k h le = int_less-pos n k h ∙ le→ltb n k le

pub int_less-negative : (n t k : ℕ) → n < 2 ^ 31 → t ≤ n → int_less n (pos t +ℤ negsuc k) ≡ false
unfolding int_less ◌+ℤ◌
int_less-negative n t k h le = ground arith
