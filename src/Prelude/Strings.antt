-- ===== src/Prelude/Strings.antt =====
-- `==` of two strings, which are lists of bytes.
use omega_streamer.Prelude.{
  ℕ, ◌≡◌, refl, sym, Bool, true, false, true≢false, ◌&&◌, List, [], ◌∷◌, ◌==◌, ==_iff, arith,
}

unfoldable pub same_string : List ℕ → List ℕ → Bool
same_string [] [] = true
same_string [] (y ∷ ys) = false
same_string (x ∷ xs) [] = false
same_string (x ∷ xs) (y ∷ ys) = x == y && same_string xs ys

and_left : (a b : Bool) → (a && b) ≡ true → a ≡ true
and_left true b e = refl
and_left false b e = e

and_right : (a b : Bool) → (a && b) ≡ true → b ≡ true
and_right true b e = e
and_right false b e = absurd (true≢false (sym e))

pub same_string-eq : (xs ys : List ℕ) → same_string xs ys ≡ true → xs ≡ ys
unfolding same_string
same_string-eq [] [] e = refl
same_string-eq [] (y ∷ ys) e = absurd (true≢false (sym e))
same_string-eq (x ∷ xs) [] e = absurd (true≢false (sym e))
same_string-eq (x ∷ xs) (y ∷ ys) e =
    let head : x ≡ y = (==_iff x y).0 (and_left (x == y) (same_string xs ys) e) in
    let tail : xs ≡ ys = same_string-eq xs ys (and_right (x == y) (same_string xs ys) e) in
    rw (head, tail) refl

pub same_string_self : (xs : List ℕ) → same_string xs xs ≡ true
unfolding same_string
same_string_self [] = refl
same_string_self (x ∷ xs) = ground (arith, same_string_self xs)
