-- ===== src/Base/Digits.antt =====
-- The printing of a number: its fuel is enough, since the digits read back as the number.
use Prim.Native.Nat.{ℕ, zero, suc, ◌+◌, ◌-◌, ◌*◌, ◌/◌, ◌%◌, ◌<◌}
use mathlib.Core.Path.{◌≡◌}
use mathlib.Core.List.{[], ◌∷◌, ◌++◌}
use mathlib.Core.Logic.{inl, inr}
use native.Mathlib.Omega.{arith}
use anywhere_mesh.Base.Tests.{ltb, Bool-cases}
use anywhere_mesh.Base.Texts.{Text, digits_of, show_nat}

-- The number that digits write behind those already read.
read_digits : ℕ → Text → ℕ
read_digits n [] = n
read_digits n (c ∷ s) = read_digits (10 * n + (c - 48)) s

read_digits-append :
    (n : ℕ) (s : Text) (d : ℕ) → read_digits n (s ++ (48 + d) ∷ []) ≡ 10 * read_digits n s + d
unfolding read_digits
read_digits-append n [] d = omega arith
read_digits-append n (c ∷ s) d = read_digits-append (10 * n + (c - 48)) s d

read_digits-digits_of : (fuel n : ℕ) → n < fuel → read_digits 0 (digits_of fuel n) ≡ n
unfolding digits_of read_digits
read_digits-digits_of zero n h = absurd (omega arith)
read_digits-digits_of (suc fuel) n h = elim (Bool-cases (ltb n 10)) [
  | inl e ↦ rw (e, digits_of) (ground arith)
  | inr e ↦
      let more = read_digits-digits_of fuel (n / 10) (ground arith) in
      let last = read_digits-append 0 (digits_of fuel (n / 10)) (n % 10) in
      rw (e, digits_of) (omega (arith, more, last))
]

-- The digits of a number, with the fuel that is given, read back as the number.
read_digits-show_nat : (n : ℕ) → read_digits 0 (show_nat n) ≡ n
unfolding show_nat
read_digits-show_nat n = read_digits-digits_of (suc n) n (omega arith)
