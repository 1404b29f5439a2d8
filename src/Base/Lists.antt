-- ===== src/Base/Lists.antt =====
-- Lists measured by native numbers, `Iterator::find` and `filter`, and predicates on lists.
use Prim.Native.Nat.{ℕ, zero, suc, ◌+◌}
use mathlib.Core.Path.{◌≡◌}
use mathlib.Core.Bool.{Bool, true, false}
use mathlib.Core.List.{List, [], ◌∷◌, ◌++◌}
use mathlib.Core.Option.{Option, none, some}
use mathlib.Core.Logic.{◌⊎◌, inl, inr}
use native.Mathlib.Omega.{arith}
use anywhere_mesh.Base.Tests.{if◌then◌else◌, Bool-cases}

module _ {ℓ} {A : Type ℓ} where
  abbrev pub length : List A → ℕ
  length [] = 0
  length (x ∷ xs) = suc (length xs)

  abbrev pub take : ℕ → List A → List A
  take zero xs = []
  take (suc n) [] = []
  take (suc n) (x ∷ xs) = x ∷ take n xs

  abbrev pub drop : ℕ → List A → List A
  drop zero xs = xs
  drop (suc n) [] = []
  drop (suc n) (x ∷ xs) = drop n xs

  abbrev pub is_empty : List A → Bool
  is_empty [] = true
  is_empty (x ∷ xs) = false

  -- The first item that passes the test.
  abbrev pub find_first : (A → Bool) → List A → Option A
  find_first p [] = none
  find_first p (x ∷ xs) = if p x then some x else find_first p xs

  abbrev pub filter : (A → Bool) → List A → List A
  filter p [] = []
  filter p (x ∷ xs) = if p x then x ∷ filter p xs else filter p xs

  abbrev pub any : (A → Bool) → List A → Bool
  any p [] = false
  any p (x ∷ xs) = if p x then true else any p xs

pub length-append {ℓ} : {A : Type ℓ} (xs ys : List A) → length (xs ++ ys) ≡ length xs + length ys
length-append [] ys = omega arith
length-append (x ∷ xs) ys = omega (arith, length-append xs ys)

-- Membership and universal statements by recursion.
module _ {A : Type 0} where
  abbrev pub Member : A → List A → Type 0
  Member a [] = ⊥
  Member a (x ∷ xs) = (a ≡ x) ⊎ Member a xs

  abbrev pub All : (A → Type 0) → List A → Type 0
  All P [] = Unit
  All P (x ∷ xs) = P x × All P xs

-- What `find_first` answers: an item of the list that passes, or that no item does.
module _ {A : Type 0} (p : A → Bool) where
  pub find_first-some :
      (xs : List A) (a : A) → find_first p xs ≡ some a → (p a ≡ true) × Member a xs
  find_first-some [] a h = cc
  find_first-some (x ∷ xs) a h = elim (Bool-cases (p x)) [
    | inl e ↦ let same : a ≡ x = cc (rw e at h) in (rw same e, inl same)
    | inr e ↦ let (pa, m) = find_first-some xs a (rw e at h) in (pa, inr m)
  ]

  pub find_first-none : (xs : List A) → find_first p xs ≡ none → All (λ x. p x ≡ false) xs
  find_first-none [] h = tt
  find_first-none (x ∷ xs) h = elim (Bool-cases (p x)) [
    | inl e ↦ cc (rw e at h)
    | inr e ↦ (e, find_first-none xs (rw e at h))
  ]

  pub find_first-exists :
      (xs : List A) (a : A) → Member a xs → p a ≡ true → (b : A) × (find_first p xs ≡ some b)
  find_first-exists [] a m h = absurd m
  find_first-exists (x ∷ xs) a m h = elim (Bool-cases (p x)) [
    | inl e ↦ (x, rw e)
    | inr e ↦ rw e (find_first-exists xs a (later a m h e) h)
  ]
    where
      later : (a : A) → Member a (x ∷ xs) → p a ≡ true → p x ≡ false → Member a xs
      later a (inl same) h e = cc
      later a (inr m) h e = m

  pub filter→member : (xs : List A) (a : A) → Member a (filter p xs) → Member a xs × (p a ≡ true)
  filter→member [] a m = absurd m
  filter→member (x ∷ xs) a m = ground (arith, filter→member xs a)

  pub member→filter : (xs : List A) (a : A) → Member a xs → p a ≡ true → Member a (filter p xs)
  member→filter [] a m h = m
  member→filter (x ∷ xs) a (inl same) h = ground arith
  member→filter (x ∷ xs) a (inr m) h = ground (arith, member→filter xs a m h)
