-- ===== src/Base/Sort.antt =====
-- Rust's byte order on texts, `Ordering::then`, and `slice::sort_by`, which is stable.
use Prim.Native.Nat.{ℕ, compare, Ordering}
use mathlib.Core.Path.{◌≡◌, refl}
use mathlib.Core.Logic.{◌≢◌}
use mathlib.Core.List.{List, [], ◌∷◌, Perm}
use mathlib.Core.List.Perm
use native.Mathlib.Omega.{arith}
use anywhere_mesh.Base.Lists.{All}
use anywhere_mesh.Base.Texts.{Text}

-- Ordering::then
unfoldable pub then_cmp : Ordering → Ordering → Ordering
then_cmp Ordering.lt o = Ordering.lt
then_cmp Ordering.gt o = Ordering.gt
then_cmp Ordering.eq o = o

unfoldable pub text_cmp : Text → Text → Ordering
unfolding then_cmp
text_cmp [] [] = Ordering.eq
text_cmp [] (d ∷ t) = Ordering.lt
text_cmp (c ∷ s) [] = Ordering.gt
text_cmp (c ∷ s) (d ∷ t) = then_cmp (compare c d) (text_cmp s t)

-- Ordering::reverse
abbrev pub reverse_cmp : Ordering → Ordering
reverse_cmp Ordering.lt = Ordering.gt
reverse_cmp Ordering.gt = Ordering.lt
reverse_cmp Ordering.eq = Ordering.eq

-- The comparison of two items the other way round is the reverse.
abbrev pub IsReversible {ℓ} : {A : Type ℓ} → (A → A → Ordering) → Type ℓ
IsReversible {A = A} cmp = (x y : A) → cmp y x ≡ reverse_cmp (cmp x y)

compare-reverse : (a b : ℕ) → compare b a ≡ reverse_cmp (compare a b)
compare-reverse a b = ground arith

pub text_cmp-IsReversible : IsReversible text_cmp
unfolding text_cmp then_cmp
text_cmp-IsReversible [] [] = refl
text_cmp-IsReversible [] (d ∷ t) = refl
text_cmp-IsReversible (c ∷ s) [] = refl
text_cmp-IsReversible (c ∷ s) (d ∷ t) =
    ground (arith, text_cmp-IsReversible s t, compare-reverse c d)

module _ {ℓ} {A : Type ℓ} (cmp : A → A → Ordering) where
  -- `x` behind `y` with the items behind that, or in front.
  place : Ordering → A → A → List A → List A → List A
  place Ordering.gt x y l rest = y ∷ rest
  place Ordering.lt x y l rest = x ∷ y ∷ l
  place Ordering.eq x y l rest = x ∷ y ∷ l

  -- Before the first item that does not come before `x`.
  unfoldable insert_by : A → List A → List A
  unfolding place
  insert_by x [] = x ∷ []
  insert_by x (y ∷ l) = place (cmp x y) x y l (insert_by x l)

  unfoldable pub sort_by : List A → List A
  unfolding insert_by
  sort_by [] = []
  sort_by (x ∷ l) = insert_by x (sort_by l)

  -- No item comes before the one in front of it.
  abbrev pub IsSorted : List A → Type 0
  IsSorted [] = Unit
  IsSorted (x ∷ []) = Unit
  IsSorted (x ∷ y ∷ l) = (cmp x y ≢ Ordering.gt) × IsSorted (y ∷ l)

  module _ (reversible : IsReversible cmp) where
    behind :
        (y x : A) (m : List A)
        → cmp y x ≢ Ordering.gt
        → IsSorted (y ∷ m)
        → IsSorted (insert_by x m)
        → IsSorted (y ∷ insert_by x m)
    unfolding insert_by place
    behind y x [] h s t = (h, tt)
    behind y x (z ∷ m) h s t = ground arith

    insert_by-IsSorted : (x : A) (l : List A) → IsSorted l → IsSorted (insert_by x l)
    unfolding insert_by place
    insert_by-IsSorted x [] s = tt
    insert_by-IsSorted x (y ∷ []) s = ground (arith, reversible x y)
    insert_by-IsSorted x (y ∷ z ∷ m) s =
        ground (arith, reversible x y, behind y x (z ∷ m), insert_by-IsSorted x (z ∷ m))

    pub sort_by-IsSorted : (l : List A) → IsSorted (sort_by l)
    unfolding sort_by
    sort_by-IsSorted [] = tt
    sort_by-IsSorted (x ∷ l) = insert_by-IsSorted x (sort_by l) (sort_by-IsSorted l)

  place-perm :
      (o : Ordering) (x y : A) (l rest : List A)
      → Perm rest (x ∷ l)
      → Perm (place o x y l rest) (x ∷ y ∷ l)
  unfolding place
  place-perm Ordering.gt x y l rest p = Perm.trans (Perm.cons y p) (Perm.swap x y l)
  place-perm Ordering.lt x y l rest p = Perm.rfl
  place-perm Ordering.eq x y l rest p = Perm.rfl

  place-cons :
      (o : Ordering) (x y : A) (l rest : List A)
      → (first : A) × (others : List A) × (place o x y l rest ≡ first ∷ others)
  unfolding place
  place-cons Ordering.gt x y l rest = (y, rest, refl)
  place-cons Ordering.lt x y l rest = (x, y ∷ l, refl)
  place-cons Ordering.eq x y l rest = (x, y ∷ l, refl)

  insert_by-cons :
      (x : A) (l : List A) → (first : A) × (others : List A) × (insert_by x l ≡ first ∷ others)
  unfolding insert_by
  insert_by-cons x [] = (x, [], refl)
  insert_by-cons x (y ∷ l) = place-cons (cmp x y) x y l (insert_by x l)

  -- Sorting keeps an item where there was one.
  pub sort_by-cons :
      (x : A) (l : List A) → (first : A) × (others : List A) × (sort_by (x ∷ l) ≡ first ∷ others)
  unfolding sort_by
  sort_by-cons x l = insert_by-cons x (sort_by l)

  insert_by-perm : (x : A) (l : List A) → Perm (insert_by x l) (x ∷ l)
  unfolding insert_by
  insert_by-perm x [] = Perm.rfl
  insert_by-perm x (y ∷ l) = place-perm (cmp x y) x y l (insert_by x l) (insert_by-perm x l)

  pub sort_by-perm : (l : List A) → Perm (sort_by l) l
  unfolding sort_by
  sort_by-perm [] = Perm.rfl
  sort_by-perm (x ∷ l) = Perm.trans (insert_by-perm x (sort_by l)) (Perm.cons x (sort_by-perm l))

module _ {A : Type 0} (cmp : A → A → Ordering) (P : A → Type 0) where
  place-All :
      (o : Ordering) (x y : A) (l rest : List A)
      → P x
      → P y
      → All P l
      → All P rest
      → All P (place cmp o x y l rest)
  unfolding place
  place-All Ordering.gt x y l rest hx hy hl h = (hy, h)
  place-All Ordering.lt x y l rest hx hy hl h = (hx, (hy, hl))
  place-All Ordering.eq x y l rest hx hy hl h = (hx, (hy, hl))

  insert_by-All : (x : A) (l : List A) → P x → All P l → All P (insert_by cmp x l)
  unfolding insert_by
  insert_by-All x [] h hs = (h, tt)
  insert_by-All x (y ∷ l) h (hy, hs) =
      place-All (cmp x y) x y l (insert_by cmp x l) h hy hs (insert_by-All x l h hs)

  -- What holds of all items holds of all sorted items.
  pub sort_by-All : (l : List A) → All P l → All P (sort_by cmp l)
  unfolding sort_by
  sort_by-All [] h = tt
  sort_by-All (x ∷ l) (h, hs) = insert_by-All x (sort_by cmp l) h (sort_by-All l hs)
