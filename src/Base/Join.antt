-- ===== src/Base/Join.antt =====
-- `[T]::join` on texts, and splitting at the separator as its inverse.
use Prim.Native.Nat.{ℕ}
use mathlib.Core.Path.{◌≡◌, refl, ap}
use mathlib.Core.Bool.{false}
use mathlib.Core.List.{List, [], ◌∷◌, ◌++◌}
use native.Mathlib.Omega.{arith}
use anywhere_mesh.Base.Tests.{nat_beq_iff}
use anywhere_mesh.Base.Lists.{All}
use anywhere_mesh.Base.Texts.{Text, contains, split_first, split}

-- parts.join(separator)
unfoldable pub join : Text → List Text → Text
join separator [] = []
join separator (part ∷ []) = part
join separator (part ∷ next ∷ parts) = part ++ (separator ++ join separator (next ∷ parts))

-- No text of the list has the byte.
abbrev pub IsFreeOf : ℕ → List Text → Type 0
IsFreeOf c parts = All (λ part. contains c part ≡ false) parts

split_first-clean :
    (c : ℕ) (part : Text) → contains c part ≡ false → split_first c part ≡ (part, [])
unfolding contains split_first
split_first-clean c [] h = refl
split_first-clean c (d ∷ part) h = ground (arith, split_first-clean c part)

split_first-append :
    (c : ℕ) (part rest : Text)
    → contains c part ≡ false
    → split_first c (part ++ c ∷ rest) ≡ (part, (split_first c rest).0 ∷ (split_first c rest).1)
unfolding contains split_first
split_first-append c [] rest h = rw ((nat_beq_iff c c).1 refl) refl
split_first-append c (d ∷ part) rest h = ground (arith, split_first-append c part rest)

-- Splitting what was joined gives the parts back.
pub split-join :
    (c : ℕ) (part : Text) (parts : List Text)
    → IsFreeOf c (part ∷ parts)
    → split c (join (c ∷ []) (part ∷ parts)) ≡ part ∷ parts
unfolding join split
split-join c part [] (h, _) = rw (split_first-clean c part h) refl
split-join c part (next ∷ parts) (h, free) =
    rw (split_first-append c part (join (c ∷ []) (next ∷ parts)) h, join, split)
      (ap (λ l. part ∷ l) (split-join c next parts free))
