-- ===== src/Server/Auth/Fill.antt =====
-- What a pattern stands for: the texts that come from it by putting a text in place of each star.
use anywhere_mesh.Base.{
  Text, split_first, contains, nat_beq, ◌≡◌, refl, ap, sym, ◌∙◌, true, false, List, [], ◌∷◌, ◌++◌,
  inl, inr, Bool-cases, arith, codes,
}
use mathlib.Core.List.{append_assoc, append-nil}
use anywhere_mesh.Server.Auth.{star}

abbrev pub next : List Text → Text
next [] = []
next (g ∷ gaps) = g

abbrev pub others : List Text → List Text
others [] = []
others (g ∷ gaps) = gaps

-- The pattern with the texts `gaps` in place of its stars, in order.
unfoldable pub fill : Text → List Text → Text
fill [] gaps = []
fill (c ∷ pattern) gaps = elim (nat_beq c star) [
  | true ↦ next gaps ++ fill pattern (others gaps)
  | false ↦ c ∷ fill pattern gaps
]

-- The same for the parts behind the first star.
unfoldable pub fill_parts : List Text → List Text → Text
fill_parts [] gaps = []
fill_parts (part ∷ parts) gaps = next gaps ++ (part ++ fill_parts parts (others gaps))

pub fill-split :
    (pattern : Text) (gaps : List Text)
    → fill pattern gaps
      ≡ (split_first star pattern).0 ++ fill_parts (split_first star pattern).1 gaps
unfolding fill fill_parts split_first
fill-split [] gaps = refl
fill-split (c ∷ pattern) gaps = elim (Bool-cases (nat_beq c star)) [
  | inl e ↦ rw (e, fill) (ap (λ t. next gaps ++ t) (fill-split pattern (others gaps)))
  | inr e ↦ rw (e, fill) (ap (λ t. c ∷ t) (fill-split pattern gaps))
]

pub fill_no_star :
    (pattern : Text) (gaps : List Text)
    → contains star pattern ≡ false
    → fill pattern gaps ≡ pattern
unfolding fill contains
fill_no_star [] gaps h = refl
fill_no_star (c ∷ pattern) gaps h =
    let plain : nat_beq c star ≡ false = ground arith in
    let rest : contains star pattern ≡ false = ground arith in
    rw (plain, fill) (ap (λ t. c ∷ t) (fill_no_star pattern gaps rest))

-- A text behind a pattern that ends in a star goes into the last gap.
pub fill_last :
    (front : Text) (gaps : List Text) (rest : Text)
    → (gaps' : List Text) × (fill (front ++ codes "*") gaps'
        ≡ fill (front ++ codes "*") gaps ++ rest)
unfolding fill
fill_last [] gaps rest = ((next gaps ++ rest) ∷ [], simp append-nil)
fill_last (c ∷ front) gaps rest = elim (Bool-cases (nat_beq c star)) [
  | inl e ↦
      let (gaps', same) = fill_last front (others gaps) rest in
      (
        next gaps ∷ gaps',
        rw (e, fill) (ap (λ t. next gaps ++ t) same ∙ sym (append_assoc _ _ rest)),
      )
  | inr e ↦
      let (gaps', same) = fill_last front gaps rest in (gaps', rw (e, fill) (ap (λ t. c ∷ t) same))
]
