-- ===== src/Server/Auth/Misses.antt =====
-- An ARN that a pattern stands for and that is refused.
use anywhere_mesh.Base.{
  ℕ, Text, codes, ends_with, find, contains, split_first, split, is_empty, ◌≡◌, refl, ap, sym, ◌∙◌,
  some, true, false, List, [], ◌∷◌, ◌++◌, arith, inl, inr, Bool-cases, text_eq, text_beq,
  find-first, drop-append, ends_with→append,
}
use mathlib.Core.List.{append_assoc}
use native.Mathlib.Nat.{zero-add}
use anywhere_mesh.Server.Auth.{star, match_parts, matches_arn_pattern}
use anywhere_mesh.Server.Auth.Fill.{next, others, fill, fill_no_star}
use anywhere_mesh.Server.Auth.Complete.{contains_last, find→cut_part}

split_plain : (s : Text) → contains star s ≡ false → split_first star s ≡ (s, [])
unfolding contains split_first
split_plain [] h = refl
split_plain (c ∷ s) h = ground (arith, split_plain s)

ends_plain : (s : Text) → contains star s ≡ false → ends_with s (codes "*") ≡ false
ends_plain s h = elim (Bool-cases (ends_with s (codes "*"))) [
  | inr e ↦ e
  | inl e ↦
      let (front, shape) = ends_with→append s (codes "*") e in
      cc (h, ap (contains star) shape, contains_last front)
]

not_empty : (mid : Text) (c : ℕ) (w : Text) → is_empty (mid ++ (c ∷ w)) ≡ false
not_empty [] c w = refl
not_empty (d ∷ mid) c w = refl

fill-star :
    (pattern : Text) (gaps : List Text)
    → fill (star ∷ pattern) gaps ≡ next gaps ++ fill pattern (others gaps)
unfolding fill
fill-star pattern gaps = refl

-- For u = c ∷ w, a text with no star, between two copies of which `mid` stands.
module _ (c : ℕ) (w mid : Text) (plain : contains star (c ∷ w) ≡ false) where
  abbrev u : Text
  u = c ∷ w

  abbrev twice : Text
  twice = u ++ (mid ++ u)

  parts : split star (star ∷ u) ≡ [] ∷ u ∷ []
  unfolding split split_first
  parts = ground (arith, split_plain u plain)

  first_found : find twice u ≡ some 0
  first_found = let (pos, found, early) = find-first [] u (mid ++ u) in ground arith

  left_over : match_parts 0 ([] ∷ u ∷ []) twice ≡ some (mid ++ u)
  unfolding match_parts
  left_over =
      rw (find→cut_part 0 u twice 0 first_found, match_parts)
        (rw zero-add (ap (λ t. some t) (drop-append u (mid ++ u))))

  not_lone_star : text_beq (star ∷ u) (codes "*") ≡ false
  unfolding text_beq
  not_lone_star = refl

  starred : contains star (star ∷ u) ≡ true
  unfolding contains
  starred = refl

  not_last : ends_with (star ∷ u) (codes "*") ≡ false
  unfolding ends_with text_beq
  not_last = ends_plain u plain

  -- For a text u that is not empty and has no star, a pattern of a star and u refuses every ARN
  -- that is u, any text, and u again, although the pattern stands for it.
  pub matches_arn_pattern_misses :
      (twice ≡ fill (star ∷ u) ((u ++ mid) ∷ [])) × (matches_arn_pattern twice (star ∷ u) ≡ false)
  unfolding matches_arn_pattern
  matches_arn_pattern_misses = (
    sym (
        fill-star u ((u ++ mid) ∷ [])
        ∙ ap (λ t. (u ++ mid) ++ t) (fill_no_star u [] plain)
        ∙ append_assoc u mid u),
    rw (not_lone_star, matches_arn_pattern)
        (rw starred (rw parts (rw left_over (rw (not_last, not_empty mid c w))))),
  )
