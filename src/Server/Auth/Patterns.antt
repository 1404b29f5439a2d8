-- ===== src/Server/Auth/Patterns.antt =====
-- Which ARNs a pattern allows.
use anywhere_mesh.Base.{
  ℕ, suc, ◌+◌, Text, codes, ends_with, find, contains, split_first, split, length, take, drop,
  is_empty, ◌≡◌, ap, sym, ◌∙◌, some, true, List, [], ◌∷◌, ◌++◌, arith, inl, inr, Bool-cases,
  Option-cases, text_eq, text_beq, text_beq_iff, nat_eq, ends_with→append, find→split,
}
use mathlib.Core.List.{append_assoc, append-nil}
use anywhere_mesh.Server.Auth.{star, cut_part, match_parts, matches_arn_pattern}
use anywhere_mesh.Server.Auth.Fill.{fill, fill_parts, fill-split, fill_no_star, fill_last}

cut_part-find :
    (n : ℕ) (part arn rest : Text)
    → cut_part (suc n) part arn ≡ some rest
    → (pos : ℕ) × (find arn part ≡ some pos) × (rest ≡ drop (pos + length part) arn)
unfolding cut_part
cut_part-find n part arn rest h = ground arith

cut_first-find :
    (part arn rest : Text)
    → cut_part 0 part arn ≡ some rest
    → (find arn part ≡ some 0) × (rest ≡ drop (0 + length part) arn)
unfolding cut_part
cut_first-find part arn rest h = ground arith

-- A part behind a star is found, and what is cut off is a gap and the part.
cut_part_sound :
    (n : ℕ) (part arn rest : Text)
    → cut_part (suc n) part arn ≡ some rest
    → (gap : Text) × (arn ≡ gap ++ (part ++ rest))
cut_part_sound n part arn rest h =
    let (pos, e, same) = cut_part-find n part arn rest h in
    (take pos arn, find→split arn part pos e ∙ ap (λ t. take pos arn ++ (part ++ t)) (sym same))

-- The part before the first star is a prefix.
cut_first_sound : (part arn rest : Text) → cut_part 0 part arn ≡ some rest → arn ≡ part ++ rest
cut_first_sound part arn rest h =
    let (e, same) = cut_first-find part arn rest h in rw same (find→split arn part 0 e)

regroup :
    (gap part filled rest : Text)
    → gap ++ (part ++ (filled ++ rest)) ≡ (gap ++ (part ++ filled)) ++ rest
regroup gap part filled rest = simp append_assoc

match_parts_sound :
    (n : ℕ) (parts : List Text) (arn rest : Text)
    → match_parts (suc n) parts arn ≡ some rest
    → (gaps : List Text) × (arn ≡ fill_parts parts gaps ++ rest)
unfolding match_parts fill_parts
match_parts_sound n [] arn rest h = ([], ground arith)
match_parts_sound n ([] ∷ parts) arn rest h =
    let (gaps, same) = match_parts_sound (suc n) parts arn rest h in ([] ∷ gaps, same)
match_parts_sound n ((c ∷ part) ∷ parts) arn rest h =
    elim (Option-cases (cut_part (suc n) (c ∷ part) arn)) [
      | inl e ↦ absurd (ground arith)
      | inr (arn', e) ↦
          let (gap, cut) = cut_part_sound n (c ∷ part) arn arn' e in
          let (gaps, same) = match_parts_sound (suc n) parts arn' rest (rw (e, match_parts) at h) in
          (
            gap ∷ gaps,
            cut ∙ ap (λ t. gap ++ ((c ∷ part) ++ t)) same ∙ regroup gap (c ∷ part) _ rest,
          )
    ]

match_first_sound :
    (first : Text) (parts : List Text) (arn rest : Text)
    → match_parts 0 (first ∷ parts) arn ≡ some rest
    → (gaps : List Text) × (arn ≡ (first ++ fill_parts parts gaps) ++ rest)
unfolding match_parts
match_first_sound [] parts arn rest h = match_parts_sound 0 parts arn rest h
match_first_sound (c ∷ first) parts arn rest h = elim (Option-cases (cut_part 0 (c ∷ first) arn)) [
  | inl e ↦ absurd (ground arith)
  | inr (arn', e) ↦
      let (gaps, same) = match_parts_sound 0 parts arn' rest (rw (e, match_parts) at h) in
      (
        gaps,
        cut_first_sound (c ∷ first) arn arn' e
            ∙ ap (λ t. (c ∷ first) ++ t) same
            ∙ sym (append_assoc (c ∷ first) (fill_parts parts gaps) rest),
      )
]

-- The whole loop: the ARN is the pattern with its stars filled, and what is left over.
match_all_sound :
    (pattern arn rest : Text)
    → match_parts 0 (split star pattern) arn ≡ some rest
    → (gaps : List Text) × (arn ≡ fill pattern gaps ++ rest)
unfolding split
match_all_sound pattern arn rest h =
    let (gaps, same) =
      match_first_sound (split_first star pattern).0 (split_first star pattern).1 arn rest h in
    (gaps, same ∙ ap (λ t. t ++ rest) (sym (fill-split pattern gaps)))

-- What is left over behind a pattern that ends in a star belongs to the last star.
absorb :
    (pattern arn rest : Text) (gaps : List Text)
    → ends_with pattern (codes "*") ≡ true
    → arn ≡ fill pattern gaps ++ rest
    → (gaps' : List Text) × (arn ≡ fill pattern gaps')
absorb pattern arn rest gaps h same =
    let (front, shape) = ends_with→append pattern (codes "*") h in
    let (gaps', all) = fill_last front gaps rest in
    (
      gaps',
      same ∙ ap (λ p. fill p gaps ++ rest) shape ∙ sym all ∙ ap (λ p. fill p gaps') (sym shape),
    )

nothing_left : (filled rest : Text) → is_empty rest ≡ true → filled ++ rest ≡ filled
nothing_left filled [] h = append-nil filled
nothing_left filled (c ∷ rest) h = cc

fill_star : (arn : Text) → fill (codes "*") (arn ∷ []) ≡ arn
unfolding fill
fill_star arn = append-nil arn

-- An allowed ARN comes from its pattern by putting a text in place of each star.
pub matches_arn_pattern_sound :
    (arn pattern : Text)
    → matches_arn_pattern arn pattern ≡ true
    → (gaps : List Text) × (arn ≡ fill pattern gaps)
unfolding matches_arn_pattern
matches_arn_pattern_sound arn pattern h = elim (Bool-cases (text_beq pattern (codes "*"))) [
  | inl e ↦ (
    arn ∷ [],
    sym (ap (λ p. fill p (arn ∷ [])) ((text_beq_iff pattern (codes "*")).0 e) ∙ fill_star arn),
  )
  | inr e ↦ elim (Bool-cases (contains star pattern)) [
    | inr plain ↦
        let equal : text_beq arn pattern ≡ true = ground arith in
        ([], (text_beq_iff arn pattern).0 equal ∙ sym (fill_no_star pattern [] plain))
    | inl starred ↦ elim (Option-cases (match_parts 0 (split star pattern) arn)) [
      | inl failed ↦ absurd (ground arith)
      | inr (rest, found) ↦
          let (gaps, same) = match_all_sound pattern arn rest found in
          elim (Bool-cases (ends_with pattern (codes "*"))) [
            | inl last ↦ absorb pattern arn rest gaps last same
            | inr other ↦
                let spent : is_empty rest ≡ true = ground arith in
                (gaps, same ∙ nothing_left (fill pattern gaps) rest spent)
          ]
    ]
  ]
]
