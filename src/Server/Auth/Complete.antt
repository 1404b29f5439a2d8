-- ===== src/Server/Auth/Complete.antt =====
-- Which ARNs that a pattern stands for are allowed, and which are not.
use anywhere_mesh.Base.{
  ℕ, suc, ◌+◌, ◌≤◌, Text, codes, find, contains, split_first, split, length, drop, ◌≡◌, refl, ap,
  sym, ◌∙◌, some, true, List, [], ◌∷◌, ◌++◌, arith, text_eq, starts_with-append, ends_with-append,
  find-first, drop-append, drop-gap, length-append,
}
use mathlib.Core.List.{append_assoc}
use native.Mathlib.Nat.{zero-add}
use anywhere_mesh.Server.Auth.{star, cut_part, match_parts, matches_arn_pattern}
use anywhere_mesh.Server.Auth.Fill.{next, others, fill, fill_parts, fill-split}

pub find→cut_part :
    (n : ℕ) (part arn : Text) (pos : ℕ)
    → find arn part ≡ some pos
    → cut_part (suc n) part arn ≡ some (drop (pos + length part) arn)
unfolding cut_part
find→cut_part n part arn pos e = ground arith

-- A part that stands behind a gap is cut off, and what is behind it stays behind some gap.
cut_part_complete :
    (n : ℕ) (gap part rest : Text)
    → (gap' : Text) × (cut_part (suc n) part (gap ++ (part ++ rest)) ≡ some (gap' ++ rest))
cut_part_complete n gap part rest =
    let (pos, found, early) = find-first gap part rest in
    let bound : pos + length part ≤ length (gap ++ part) = rw length-append (omega arith) in
    let (gap', left) = drop-gap (gap ++ part) rest (pos + length part) bound in
    (
      gap',
      find→cut_part n part (gap ++ (part ++ rest)) pos found
          ∙ ap (λ t. some (drop (pos + length part) t)) (sym (append_assoc gap part rest))
          ∙ ap (λ t. some t) left,
    )

cut_first_complete : (part rest : Text) → cut_part 0 part (part ++ rest) ≡ some rest
unfolding cut_part
cut_first_complete part rest =
    let (pos, found, early) = find-first [] part rest in
    let start : find (part ++ rest) part ≡ some 0 = ground arith in
    rw (starts_with-append part rest, start, cut_part)
      (rw zero-add (ap (λ t. some t) (drop-append part rest)))

-- The greedy loop loses nothing: it succeeds wherever the parts stand in order.
match_parts_complete :
    (n : ℕ) (parts : List Text) (gap : Text) (gaps : List Text)
    → (rest : Text) × (match_parts (suc n) parts (gap ++ fill_parts parts gaps) ≡ some rest)
unfolding match_parts fill_parts
match_parts_complete n [] gap gaps = (gap ++ [], refl)
match_parts_complete n ([] ∷ parts) gap gaps =
    let (rest, found) = match_parts_complete (suc n) parts (gap ++ next gaps) (others gaps) in
    (
      rest,
      ap (λ t. match_parts (suc (suc n)) parts t)
            (sym (append_assoc gap (next gaps) (fill_parts parts (others gaps))))
          ∙ found,
    )
match_parts_complete n ((c ∷ part) ∷ parts) gap gaps =
    let (gap', cut) =
      cut_part_complete n (gap ++ next gaps) (c ∷ part) (fill_parts parts (others gaps)) in
    let (rest, found) = match_parts_complete (suc n) parts gap' (others gaps) in
    (
      rest,
      rw (← append_assoc gap (next gaps) ((c ∷ part) ++ fill_parts parts (others gaps)))
          (rw (cut, match_parts) found),
    )

match_first_complete :
    (first : Text) (parts : List Text) (gaps : List Text)
    → (rest : Text) × (match_parts 0 (first ∷ parts) (first ++ fill_parts parts gaps) ≡ some rest)
unfolding match_parts
match_first_complete [] parts gaps = match_parts_complete 0 parts [] gaps
match_first_complete (c ∷ first) parts gaps =
    let (rest, found) = match_parts_complete 0 parts [] gaps in
    (rest, rw (cut_first_complete (c ∷ first) (fill_parts parts gaps), match_parts) found)

match_all_complete :
    (pattern : Text) (gaps : List Text)
    → (rest : Text) × (match_parts 0 (split star pattern) (fill pattern gaps) ≡ some rest)
unfolding split
match_all_complete pattern gaps =
    let (rest, found) =
      match_first_complete (split_first star pattern).0 (split_first star pattern).1 gaps in
    (rest, rw (fill-split pattern gaps) found)

pub contains_last : (front : Text) → contains star (front ++ codes "*") ≡ true
unfolding contains
contains_last [] = refl
contains_last (c ∷ front) = ground (arith, contains_last front)

-- A pattern that ends in a star allows every ARN that it stands for.
pub matches_arn_pattern_complete :
    (front : Text) (gaps : List Text)
    → matches_arn_pattern (fill (front ++ codes "*") gaps) (front ++ codes "*") ≡ true
unfolding matches_arn_pattern
matches_arn_pattern_complete front gaps =
    let (rest, found) = match_all_complete (front ++ codes "*") gaps in
    let last = ends_with-append front (codes "*") in
    let starred = contains_last front in ground arith
