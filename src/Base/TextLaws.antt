-- ===== src/Base/TextLaws.antt =====
-- What the text functions answer.
use Prim.Native.Nat.{ℕ, zero, suc, ◌+◌, ◌≤◌}
use mathlib.Core.Path.{◌≡◌, refl, sym, ap, ◌∙◌}
use mathlib.Core.Logic.{◌↔◌, inl, inr}
use mathlib.Core.Bool.{true}
use mathlib.Core.Option
use mathlib.Core.Option.{Option, none, some}
use mathlib.Core.List.{List, [], ◌∷◌, ◌++◌}
use native.Mathlib.Nat.{zero-add, suc-add}
use native.Mathlib.Omega.{arith}
use anywhere_mesh.Base.Tests.{PartialEq, Bool-cases}
use anywhere_mesh.Base.Lists.{length, take, drop}
use anywhere_mesh.Base.Texts.{Text, text_beq, starts_with, ends_with, find}

pub text_beq_iff : (s t : Text) → (text_beq s t ≡ true) ↔ (s ≡ t)
unfolding text_beq
text_beq_iff [] [] = (λ _. refl, λ _. refl)
text_beq_iff [] (d ∷ t) = ground arith
text_beq_iff (c ∷ s) [] = ground arith
text_beq_iff (c ∷ s) (d ∷ t) = ground (arith, text_beq_iff s t)

instance abbrev pub text_eq : PartialEq Text
text_eq = record { eq = text_beq; eq_iff = text_beq_iff }

pub starts_with→append : (s p : Text) → starts_with s p ≡ true → (rest : Text) × (s ≡ p ++ rest)
unfolding starts_with
starts_with→append s [] h = (s, refl)
starts_with→append [] (d ∷ p) h = cc
starts_with→append (c ∷ s) (d ∷ p) h =
    let (rest, e) = starts_with→append s p (ground arith) in (rest, ground arith)

pub starts_with-append : (p rest : Text) → starts_with (p ++ rest) p ≡ true
unfolding starts_with
starts_with-append [] rest = refl
starts_with-append (d ∷ p) rest = ground (arith, starts_with-append p rest)

pub ends_with→append : (s p : Text) → ends_with s p ≡ true → (front : Text) × (s ≡ front ++ p)
unfolding ends_with
ends_with→append [] p h = ([], (text_beq_iff [] p).0 h)
ends_with→append (c ∷ s) p h = elim (Bool-cases (text_beq (c ∷ s) p)) [
  | inl e ↦ ([], (text_beq_iff (c ∷ s) p).0 e)
  | inr e ↦
      let (front, same) = ends_with→append s p (rw e at h) in (c ∷ front, ap (λ t. c ∷ t) same)
]

pub ends_with_self : (p : Text) → ends_with p p ≡ true
unfolding ends_with
ends_with_self [] = (text_beq_iff [] []).1 refl
ends_with_self (c ∷ p) = rw ((text_beq_iff (c ∷ p) (c ∷ p)).1 refl)

pub ends_with-append : (front p : Text) → ends_with (front ++ p) p ≡ true
unfolding ends_with
ends_with-append [] p = unfold ends_with in ends_with_self p
ends_with-append (c ∷ front) p = ground (arith, ends_with-append front p)

pub drop-append {ℓ} : {A : Type ℓ} (p rest : List A) → drop (length p) (p ++ rest) ≡ rest
drop-append [] rest = refl
drop-append (c ∷ p) rest = drop-append p rest

starts_with→drop : (s p : Text) → starts_with s p ≡ true → s ≡ p ++ drop (length p) s
starts_with→drop s p h =
    let (rest, e) = starts_with→append s p h in
    e ∙ ap (λ t. p ++ t) (sym (drop-append p rest)) ∙ ap (λ t. p ++ drop (length p) t) (sym e)

find-here : (s p : Text) → starts_with s p ≡ true → find s p ≡ some 0
unfolding find
find-here [] p h = rw h
find-here (c ∷ s) p h = rw h

here→split :
    (s p : Text) (i : ℕ)
    → i ≡ 0
    → starts_with s p ≡ true
    → s ≡ take i s ++ (p ++ drop (i + length p) s)
here→split s p i first h = rw (first, zero-add) (starts_with→drop s p h)

map-suc : (o : Option ℕ) (i : ℕ) → Option.map suc o ≡ some i → (j : ℕ) × (o ≡ some j) × (i ≡ suc j)
map-suc none i h = cc
map-suc (some j) i h = (j, refl, ground arith)

-- An occurrence that `find` answers, cut out of the text.
pub find→split :
    (s p : Text) (i : ℕ) → find s p ≡ some i → s ≡ take i s ++ (p ++ drop (i + length p) s)
unfolding find
find→split [] p i h = elim (Bool-cases (starts_with [] p)) [
  | inl e ↦ here→split [] p i (ground arith) e
  | inr e ↦ cc (rw e at h)
]
find→split (c ∷ s) p i h = elim (Bool-cases (starts_with (c ∷ s) p)) [
  | inl e ↦ here→split (c ∷ s) p i (ground arith) e
  | inr e ↦
      let (j, found, later) = map-suc (find s p) i (rw e at h) in
      rw (later, suc-add) (ap (λ t. c ∷ t) (find→split s p j found))
]

-- `find` answers the first occurrence, so no later than any other.
pub find-first :
    (gap p rest : Text) → (i : ℕ) × (find (gap ++ (p ++ rest)) p ≡ some i) × (i ≤ length gap)
unfolding find
find-first [] p rest = (0, find-here (p ++ rest) p (starts_with-append p rest), omega arith)
find-first (c ∷ gap) p rest = elim (Bool-cases (starts_with (c ∷ (gap ++ (p ++ rest))) p)) [
  | inl e ↦ (0, rw e, omega arith)
  | inr e ↦ let (i, found, bound) = find-first gap p rest in (suc i, rw (e, found), omega arith)
]

-- Cutting a prefix that reaches into the part behind a gap leaves that part a suffix.
pub drop-gap :
    (gap rest : Text) (k : ℕ)
    → k ≤ length gap
    → (gap' : Text) × (drop k (gap ++ rest) ≡ gap' ++ rest)
drop-gap gap rest zero h = (gap, refl)
drop-gap [] rest (suc k) h = absurd (omega arith)
drop-gap (c ∷ gap) rest (suc k) h = drop-gap gap rest k (omega arith)
