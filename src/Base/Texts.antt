-- ===== src/Base/Texts.antt =====
-- Rust's `str` as the list of its bytes, with the functions of the standard library that the
-- program calls. The literals of the program are ASCII, where a code point is its byte.
use Prim.Native.Nat.{ℕ, zero, suc, ◌+◌, ◌/◌, ◌%◌}
use Prim.Native.Char.{code}
use Prim.Native.String.{String}
use mathlib.Core.Bool.{Bool, true, false, ◌&&◌, ◌||◌}
use mathlib.Core.Option
use mathlib.Core.Option.{Option, none, some}
use mathlib.Core.List.{List, [], ◌∷◌, ◌++◌, map, reverse}
use anywhere_mesh.Base.Tests.{ltb, nat_beq, if◌then◌else◌}

abbrev pub Text : Type 0
Text = List ℕ

abbrev pub codes : String → Text
codes String.[] = []
codes (String.◌∷◌ c s) = code c ∷ codes s

unfoldable pub text_beq : Text → Text → Bool
text_beq [] [] = true
text_beq [] (d ∷ t) = false
text_beq (c ∷ s) [] = false
text_beq (c ∷ s) (d ∷ t) = nat_beq c d && text_beq s t

-- s.starts_with(p)
unfoldable pub starts_with : Text → Text → Bool
starts_with s [] = true
starts_with [] (d ∷ p) = false
starts_with (c ∷ s) (d ∷ p) = nat_beq c d && starts_with s p

-- s.ends_with(p)
unfoldable pub ends_with : Text → Text → Bool
unfolding text_beq
ends_with [] p = text_beq [] p
ends_with (c ∷ s) p = text_beq (c ∷ s) p || ends_with s p

-- s.find(p): the position of the first occurrence.
unfoldable pub find : Text → Text → Option ℕ
unfolding starts_with
find [] p = if starts_with [] p then some 0 else none
find (c ∷ s) p = if starts_with (c ∷ s) p then some 0 else Option.map suc (find s p)

-- s.contains(c)
unfoldable pub contains : ℕ → Text → Bool
contains c [] = false
contains c (d ∷ s) = nat_beq d c || contains c s

-- s.split(c): the part before the first c, and the parts behind it.
unfoldable pub split_first : ℕ → Text → Text × List Text
split_first c [] = ([], [])
split_first c (d ∷ s) =
    let (part, parts) = split_first c s in
    if nat_beq d c then ([], part ∷ parts) else (d ∷ part, parts)

unfoldable pub split : ℕ → Text → List Text
unfolding split_first
split c s = let (part, parts) = split_first c s in part ∷ parts

lowercase_byte : ℕ → ℕ
lowercase_byte c = if ltb 64 c && ltb c 91 then c + 32 else c

-- s.to_lowercase() on ASCII text.
unfoldable pub lowercase : Text → Text
unfolding lowercase_byte
lowercase = map lowercase_byte

-- s.trim_end_matches(c): every c at the end is cut.
unfoldable pub trim_end : ℕ → Text → Text
trim_end c [] = []
trim_end c (d ∷ s) = elim (trim_end c s) [
  | [] ↦ if nat_beq d c then [] else d ∷ []
  | e ∷ t ↦ d ∷ e ∷ t
]

is_space : ℕ → Bool
is_space c = nat_beq c 32 || (ltb 8 c && ltb c 14)

skip_spaces : Text → Text
skip_spaces [] = []
skip_spaces (c ∷ s) = if is_space c then skip_spaces s else c ∷ s

-- s.trim() on ASCII text.
unfoldable pub trim : Text → Text
unfolding is_space skip_spaces
trim s = reverse (skip_spaces (reverse (skip_spaces s)))

unfoldable pub digits_of : ℕ → ℕ → Text
digits_of zero n = []
digits_of (suc fuel) n =
    let more = digits_of fuel (n / 10) in (if ltb n 10 then [] else more) ++ (48 + n % 10) ∷ []

-- format!("{}", n): the fuel exceeds the number of digits.
unfoldable pub show_nat : ℕ → Text
unfolding digits_of
show_nat n = digits_of (suc n) n
