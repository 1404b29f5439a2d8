-- ===== src/Server/Auth/Documents.antt =====
-- The fields that are read in an XML document.
use anywhere_mesh.Base.{
  not, ◌&&◌, Bool, true, ℕ, suc, Text, codes, find, contains, length, take, drop, starts_with,
  text_beq, ◌≡◌, refl, ap, ◌∙◌, Option, none, some, false, List, [], ◌∷◌, ◌++◌, arith, inl, inr,
  Bool-cases, Option-cases, nat_beq_iff, nat_beq,
}
use native.Mathlib.Nat.{suc-add}
use mathlib.Core.List.{append_assoc}
use mathlib.Core.Option
use anywhere_mesh.Server.Auth.{open_tag, close_tag, extract_xml_field}
use anywhere_mesh.Server.Auth.Identity.{extract_xml_field-reads}

-- A document as a reader sees it: tags, by what stands in their angle brackets, and characters.
pub data Piece : Type 0 where
  tag chars : Text → Piece

abbrev pub show : List Piece → Text
show [] = []
show (tag name ∷ pieces) = open_tag name ++ show pieces
show (chars text ∷ pieces) = text ++ show pieces

-- Whether the pieces are well-formed, and none is a tag of the name.
abbrev pub is_past : Text → Piece → Bool
is_past name (tag other) =
    not (contains b'<' other) && not (contains b'>' other) && not (text_beq other name)
is_past name (chars text) = not (contains b'<' text)

abbrev pub all_past : Text → List Piece → Bool
all_past name [] = true
all_past name (piece ∷ pieces) = is_past name piece && all_past name pieces

-- The first element of the name has the value.
pub record IsNamed (body name value : Text) : Type 0 where
  pub before : List Piece
  pub after : Text
  pub past : all_past name before ≡ true
  pub plain : contains b'<' value ≡ false
  pub same : body ≡ show before ++ (open_tag name ++ (value ++ (close_tag name ++ after)))

find-step :
    (part : Text) (c : ℕ) (text : Text) (o : Option ℕ)
    → starts_with (c ∷ text) part ≡ false
    → find text part ≡ o
    → find (c ∷ text) part ≡ Option.map suc o
unfolding find
find-step part c text o h found = rw h (rw found refl)

extract-step :
    (name : Text) (c : ℕ) (text : Text)
    → starts_with (c ∷ text) (open_tag name) ≡ false
    → extract_xml_field (c ∷ text) name ≡ extract_xml_field text name
unfolding extract_xml_field
extract-step name c text h = elim (Option-cases (find text (open_tag name))) [
  | inl e ↦ rw (find-step (open_tag name) c text none h e, e, extract_xml_field) refl
  | inr (at, e) ↦
      rw (find-step (open_tag name) c text (some at) h e, e, extract_xml_field)
        (ap
          (λ n.
            Option.map (λ ends. take ends (drop n (c ∷ text)))
              (find (drop n (c ∷ text)) (close_tag name)))
          (suc-add at (length (open_tag name))))
]

extract-chars :
    (name text rest : Text)
    → contains b'<' text ≡ false
    → extract_xml_field (text ++ rest) name ≡ extract_xml_field rest name
unfolding contains starts_with
extract-chars name [] rest h = refl
extract-chars name (c ∷ text) rest h =
    extract-step name c (text ++ rest) (ground (arith, nat_beq_iff c b'<'))
    ∙ extract-chars name text rest (ground arith)

-- A tag of another name does not begin like one of the name.
apart :
    (other name rest : Text)
    → contains b'>' other ≡ false
    → contains b'>' name ≡ false
    → text_beq other name ≡ false
    → starts_with (other ++ (b'>' ∷ rest)) (name ++ codes ">") ≡ false
unfolding contains starts_with text_beq
apart [] [] rest ho hn h = absurd (ground arith)
apart [] (d ∷ name) rest ho hn h = ground (arith, nat_beq_iff d b'>', nat_beq_iff b'>' d)
apart (c ∷ other) [] rest ho hn h = ground arith
apart (c ∷ other) (d ∷ name) rest ho hn h = elim (Bool-cases (nat_beq c d)) [
  | inl e ↦ ground (arith, apart other name rest)
  | inr e ↦ ground arith
]

module _ (name value : Text) (clean : contains b'>' name ≡ false) where
  extract-tag :
      (other rest : Text)
      → is_past name (tag other) ≡ true
      → extract_xml_field (open_tag other ++ rest) name ≡ extract_xml_field rest name
  unfolding starts_with contains
  extract-tag other rest h = rw (append_assoc other (codes ">") rest) (
      extract-step name b'<' (other ++ (codes ">" ++ rest))
        (apart other name rest (ground arith) clean (ground arith))
      ∙ extract-chars name other (codes ">" ++ rest) (ground arith)
      ∙ extract-step name b'>' rest refl)

  extract-past :
      (before : List Piece) (rest : Text)
      → all_past name before ≡ true
      → extract_xml_field (show before ++ rest) name ≡ extract_xml_field rest name
  extract-past [] rest h = refl
  extract-past (tag other ∷ before) rest h = rw (append_assoc (open_tag other) (show before) rest) (
      extract-tag other (show before ++ rest) (ground arith)
      ∙ extract-past before rest (ground arith))
  extract-past (chars text ∷ before) rest h = rw (append_assoc text (show before) rest) (
      extract-chars name text (show before ++ rest) (ground arith)
      ∙ extract-past before rest (ground arith))

  -- The value of the first element of a name is extracted, whatever other tags come before it.
  pub extract_xml_field-IsNamed :
      (body : Text) → IsNamed body name value → extract_xml_field body name ≡ some value
  unfolding contains
  extract_xml_field-IsNamed body named =
      ap (λ b. extract_xml_field b name) named.same
      ∙ extract-past named.before _ named.past
      ∙ extract_xml_field-reads [] name value named.after refl named.plain
