-- ===== src/Client/Presign/Decode.antt =====
-- The percent-encoding of the presigned URL's query, and a reader of it.
use anywhere_mesh.Base.{
  ℕ, ◌+◌, ◌-◌, ◌*◌, ◌/◌, ◌%◌, ◌≡◌, ◌⊎◌, ◌<◌, refl, ap, ◌∙◌, Text, contains, Bool, true, false, ◌||◌,
  [], ◌∷◌, ◌++◌, ltb, nat_beq, nat_beq_iff, if◌then◌else◌, arith, inl, inr,
}
use anywhere_mesh.Client.Presign.{AsciiSet, Signing, added_bytes, aws_query_encode_set}

abbrev pub hex_digit : ℕ → ℕ
hex_digit n = if ltb n 10 then 48 + n else 55 + n

-- The escape of a byte: % and two digits.
unfoldable pub escape : ℕ → Text
escape b = b'%' ∷ hex_digit (b / 16) ∷ hex_digit (b % 16) ∷ []

-- What the crate documents: the bytes of the set and those that are not ASCII are escaped, all
-- others are left alone.
pub record EncodesBytes (lib : Signing) : Type 0 where
  pub empty : (set : AsciiSet) → lib.utf8_percent_encode set [] ≡ []
  pub byte :
      (set : AsciiSet) (b : ℕ) (s : Text)
      → lib.utf8_percent_encode set (b ∷ s)
        ≡ (if set b || ltb 127 b then escape b else b ∷ []) ++ lib.utf8_percent_encode set s

hex_value : ℕ → ℕ
hex_value c = if ltb c 58 then c - 48 else c - 55

hex_value-hex_digit : (n : ℕ) → hex_value (hex_digit n) ≡ n
unfolding hex_value
hex_value-hex_digit n = ground arith

-- Where a reader of a percent-encoded text is: outside of an escape, or behind its first one or two
-- characters.
data Reading : Type 0 where
  plain escaped : Reading
  half : ℕ → Reading

reads : Reading → ℕ → Reading × Text
unfolding hex_value
reads plain c = if nat_beq c b'%' then (escaped, []) else (plain, c ∷ [])
reads escaped c = (half (hex_value c), [])
reads (half h) c = (plain, (16 * h + hex_value c) ∷ [])

decode_from : Reading → Text → Text
decode_from r [] = []
decode_from r (c ∷ s) = (reads r c).1 ++ decode_from (reads r c).0 s

-- The bytes that a percent-encoded text stands for.
pub percent_decode : Text → Text
unfolding decode_from
percent_decode = decode_from plain

decode-escape : (b : ℕ) (s : Text) → percent_decode (escape b ++ s) ≡ b ∷ percent_decode s
unfolding percent_decode decode_from reads escape
decode-escape b s =
    rw (hex_value-hex_digit (b / 16)) (rw (hex_value-hex_digit (b % 16)) (ground arith))

decode-plain :
    (b : ℕ) (s : Text) → nat_beq b b'%' ≡ false → percent_decode (b ∷ s) ≡ b ∷ percent_decode s
unfolding percent_decode decode_from reads
decode-plain b s h = rw h refl

-- What stands for a byte, by whether it is escaped.
abbrev coded : Bool → ℕ → Text
coded test b = if test then escape b else b ∷ []

decode-coded :
    (test : Bool) (b : ℕ) (s : Text)
    → (nat_beq b b'%' ≡ true → test ≡ true)
    → percent_decode (coded test b ++ s) ≡ b ∷ percent_decode s
decode-coded true b s h = decode-escape b s
decode-coded false b s h = decode-plain b s (ground arith)

-- A byte that is always escaped and stands in no escape.
pub record IsSeparator (c : ℕ) : Type 0 where
  pub added : contains c added_bytes ≡ true
  pub no_digit : (c < 48) ⊎ ((57 < c) × (c < 65))
  pub no_percent : nat_beq b'%' c ≡ false

hex_digit-ne : (c n : ℕ) → (c < 48) ⊎ ((57 < c) × (c < 65)) → nat_beq (hex_digit n) c ≡ false
hex_digit-ne c n (inl low) = ground arith
hex_digit-ne c n (inr (above, below)) = ground arith

contains-coded :
    (c : ℕ) (test : Bool) (b : ℕ) (s : Text)
    → IsSeparator c
    → (nat_beq b c ≡ true → test ≡ true)
    → contains c s ≡ false
    → contains c (coded test b ++ s) ≡ false
unfolding contains escape
contains-coded c true b s sep h clean =
    rw sep.no_percent
      (rw (hex_digit-ne c (b / 16) sep.no_digit) (rw (hex_digit-ne c (b % 16) sep.no_digit) clean))
contains-coded c false b s sep h clean = ground arith

-- The bytes between pairs and within a pair.
pub between-IsSeparator : IsSeparator b'&'
unfolding contains
between-IsSeparator = record { added = refl; no_digit = inl (omega arith); no_percent = refl }

pub within-IsSeparator : IsSeparator b'='
unfolding contains
within-IsSeparator = record {
  added = refl;
  no_digit = inr (omega arith, omega arith);
  no_percent = refl;
}

module _ (lib : Signing) (encodes : EncodesBytes lib) where
  unfoldable pub enc : Text → Text
  enc s = lib.utf8_percent_encode (aws_query_encode_set lib) s

  abbrev passes : ℕ → Bool
  passes b = aws_query_encode_set lib b || ltb 127 b

  added-passes : (c b : ℕ) → contains c added_bytes ≡ true → nat_beq b c ≡ true → passes b ≡ true
  unfolding aws_query_encode_set
  added-passes c b added same =
      let at_b : contains b added_bytes ≡ true = rw ((nat_beq_iff b c).0 same) added in
      ground (arith, at_b)

  enc-byte : (b : ℕ) (s : Text) → enc (b ∷ s) ≡ coded (passes b) b ++ enc s
  unfolding enc
  enc-byte b s = encodes.byte (aws_query_encode_set lib) b s

  enc-empty : enc [] ≡ []
  unfolding enc
  enc-empty = encodes.empty (aws_query_encode_set lib)

  percent_added : contains b'%' added_bytes ≡ true
  unfolding contains
  percent_added = refl

  pub decode-enc : (s : Text) → percent_decode (enc s) ≡ s
  unfolding percent_decode decode_from
  decode-enc [] = rw enc-empty refl
  decode-enc (b ∷ s) =
      ap percent_decode (enc-byte b s)
      ∙ decode-coded (passes b) b (enc s) (added-passes b'%' b percent_added)
      ∙ ap (λ t. b ∷ t) (decode-enc s)

  pub contains-enc : (c : ℕ) (s : Text) → IsSeparator c → contains c (enc s) ≡ false
  unfolding contains
  contains-enc c [] sep = rw enc-empty refl
  contains-enc c (b ∷ s) sep =
      ap (contains c) (enc-byte b s)
      ∙ contains-coded c (passes b) b (enc s) sep (added-passes c b sep.added)
          (contains-enc c s sep)
