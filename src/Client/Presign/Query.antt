-- ===== src/Client/Presign/Query.antt =====
-- What a server reads in the query of the presigned URL.
use anywhere_mesh.Base.{
  ℕ, ◌≡◌, refl, ap, ◌∙◌, Text, codes, contains, split, map, false, List, [], ◌∷◌, ◌++◌, All,
  IsFreeOf, join, split-join, IsSorted, IsReversible, Option, none, some, then_cmp,
  text_cmp-IsReversible, sort_by-IsSorted, sort_by-perm, sort_by-cons, sort_by-All, arith,
}
use mathlib.Core.List.{Perm}
use mathlib.Core.List.Perm
use anywhere_mesh.Client.Presign.{
  Signing, encode_pair, pair_cmp, encoded, assignment, canonical_query,
}
use anywhere_mesh.Client.Presign.Decode.{
  EncodesBytes, percent_decode, enc, decode-enc, contains-enc, between-IsSeparator,
  within-IsSeparator,
}

-- The pairs of a query, as they are written.
abbrev pair_of : List Text → Option (Text × Text)
pair_of (k ∷ v ∷ []) = some (k, v)
pair_of _ = none

pub read_pair : Text → Option (Text × Text)
read_pair text = pair_of (split b'=' text)

unfoldable pub read_query : Text → List (Option (Text × Text))
read_query text = map read_pair (split b'&' text)

pub decode_pair : Text × Text → Text × Text
decode_pair (k, v) = (percent_decode k, percent_decode v)

contains-append :
    (c : ℕ) (s t : Text) → contains c s ≡ false → contains c t ≡ false → contains c (s ++ t) ≡ false
unfolding contains
contains-append c [] t hs ht = ht
contains-append c (d ∷ s) t hs ht = ground (arith, contains-append c s t)

-- The text of a pair without separators in its parts.
record IsClean (pair : Text × Text) : Type 0 where
  outside : contains b'&' (assignment pair) ≡ false
  inside : IsFreeOf b'=' (pair.0 ∷ pair.1 ∷ [])

read_pair-assignment : (pair : Text × Text) → IsClean pair → read_pair (assignment pair) ≡ some pair
unfolding read_pair assignment join
read_pair-assignment (k, v) clean = ap pair_of (split-join b'=' k (v ∷ []) clean.inside)

module _ (lib : Signing) (encodes : EncodesBytes lib) where
  encode_pair-IsClean : (pair : Text × Text) → IsClean (encode_pair lib pair)
  unfolding encode_pair assignment enc contains
  encode_pair-IsClean (k, v) = record {
    outside =
        contains-append b'&' (enc lib encodes k) (codes "=" ++ enc lib encodes v)
          (contains-enc lib encodes b'&' k between-IsSeparator)
          (contains-enc lib encodes b'&' v between-IsSeparator);
    inside = (
      contains-enc lib encodes b'=' k within-IsSeparator,
      (contains-enc lib encodes b'=' v within-IsSeparator, tt),
    );
  }

  each-IsClean : (query : List (Text × Text)) → All IsClean (map (encode_pair lib) query)
  each-IsClean [] = tt
  each-IsClean (pair ∷ query) = (encode_pair-IsClean pair, each-IsClean query)

  encoded-IsClean : (query : List (Text × Text)) → All IsClean (encoded lib query)
  unfolding encoded
  encoded-IsClean query = sort_by-All pair_cmp IsClean _ (each-IsClean query)

clean-IsFreeOf :
    (pairs : List (Text × Text)) → All IsClean pairs → IsFreeOf b'&' (map assignment pairs)
clean-IsFreeOf [] h = tt
clean-IsFreeOf (pair ∷ pairs) (h, hs) = (h.outside, clean-IsFreeOf pairs hs)

read_each :
    (pairs : List (Text × Text))
    → All IsClean pairs
    → map read_pair (map assignment pairs) ≡ map (λ p. some p) pairs
read_each [] h = refl
read_each (pair ∷ pairs) (h, hs) =
    rw (read_pair-assignment pair h) (ap (λ l. some pair ∷ l) (read_each pairs hs))

read_query-join :
    (pair : Text × Text) (pairs : List (Text × Text))
    → All IsClean (pair ∷ pairs)
    → read_query (join (codes "&") (map assignment (pair ∷ pairs)))
      ≡ map (λ p. some p) (pair ∷ pairs)
unfolding read_query
read_query-join pair pairs h =
    ap (map read_pair)
      (split-join b'&' (assignment pair) (map assignment pairs) (clean-IsFreeOf (pair ∷ pairs) h))
    ∙ read_each (pair ∷ pairs) h

pair_cmp-IsReversible : IsReversible pair_cmp
unfolding pair_cmp then_cmp
pair_cmp-IsReversible (k, v) (k', v') =
    ground (arith, text_cmp-IsReversible k k', text_cmp-IsReversible v v')

-- A text is the canonical form of a query: the pairs that are read in it are sorted by their encoded
-- names and values, and stand for exactly the pairs of the query.
pub record IsCanonical (query : List (Text × Text)) (text : Text) : Type 0 where
  pub pairs : List (Text × Text)
  pub reads : read_query text ≡ map (λ p. some p) pairs
  pub sorted : IsSorted pair_cmp pairs
  pub decoded : Perm (map decode_pair pairs) query

module _ (lib : Signing) (encodes : EncodesBytes lib) where
  decode_all : (query : List (Text × Text)) → map decode_pair (map (encode_pair lib) query) ≡ query
  unfolding decode_pair encode_pair enc
  decode_all [] = refl
  decode_all ((k, v) ∷ query) =
      rw (decode-enc lib encodes k)
        (rw (decode-enc lib encodes v) (ap (λ l. (k, v) ∷ l) (decode_all query)))

  encoded-perm : (query : List (Text × Text)) → Perm (map decode_pair (encoded lib query)) query
  unfolding encoded
  encoded-perm query =
      rw decode_all at (Perm.map decode_pair (sort_by-perm pair_cmp (map (encode_pair lib) query)))

  pub canonical_query-IsCanonical :
      (pair : Text × Text) (query : List (Text × Text))
      → IsCanonical (pair ∷ query) (canonical_query lib (pair ∷ query))
  unfolding canonical_query encoded
  canonical_query-IsCanonical pair query =
      let (first, others, shape) =
        sort_by-cons pair_cmp (encode_pair lib pair) (map (encode_pair lib) query) in
      record {
        pairs = encoded lib (pair ∷ query);
        reads = rw shape (
            read_query-join first others
              (rw shape at (encoded-IsClean lib encodes (pair ∷ query))));
        sorted =
            sort_by-IsSorted pair_cmp pair_cmp-IsReversible (map (encode_pair lib) (pair ∷ query));
        decoded = encoded-perm (pair ∷ query);
      }
