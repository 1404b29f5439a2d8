-- ===== src/Client/Presign.antt =====
-- mesh/src/client/client_impl.rs: the presigned URL with which the agent proves its identity.
pub mod Decode
pub mod Query
pub mod Signed
pub mod Accepted
use anywhere_mesh.Base.{
  ℕ, Text, codes, contains, take, map, Option, none, some, Bool, ◌||◌, List, [], ◌∷◌, ◌++◌, inr,
  text_cmp, then_cmp, sort_by, join,
}
use Prim.Native.Nat.{Ordering}
use anywhere_mesh.Client.Anyhow.{Anyhow, ◌>>=◌, ok_or, unwrap_or}

-- percent_encoding's AsciiSet: which bytes it has.
abbrev pub AsciiSet : Type 0
AsciiSet = ℕ → Bool

-- The functions of the crates percent_encoding, sha2, hex and hmac.
pub record Signing : Type 0 where
  pub controls : AsciiSet
  pub utf8_percent_encode : AsciiSet → Text → Text
  pub sha256 : Text → List ℕ
  pub hex_encode : List ℕ → Text
  -- a key, a message, and the code or the error about the key's length
  pub hmac_sha256 : List ℕ → Text → Anyhow (List ℕ)

pub record Credentials : Type 0 where
  pub access_key_id : Text
  pub secret_access_key : Text
  pub session_token : Option Text

-- What the SDK's configuration has: a region, and a provider with what it provides.
pub record AwsConfig : Type 0 where
  pub region : Option Text
  pub credentials_provider : Option (Anyhow Credentials)

-- The bytes that are added to CONTROLS.
abbrev pub added_bytes : Text
added_bytes = codes " !\"#$%&'()*+,/:;=?@[]"

unfoldable pub aws_query_encode_set : Signing → AsciiSet
aws_query_encode_set lib b = lib.controls b || contains b added_bytes

-- The pairs of the query before they are encoded.
unfoldable pub query_of : Text → Text → Credentials → List (Text × Text)
query_of region amz_date creds =
    ((codes "Action", codes "GetCallerIdentity")
      ∷ (codes "Version", codes "2011-06-15")
      ∷ (codes "X-Amz-Algorithm", codes "AWS4-HMAC-SHA256")
      ∷ (
        codes "X-Amz-Credential",
        creds.access_key_id
            ++ (codes "/"
                ++ (take 8 amz_date ++ (codes "/" ++ (region ++ codes "/sts/aws4_request")))),
      )
      ∷ (codes "X-Amz-Date", amz_date)
      ∷ (codes "X-Amz-Expires", codes "60")
      ∷ (codes "X-Amz-SignedHeaders", codes "host")
      ∷ [])
    ++ elim creds.session_token [
      | some token ↦ (codes "X-Amz-Security-Token", token) ∷ []
      | none ↦ []
    ]

-- |a, b| a.0.cmp(&b.0).then(a.1.cmp(&b.1))
unfoldable pub pair_cmp : Text × Text → Text × Text → Ordering
unfolding text_cmp then_cmp
pair_cmp (k, v) (k', v') = then_cmp (text_cmp k k') (text_cmp v v')

unfoldable pub encode_pair : Signing → Text × Text → Text × Text
unfolding aws_query_encode_set
encode_pair lib (k, v) = (
  lib.utf8_percent_encode (aws_query_encode_set lib) k,
  lib.utf8_percent_encode (aws_query_encode_set lib) v,
)

unfoldable pub encoded : Signing → List (Text × Text) → List (Text × Text)
unfolding encode_pair pair_cmp sort_by
encoded lib query = sort_by pair_cmp (map (encode_pair lib) query)

-- format!("{}={}", k, v)
unfoldable pub assignment : Text × Text → Text
assignment (k, v) = k ++ (codes "=" ++ v)

unfoldable pub canonical_query : Signing → List (Text × Text) → Text
unfolding encoded assignment join
canonical_query lib query = join (codes "&") (map assignment (encoded lib query))

unfoldable pub canonical_request : Signing → Text → Text → Text
canonical_request lib host query =
    codes "GET\n/\n"
    ++ (query
        ++ (codes "\nhost:" ++ (host ++ (codes "\n\nhost\n" ++ lib.hex_encode (lib.sha256 [])))))

unfoldable pub string_to_sign : Signing → Text → Text → Text → Text
string_to_sign lib region amz_date request =
    codes "AWS4-HMAC-SHA256\n"
    ++ (amz_date
        ++ (codes "\n"
            ++ (take 8 amz_date
                ++ (codes "/"
                    ++ (region
                        ++ (codes "/sts/aws4_request\n" ++ lib.hex_encode (lib.sha256 request)))))))

unfoldable pub signature : Signing → Text → Text → Text → Text → Anyhow Text
signature lib secret_key region amz_date to_sign = do
  k_date ← lib.hmac_sha256 (codes "AWS4" ++ secret_key) (take 8 amz_date)
  k_region ← lib.hmac_sha256 k_date region
  k_service ← lib.hmac_sha256 k_region (codes "sts")
  k_signing ← lib.hmac_sha256 k_service (codes "aws4_request")
  code ← lib.hmac_sha256 k_signing to_sign
  inr (lib.hex_encode code)

unfoldable pub sts_host : Text → Text
sts_host region = codes "sts." ++ (region ++ codes ".amazonaws.com")

-- The URL, by the credentials. `amz_date` is the clock in the format YYYYMMDDTHHMMSSZ.
unfoldable pub signed_url : Signing → Text → Text → Credentials → Anyhow Text
unfolding sts_host canonical_query canonical_request string_to_sign signature query_of
signed_url lib region amz_date creds = do
  let query = canonical_query lib (query_of region amz_date creds)
  let request = canonical_request lib (sts_host region) query
  code ←
      signature lib creds.secret_access_key region amz_date
        (string_to_sign lib region amz_date request)
  inr (
      codes "https://"
      ++ (sts_host region ++ (codes "?" ++ (query ++ (codes "&X-Amz-Signature=" ++ code)))))

unfoldable pub region_of : AwsConfig → Text
region_of cfg = unwrap_or (codes "us-east-1") cfg.region

unfoldable pub build_presigned_sts_url : Signing → AwsConfig → Text → Anyhow Text
unfolding region_of signed_url
build_presigned_sts_url lib cfg amz_date = do
  provided ← ok_or (codes "No AWS credentials provider available") cfg.credentials_provider
  creds ← provided
  signed_url lib (region_of cfg) amz_date creds
