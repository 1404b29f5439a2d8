-- ===== src/Client/Presign/Signed.antt =====
-- The presigned URL as a whole.
use anywhere_mesh.Base.{Text, codes, ◌≡◌, sym, some, ◌++◌, inr}
use anywhere_mesh.Client.Anyhow.{>>=-inr, ok_or-inr, inr-injective}
use anywhere_mesh.Client.Presign.{
  Signing, Credentials, AwsConfig, query_of, canonical_query, canonical_request, string_to_sign,
  signature, sts_host, signed_url, region_of, build_presigned_sts_url,
}
use anywhere_mesh.Client.Presign.Decode.{EncodesBytes}
use anywhere_mesh.Client.Presign.Query.{IsCanonical, canonical_query-IsCanonical}

-- A URL with a canonical query, and the signature of a request of just that query.
pub record IsSigned (lib : Signing) (cfg : AwsConfig) (amz_date url : Text) : Type 0 where
  pub creds : Credentials
  pub query : Text
  pub code : Text
  pub provided : cfg.credentials_provider ≡ some (inr creds)
  pub canonical : IsCanonical (query_of (region_of cfg) amz_date creds) query
  pub signs :
      signature lib creds.secret_access_key (region_of cfg) amz_date (
        string_to_sign lib
          (region_of cfg)
          amz_date
          (canonical_request lib (sts_host (region_of cfg)) query))
      ≡ inr code
  pub address :
      url
      ≡ codes "https://"
        ++ (sts_host (region_of cfg)
            ++ (codes "?" ++ (query ++ (codes "&X-Amz-Signature=" ++ code))))

module _ (lib : Signing) (encodes : EncodesBytes lib) where
  query_of-IsCanonical :
      (region amz_date : Text) (creds : Credentials)
      → IsCanonical
          (query_of region amz_date creds)
          (canonical_query lib (query_of region amz_date creds))
  unfolding query_of
  query_of-IsCanonical region amz_date creds = canonical_query-IsCanonical lib encodes _ _

  -- If the encoder escapes the bytes of the set and those that are not ASCII, a URL that is built
  -- has the credentials that the provider gave, a query whose pairs are sorted and decode to exactly
  -- the pairs to send, and the signature of the request with just that query.
  pub build_presigned_sts_url-IsSigned :
      (cfg : AwsConfig) (amz_date url : Text)
      → build_presigned_sts_url lib cfg amz_date ≡ inr url
      → IsSigned lib cfg amz_date url
  unfolding build_presigned_sts_url signed_url
  build_presigned_sts_url-IsSigned cfg amz_date url h =
      let (given, is_given, h') = >>=-inr _ _ url h in
      let (creds, is_provided, h'') = >>=-inr given _ url h' in
      let (code, is_code, same) = >>=-inr _ _ url h'' in
      record {
        creds = creds;
        query = canonical_query lib (query_of (region_of cfg) amz_date creds);
        code = code;
        provided = rw is_provided at (ok_or-inr _ cfg.credentials_provider given is_given);
        canonical = query_of-IsCanonical (region_of cfg) amz_date creds;
        signs = is_code;
        address = sym (inr-injective _ url same);
      }
