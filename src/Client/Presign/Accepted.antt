-- ===== src/Client/Presign/Accepted.antt =====
-- What the ingress makes of the URL that an agent presigns.
use anywhere_mesh.Base.{
  ℕ, ◌<◌, ◌≤◌, Text, codes, contains, ◌≡◌, refl, ap, ◌∙◌, some, true, false, ◌&&◌, List, ltb,
  if◌then◌else◌, arith, inr,
}
use anywhere_mesh.Common.Auth.{IamAuthResponse}
use anywhere_mesh.Client.Anyhow.{Anyhow, ◌>>=◌}
use anywhere_mesh.Client.Identity.{auth_request}
use anywhere_mesh.Client.Presign.{
  Signing, Credentials, AwsConfig, signature, signed_url, region_of, build_presigned_sts_url,
}
use anywhere_mesh.Client.Presign.Decode.{EncodesBytes}
use anywhere_mesh.Client.Presign.Signed.{IsSigned, build_presigned_sts_url-IsSigned}
use anywhere_mesh.Server.Auth.{
  DefaultAuthService, answered, is_role_allowed, judge, judge_answer, validate_with_sts,
  authenticate, accepted, refused,
}
use anywhere_mesh.Server.Auth.Documents.{IsNamed, extract_xml_field-IsNamed}

-- The document of a call names the caller.
pub record Identifies (body arn account user_id : Text) : Type 0 where
  pub names_arn : IsNamed body (codes "Arn") arn
  pub names_account : IsNamed body (codes "Account") account
  pub names_user : IsNamed body (codes "UserId") user_id

-- What a service that validates says to an allowed caller and to any other.
abbrev pub verdict : DefaultAuthService → Text → Text → Text → IamAuthResponse
verdict service arn account user_id =
    if is_role_allowed service arn
    then accepted arn account user_id
    else refused (codes "Role not allowed")

validate_with_sts-Identifies :
    (service : DefaultAuthService) (url body arn account user_id : Text) (status : ℕ)
    → service.http_get url ≡ answered status body
    → 200 ≤ status
    → status < 300
    → Identifies body arn account user_id
    → validate_with_sts service url ≡ verdict service arn account user_id
unfolding validate_with_sts judge_answer judge contains
validate_with_sts-Identifies service url body arn account user_id status got low high names =
    let in_range : (ltb 199 status && ltb status 300) ≡ true = ground (arith, low, high) in
    rw (got, validate_with_sts)
      (rw (in_range, judge_answer)
        (rw
          (
            extract_xml_field-IsNamed (codes "Arn") arn refl body names.names_arn,
            extract_xml_field-IsNamed (codes "Account") account refl body names.names_account,
            extract_xml_field-IsNamed (codes "UserId") user_id refl body names.names_user,
            judge,
          )
          refl))

-- A computation that does not fail.
abbrev pub Yields : {A : Type 0} → Anyhow A → Type 0
Yields {A} m = (a : A) × (m ≡ inr a)

>>=-Yields :
    {A B : Type 0} (m : Anyhow A) (f : A → Anyhow B)
    → Yields m
    → ((a : A) → Yields (f a))
    → Yields (m >>= f)
>>=-Yields m f (a, e) later = let (b, e') = later a in (b, ap (λ n. n >>= f) e ∙ e')

module _ (lib : Signing)
    (takes_keys : (key : List ℕ) (message : Text) → Yields (lib.hmac_sha256 key message)) where
  signature-Yields :
      (secret_key region amz_date to_sign : Text)
      → Yields (signature lib secret_key region amz_date to_sign)
  unfolding signature
  signature-Yields secret_key region amz_date to_sign = >>=-Yields _ _ (takes_keys _ _) (λ k_date.
      >>=-Yields _ _ (takes_keys k_date region) (λ k_region.
        >>=-Yields _ _ (takes_keys k_region (codes "sts")) (λ k_service.
          >>=-Yields _ _ (takes_keys k_service (codes "aws4_request"))
            (λ k_signing. >>=-Yields _ _ (takes_keys k_signing to_sign) (λ mac. (_, refl))))))

  build_presigned_sts_url-Yields :
      (cfg : AwsConfig) (amz_date : Text) (creds : Credentials)
      → cfg.credentials_provider ≡ some (inr creds)
      → Yields (build_presigned_sts_url lib cfg amz_date)
  unfolding build_presigned_sts_url signed_url
  build_presigned_sts_url-Yields cfg amz_date creds provided =
      rw (provided, build_presigned_sts_url)
        (>>=-Yields _ _ (signature-Yields creds.secret_access_key (region_of cfg) amz_date _)
          (λ mac. (_, refl)))

  -- The agent of a service that has credentials builds a URL, and the ingress that checks it
  -- answers by whether the caller's role is allowed: with the caller's ARN, account and user if
  -- so, and a refusal if not. This holds if the encoder escapes the bytes of the set and those
  -- that are not ASCII, HMAC takes a key of any length, and a call of a correctly signed URL is answered
  -- with a success status and a document whose first elements Arn, Account and UserId name the caller.
  pub authenticate-verdict :
      EncodesBytes lib
      → (cfg : AwsConfig) (amz_date : Text) (creds : Credentials) (service : DefaultAuthService)
        (status : ℕ) (body arn account user_id : Text)
      → cfg.credentials_provider ≡ some (inr creds)
      → service.skip_validation ≡ false
      → ((url : Text) → IsSigned lib cfg amz_date url → service.http_get url ≡ answered status body)
      → 200 ≤ status
      → status < 300
      → Identifies body arn account user_id
      → authenticate service (auth_request (build_presigned_sts_url lib cfg amz_date))
        ≡ verdict service arn account user_id
  unfolding authenticate auth_request is_role_allowed
  authenticate-verdict encodes cfg amz_date creds service status body arn account user_id provided
        checks answers low high names =
      let (url, built) = build_presigned_sts_url-Yields cfg amz_date creds provided in
      let got = answers url (build_presigned_sts_url-IsSigned lib encodes cfg amz_date url built) in
      rw (built, checks)
        (validate_with_sts-Identifies service url body arn account user_id status got low high
          names)
