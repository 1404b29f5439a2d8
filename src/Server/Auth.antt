-- ===== src/Server/Auth.antt =====
-- mesh/src/server/auth.rs: the validation of a presigned STS URL.
pub mod Fill
pub mod Patterns
pub mod Complete
pub mod Misses
pub mod Identity
pub mod Documents
use anywhere_mesh.Base.{
  ℕ, suc, ◌+◌, Text, codes, starts_with, ends_with, find, contains, split, length, take, drop,
  is_empty, any, Option, none, some, Bool, true, false, not, ◌&&◌, ◌||◌, List, [], ◌∷◌, ◌++◌, ◌==◌,
  text_eq, nat_eq, ltb, if◌then◌else◌,
}
use anywhere_mesh.Common.Auth.{IamAuthRequest, IamAuthResponse, IamIdentity}

-- What an HTTP GET of a presigned URL comes to: the URL does not parse, the request fails, or a
-- status and the body as text. The texts are those of the libraries' errors.
pub data StsAnswer : Type 0 where
  bad_url unreachable : Text → StsAnswer
  answered : ℕ → Text → StsAnswer

-- The service, with its HTTP client as a function, and the text of a status code.
pub record DefaultAuthService : Type 0 where
  pub http_get : Text → StsAnswer
  pub show_status : ℕ → Text
  pub allowed_role_patterns : List Text
  pub skip_validation : Bool

abbrev pub star : ℕ
star = b'*'

abbrev pub open_tag : Text → Text
open_tag tag = codes "<" ++ (tag ++ codes ">")

abbrev pub close_tag : Text → Text
close_tag tag = codes "</" ++ (tag ++ codes ">")

unfoldable pub extract_xml_field : Text → Text → Option Text
extract_xml_field xml tag = elim (find xml (open_tag tag)) [
  | none ↦ none
  | some at ↦
      let rest = drop (at + length (open_tag tag)) xml in
      elim (find rest (close_tag tag)) [ none ↦ none | some ends ↦ some (take ends rest) ]
]

-- One part of the pattern, cut off the rest of the ARN; `none` is `return false`.
unfoldable pub cut_part : ℕ → Text → Text → Option Text
cut_part i part arn_remaining =
    if i == 0 && not (starts_with arn_remaining part)
    then none
    else elim (find arn_remaining part) [
      | none ↦ none
      | some pos ↦
          if i == 0 && not (pos == 0) then none else some (drop (pos + length part) arn_remaining)
    ]

-- The loop over the parts. An empty part is skipped.
unfoldable pub match_parts : ℕ → List Text → Text → Option Text
match_parts i [] arn_remaining = some arn_remaining
match_parts i ([] ∷ parts) arn_remaining = match_parts (suc i) parts arn_remaining
match_parts i ((c ∷ part) ∷ parts) arn_remaining = elim (cut_part i (c ∷ part) arn_remaining) [
  | none ↦ none
  | some rest ↦ match_parts (suc i) parts rest
]

unfoldable pub matches_arn_pattern : Text → Text → Bool
matches_arn_pattern arn pattern =
    if pattern == codes "*"
    then true
    else if not (contains star pattern)
    then arn == pattern
    else elim (match_parts 0 (split star pattern) arn) [
      | none ↦ false
      | some arn_remaining ↦ ends_with pattern (codes "*") || is_empty arn_remaining
    ]

unfoldable pub is_role_allowed : DefaultAuthService → Text → Bool
unfolding matches_arn_pattern
is_role_allowed service arn =
    if is_empty service.allowed_role_patterns
      || any (λ p. p == codes "*") service.allowed_role_patterns
    then true
    else any (matches_arn_pattern arn) service.allowed_role_patterns

abbrev pub refused : Text → IamAuthResponse
refused message = record { success = false; error = some message; identity = none }

abbrev pub accepted : Text → Text → Text → IamAuthResponse
accepted arn account_id user_id = record {
  success = true;
  error = none;
  identity = some (record {
    arn = arn;
    account_id = account_id;
    user_id = user_id;
    principal_type = codes "AssumedRole";
  });
}

-- The `if let` on the three fields.
unfoldable pub judge :
    DefaultAuthService → Option Text → Option Text → Option Text → IamAuthResponse
judge service (some arn) (some account) (some user_id) =
    if is_role_allowed service arn
    then accepted arn account user_id
    else refused (codes "Role not allowed")
judge service (some arn) (some account) none = refused (codes "Failed to parse STS identity")
judge service (some arn) none user_id = refused (codes "Failed to parse STS identity")
judge service none account user_id = refused (codes "Failed to parse STS identity")

-- `validate_with_sts`, by what the request of the URL came to.
unfoldable pub judge_answer : DefaultAuthService → StsAnswer → IamAuthResponse
unfolding judge
judge_answer service (bad_url e) = refused (codes "Invalid presigned URL: " ++ e)
judge_answer service (unreachable e) = refused (codes "STS call failed: " ++ e)
judge_answer service (answered status body) =
    if ltb 199 status && ltb status 300
    then judge service (extract_xml_field body (codes "Arn"))
        (extract_xml_field body (codes "Account")) (extract_xml_field body (codes "UserId"))
    else refused (codes "STS call failed with status: " ++ service.show_status status)

unfoldable pub validate_with_sts : DefaultAuthService → Text → IamAuthResponse
unfolding judge_answer
validate_with_sts service presigned_url = judge_answer service (service.http_get presigned_url)

unfoldable pub authenticate : DefaultAuthService → IamAuthRequest → IamAuthResponse
unfolding validate_with_sts
authenticate service auth_request =
    if service.skip_validation
    then accepted (codes "arn:aws:iam::000000000000:role/skipped-validation") (codes "000000000000")
        (codes "skipped-validation")
    else elim auth_request.presigned_url [
      | some presigned_url ↦ validate_with_sts service presigned_url
      | none ↦ refused (codes "No presigned URL provided")
    ]
