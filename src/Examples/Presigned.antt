-- ===== src/Examples/Presigned.antt =====
-- A presigned URL.
use anywhere_mesh.Base.{
  ◌≡◌, refl, Text, codes, contains, text_beq, List, arith, nat_eq, some, [], ◌∷◌, ◌++◌, inr, ltb,
  ◌||◌, if◌then◌else◌,
}
use anywhere_mesh.Client.Presign.{
  AsciiSet, Signing, AwsConfig, build_presigned_sts_url, signed_url, signature,
}
use anywhere_mesh.Client.Presign.Decode.{escape, EncodesBytes}
use anywhere_mesh.Client.Presign.Signed.{IsSigned, build_presigned_sts_url-IsSigned}
use anywhere_mesh.Client.Presign.Accepted.{Identifies, verdict, authenticate-verdict}
use anywhere_mesh.Client.Identity.{auth_request}
use anywhere_mesh.Server.Auth.{DefaultAuthService, answered, authenticate}
use anywhere_mesh.Server.Auth.Documents.{Piece, tag, chars, show}
use anywhere_mesh.Examples.{auth_service, role}

encode_bytes : AsciiSet → Text → Text
encode_bytes set [] = []
encode_bytes set (b ∷ s) = (if set b || ltb 127 b then escape b else b ∷ []) ++ encode_bytes set s

abbrev signing : Signing
signing = record {
  controls = λ b. ltb b 32;
  utf8_percent_encode = encode_bytes;
  sha256 = λ t. t;
  hex_encode = λ t. t;
  hmac_sha256 = λ key message. inr (key ++ message);
}

signing-EncodesBytes : EncodesBytes signing
unfolding encode_bytes
signing-EncodesBytes = record { empty = λ set. refl; byte = λ set b s. refl }

abbrev config : AwsConfig
config = record {
  region = some (codes "eu-west-1");
  credentials_provider = some (
      inr (record {
        access_key_id = codes "AKIA";
        secret_access_key = codes "key";
        session_token = some (codes "a=b&c");
      }));
}

abbrev date : Text
date = codes "20250101T000000Z"

abbrev signed : (url : Text) × (build_presigned_sts_url signing config date ≡ inr url)
unfolding build_presigned_sts_url signed_url signature
signed = (_, refl)

build_presigned_sts_url-IsSigned_example : IsSigned signing config date signed.0
build_presigned_sts_url-IsSigned_example =
    build_presigned_sts_url-IsSigned signing signing-EncodesBytes config date signed.0 signed.1

-- What STS answers to GetCallerIdentity.
abbrev opening : List Piece
opening =
    tag (codes "GetCallerIdentityResponse xmlns=\"https://sts.amazonaws.com/doc/2011-06-15/\"")
    ∷ chars (codes "\n  ")
    ∷ tag (codes "GetCallerIdentityResult")
    ∷ []

abbrev element : Text → Text → List Piece
element name value = tag name ∷ chars value ∷ tag (codes "/" ++ name) ∷ []

abbrev document : List Piece
document =
    opening
    ++ (element (codes "Arn") role
        ++ (element (codes "UserId") (codes "u")
            ++ (element (codes "Account") (codes "1")
                ++ (tag (codes "/GetCallerIdentityResult") ∷ []))))

abbrev service : DefaultAuthService
service = record auth_service { http_get = λ url. answered 200 (show document) }

names_caller : Identifies (show document) role (codes "1") (codes "u")
unfolding contains text_beq
names_caller = record {
  names_arn = record { before = opening; after = _; past = refl; plain = refl; same = refl };
  names_account = record {
    before = opening ++ (element (codes "Arn") role ++ element (codes "UserId") (codes "u"));
    after = _;
    past = refl;
    plain = refl;
    same = refl;
  };
  names_user = record {
    before = opening ++ element (codes "Arn") role;
    after = _;
    past = refl;
    plain = refl;
    same = refl;
  };
}

authenticate-verdict_example :
    authenticate service (auth_request (build_presigned_sts_url signing config date))
    ≡ verdict service role (codes "1") (codes "u")
authenticate-verdict_example =
    authenticate-verdict signing (λ key message. (_, refl)) signing-EncodesBytes config date _
      service 200 (show document) role (codes "1") (codes "u") refl refl (λ url signed. refl)
      (omega arith) (omega arith) names_caller
