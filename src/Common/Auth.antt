-- ===== src/Common/Auth.antt =====
-- mesh/src/common/auth.rs: the messages of the IAM handshake.
use anywhere_mesh.Base.{Text, Option, Bool}

pub record IamAuthRequest : Type 0 where
  pub presigned_url : Option Text
  pub region : Text
  pub arn : Option Text
  pub account_id : Option Text
  pub user_id : Option Text

pub record IamIdentity : Type 0 where
  pub arn : Text
  pub account_id : Text
  pub user_id : Text
  pub principal_type : Text

pub record IamAuthResponse : Type 0 where
  pub success : Bool
  pub error : Option Text
  pub identity : Option IamIdentity
