-- ===== src/Server/Error.antt =====
-- mesh/src/server/error.rs: the errors of the ingress. An error of a library is kept as its text.
use anywhere_mesh.Base.{Text, codes, ◌++◌}
use anywhere_mesh.Common.Types.{Uuid}

pub data IngressError : Type 0 where
  bad_request : Text → IngressError
  timeout : Uuid → IngressError
  registry_not_found : Uuid → IngressError
  send_failed : Text → IngressError
  serde : Text → IngressError
  http : Text → IngressError
  web_socket : Text → IngressError
  internal : Text → IngressError

pub data IngressResult (A : Type 0) : Type 0 where
  ok : A → IngressResult A
  err : IngressError → IngressResult A

infixl 5 ◌>>=◌
abbrev pub ◌>>=◌ : {A B : Type 0} → IngressResult A → (A → IngressResult B) → IngressResult B
ok a >>= f = f a
err e >>= f = err e

-- The `#[error]` texts, with the text of a UUID.
unfoldable pub display : (Uuid → Text) → IngressError → Text
display show_uuid (bad_request message) = codes "Bad request: " ++ message
display show_uuid (timeout id) = codes "Request timeout for request " ++ show_uuid id
display show_uuid (registry_not_found id) = codes "Registry entry not found for " ++ show_uuid id
display show_uuid (send_failed message) = codes "Failed to send message: " ++ message
display show_uuid (serde e) = codes "Serialization/deserialization error: " ++ e
display show_uuid (http e) = codes "HTTP client error: " ++ e
display show_uuid (web_socket e) = codes "WebSocket error: " ++ e
display show_uuid (internal message) = codes "Internal error: " ++ message
