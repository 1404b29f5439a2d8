-- ===== src/Server/Libraries.antt =====
-- The library functions that the server calls and that are not part of the repository.
use anywhere_mesh.Base.{Text, Option, List, ℕ, Bool}
use anywhere_mesh.Common.Types.{Uuid, IngressMessage}

-- serde_json::from_str::<IngressMessage>: a message, or the text of the error.
pub data Parsed : Type 0 where
  parsed : IngressMessage → Parsed
  malformed : Text → Parsed

pub record Libraries : Type 0 where
  pub from_str : Text → Parsed
  -- the text of tokio's `SendError`
  pub send_error : Text
  -- the text of a UUID
  pub show_uuid : Uuid → Text
  -- base64's STANDARD engine
  pub encode : List ℕ → Text
  pub decode : Text → Option (List ℕ)
  -- tungstenite's derive_accept_key
  pub derive_accept_key : Text → Text
  -- whether the http crate takes a name and a value for a header
  pub valid_header : Text → Text → Bool
  -- the text of the response builder's error
  pub builder_error : Text
