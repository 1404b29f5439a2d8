-- ===== src/Server/Http.antt =====
-- What the handlers of mesh/src/server take from hyper: a request, a response and their parts.
use anywhere_mesh.Base.{
  ℕ, Text, codes, get, lowercase, split_first, Option, none, some, Bool, false, List, [], ◌∷◌, ◌==◌,
  text_eq, ltb, ◌||◌, any, not, if◌then◌else◌,
}
use anywhere_mesh.Server.Libraries.{Libraries}

-- A header's value, by what `to_str` answers: a text, or none if it is not visible ASCII.
abbrev pub HeaderValue : Type 0
HeaderValue = Option Text

-- What reading a body comes to: its bytes, or the text of an error.
pub data Body : Type 0 where
  bytes : List ℕ → Body
  broken : Text → Body

-- The names of headers are in lower case, as hyper keeps them.
pub record HttpRequest : Type 0 where
  pub method : Text
  pub path : Text
  pub path_and_query : Option Text
  -- the host of the authority
  pub authority : Option Text
  pub headers : List (Text × HeaderValue)
  pub body : Body

pub record HttpResponse : Type 0 where
  pub status : ℕ
  pub headers : List (Text × Text)
  pub body : List ℕ

abbrev pub plain : ℕ → Text → HttpResponse
plain status text = record { status = status; headers = []; body = text }

abbrev pub typed : Text → Text → HttpResponse
typed content_type text = record {
  status = 200;
  headers = (codes "content-type", content_type) ∷ [];
  body = text;
}

-- req.headers().get(name).and_then(|h| h.to_str().ok())
unfoldable pub header_str : Text → HttpRequest → Option Text
unfolding get
header_str name req = elim (get name req.headers) [ none ↦ none | some value ↦ value ]

unfoldable pub upgrade_is_ws : HttpRequest → Bool
unfolding header_str lowercase
upgrade_is_ws req = elim (header_str (codes "upgrade") req) [
  | some h ↦ lowercase h == codes "websocket"
  | none ↦ false
]

-- The value that names the host: of `x-forwarded-host`, or else of `host`.
unfoldable pub host_value : HttpRequest → Option Text
unfolding get header_str
host_value req = elim (get (codes "x-forwarded-host") req.headers) [
  | some value ↦ value
  | none ↦ header_str (codes "host") req
]

-- The host to route by, without a port.
unfoldable pub request_host : HttpRequest → Text
unfolding host_value split_first
request_host req = elim (host_value req) [
  | some s ↦ (split_first b':' s).0
  | none ↦ elim req.authority [ some host ↦ host | none ↦ codes "unknown" ]
]

unfoldable pub request_path : HttpRequest → Text
request_path req = elim req.path_and_query [ some p ↦ p | none ↦ codes "/" ]

-- The answer that switches to the WebSocket protocol.
unfoldable pub switching : Libraries → HttpRequest → HttpResponse
unfolding header_str
switching lib req =
    let key : Text = elim (header_str (codes "sec-websocket-key") req) [ some k ↦ k | none ↦ [] ] in
    record {
      status = 101;
      headers =
          (codes "upgrade", codes "websocket")
          ∷ (codes "connection", codes "upgrade")
          ∷ (codes "sec-websocket-accept", lib.derive_accept_key key)
          ∷ [];
      body = [];
    }

-- The response builder: none for a status that is not of three digits, or an invalid header.
unfoldable pub build_response : Libraries → ℕ → List (Text × Text) → List ℕ → Option HttpResponse
build_response lib status headers body =
    if ltb status 100
      || ltb 999 status
      || any (λ (name, value). not (lib.valid_header name value)) headers
    then none
    else some (record { status = status; headers = headers; body = body })
