-- ===== src/Client/Proxy.antt =====
-- mesh/src/client/proxy/mod.rs: a forwarded request, handed to the local service.
use anywhere_mesh.Base.{
  ℕ, Text, codes, is_empty, Option, none, some, List, [], ◌∷◌, ◌++◌, ◌⊎◌, inl, inr, if◌then◌else◌,
}
use anywhere_mesh.Common.Types.{TextMap, ProxyRequest, ProxyResponse}
use anywhere_mesh.Server.Http.{HeaderValue, Body, bytes, broken}

pub record LocalRequest : Type 0 where
  pub method : Text
  pub uri : Text
  pub headers : TextMap
  pub body : Option (List ℕ)

-- What the HTTP client answers: the text of an error, or a status, the headers and the body.
pub data LocalAnswer : Type 0 where
  failed : Text → LocalAnswer
  answered : ℕ → List (Text × HeaderValue) → Body → LocalAnswer

-- The handler, with hyper's functions: the errors of its parsers, and of the builder, if any, and
-- the client.
pub record ProxyHandler : Type 0 where
  pub uri_error : Text → Option Text
  pub method_error : Text → Option Text
  pub request_error : LocalRequest → Option Text
  pub http_client : LocalRequest → LocalAnswer
  pub local_endpoint : Text

-- The headers whose values can be read, duplicates included.
unfoldable pub readable : List (Text × HeaderValue) → List (Text × Text)
readable [] = []
readable ((name, none) ∷ headers) = readable headers
readable ((name, some value) ∷ headers) = (name, value) ∷ readable headers

-- The response, or the text of an error.
unfoldable pub response_of : ProxyRequest → LocalAnswer → Text ⊎ ProxyResponse
response_of proxy_request (failed e) = inl e
response_of proxy_request (answered status headers (broken e)) = inl e
response_of proxy_request (answered status headers (bytes body_bytes)) = inr (record {
  id = proxy_request.id;
  status_code = status;
  headers = readable headers;
  body = if is_empty body_bytes then none else some body_bytes;
})

unfoldable pub local_request : ProxyHandler → ProxyRequest → LocalRequest
local_request handler proxy_request = record {
  method = proxy_request.method;
  uri = handler.local_endpoint ++ proxy_request.path;
  headers = proxy_request.headers;
  body = proxy_request.body;
}

unfoldable pub forward_request : ProxyHandler → ProxyRequest → Text ⊎ ProxyResponse
unfolding local_request
forward_request handler proxy_request =
    let request = local_request handler proxy_request in
    elim (handler.uri_error request.uri) [
      | some e ↦ inl e
      | none ↦ elim (handler.method_error request.method) [
        | some e ↦ inl e
        | none ↦ elim (handler.request_error request) [
          | some e ↦ inl e
          | none ↦ response_of proxy_request (handler.http_client request)
        ]
      ]
    ]

unfoldable pub response_or_error : ProxyRequest → Text ⊎ ProxyResponse → ProxyResponse
response_or_error proxy_request (inr response) = response
response_or_error proxy_request (inl e) = record {
  id = proxy_request.id;
  status_code = 500;
  headers = [];
  body = some (codes "Internal Server Error: " ++ e);
}

unfoldable pub handle_request : ProxyHandler → ProxyRequest → ProxyResponse
handle_request handler proxy_request =
    response_or_error proxy_request (forward_request handler proxy_request)
