-- ===== src/Server/Handlers.antt =====
-- mesh/src/server/handlers/alb.rs: a load balancer's request, forwarded and answered.
pub mod Pages
pub mod Headers
pub mod Reply
use anywhere_mesh.Base.{
  ℕ, Text, codes, insert, lowercase, any, is_empty, length, show_nat, Option, none, some, Bool,
  true, false, List, [], ◌∷◌, ◌++◌, ◌&&◌, ◌==◌, text_eq, if◌then◌else◌, HashMap,
}
use anywhere_mesh.Common.Types.{Uuid, TextMap, ProxyRequest, ProxyResponse}
use anywhere_mesh.Server.Error.{IngressResult, ok, err}
use anywhere_mesh.Server.Channels.{Channels}
use anywhere_mesh.Server.Libraries.{Libraries}
use anywhere_mesh.Server.Registry.{Registry}
use anywhere_mesh.Server.Router.{DefaultRouter}
use anywhere_mesh.Server.Router.Route.{Reads, route_request}
use anywhere_mesh.Server.Http.{
  HeaderValue, Body, bytes, broken, HttpRequest, HttpResponse, plain, typed, upgrade_is_ws,
  request_host, request_path, build_response,
}
use anywhere_mesh.Server.Tunnel.{Tunnels, ws_proxy_enabled}
use anywhere_mesh.Server.Tunnel.Open.{TunnelReads, start_ws_tunnel_from_alb}

abbrev pub whitelist : List Text
whitelist =
    codes "host"
    ∷ codes "user-agent"
    ∷ codes "accept"
    ∷ codes "accept-encoding"
    ∷ codes "accept-language"
    ∷ codes "authorization"
    ∷ codes "cookie"
    ∷ codes "x-forwarded-for"
    ∷ codes "x-forwarded-proto"
    ∷ codes "x-forwarded-host"
    ∷ codes "x-real-ip"
    ∷ codes "content-type"
    ∷ codes "content-length"
    ∷ codes "x-test-route"
    ∷ []

-- whitelist.contains(name)
unfoldable pub is_listed : Text → Bool
is_listed name = any (λ listed. listed == name) whitelist

-- The loop over the headers, with what it has collected.
unfoldable pub filter_headers : List (Text × HeaderValue) → TextMap → TextMap
filter_headers [] filtered = filtered
filter_headers ((name, none) ∷ headers) filtered = filter_headers headers filtered
filter_headers ((name, some value) ∷ headers) filtered =
    filter_headers headers
      (if is_listed (lowercase name) then insert (lowercase name) value filtered else filtered)

unfoldable pub filter_proxy_headers : List (Text × HeaderValue) → TextMap
filter_proxy_headers headers = filter_headers headers []

-- The request that is routed, under a fresh id.
unfoldable pub proxy_request_of : Uuid → HttpRequest → List ℕ → ProxyRequest
proxy_request_of id req body_bytes = record {
  id = id;
  method = req.method;
  path = request_path req;
  headers = insert (codes "x-forwarded-proto") (codes "https") (filter_proxy_headers req.headers);
  body = if is_empty body_bytes then none else some body_bytes;
  target_host = request_host req;
}

-- A registry that cannot be read counts as empty.
unfoldable pub count : {V : Type 0} → IngressResult (HashMap Uuid V) → ℕ
count (ok m) = length m
count (err e) = 0

-- The router, the message channels and the answer.
abbrev pub Answered : Type 0
Answered = DefaultRouter × Channels × HttpResponse

-- The error that `process_alb_request` hands on with `?`, as `handle_alb_request` answers it.
abbrev pub proxy_error : Text → HttpResponse
proxy_error e = plain 500 (codes "Proxy error: " ++ e)

-- The response to the load balancer.
unfoldable pub answer : Libraries → IngressResult ProxyResponse → HttpResponse
answer lib (err e) = plain 503 (codes "Service Unavailable")
answer lib (ok response) =
    let body : List ℕ = elim response.body [ some b ↦ b | none ↦ [] ] in
    elim (build_response lib response.status_code response.headers body) [
      | some built ↦ built
      | none ↦ proxy_error lib.builder_error
    ]

-- Which of the three things a request of the load balancer is.
unfoldable pub is_ws_upgrade : Option Text → HttpRequest → Bool
is_ws_upgrade setting req = upgrade_is_ws req && ws_proxy_enabled setting

unfoldable pub is_health_check : HttpRequest → Bool
is_health_check req = req.method == codes "GET" && req.path == codes "/health"

module _ {S : Type 0} (lib : Libraries) (registry : Registry S) where
  -- By what reading the body came to.
  unfoldable pub process_body :
      Reads S
      → (DefaultRouter → DefaultRouter)
      → (DefaultRouter → DefaultRouter)
      → Uuid
      → HttpRequest
      → Body
      → DefaultRouter
      → Channels
      → Answered
  process_body at meanwhile before_cleanup id req (broken e) r channels =
      (r, channels, proxy_error e)
  process_body at meanwhile before_cleanup id req (bytes body_bytes) r channels =
      let routed =
        route_request registry lib.send_error at meanwhile before_cleanup
          (proxy_request_of id req body_bytes) r channels in
      (routed.0, routed.1, answer lib routed.2)

  unfoldable pub process_alb_request :
      Reads S
      → (DefaultRouter → DefaultRouter)
      → (DefaultRouter → DefaultRouter)
      → Uuid
      → HttpRequest
      → DefaultRouter
      → Channels
      → Answered
  unfolding process_body
  process_alb_request at meanwhile before_cleanup id req r channels =
      process_body at meanwhile before_cleanup id req req.body r channels

  -- {"status":"healthy","connections":…,"registrations":…,"port":"8080"}
  unfoldable pub alb_health : S → S → HttpResponse
  alb_health connections_at registrations_at = typed (codes "application/json") (
      codes "{\"status\":\"healthy\",\"connections\":"
      ++ show_nat (count (registry.get_all_connections connections_at))
      ++ codes ",\"registrations\":"
      ++ show_nat (count (registry.get_all_registrations registrations_at))
      ++ codes ",\"port\":\"8080\"}")

  -- `id` is the fresh UUID of the request or of the session, and `between` what other tasks do to
  -- the tunnels.
  unfoldable pub handle_alb_request :
      Option Text
      → TunnelReads S
      → Reads S
      → (Tunnels → Tunnels)
      → (Tunnels → Tunnels)
      → (DefaultRouter → DefaultRouter)
      → (DefaultRouter → DefaultRouter)
      → Uuid
      → HttpRequest
      → Tunnels
      → DefaultRouter
      → Channels
      → Tunnels × Answered
  handle_alb_request setting tunnel_at at after_send after_session meanwhile before_cleanup id req t
        r channels =
      if is_ws_upgrade setting req
      then (let opened =
            start_ws_tunnel_from_alb lib registry setting tunnel_at id after_send after_session req
              t channels in
          (opened.0, (r, opened.1, opened.2)))
      else if is_health_check req
      then (t, (r, channels, alb_health at.connections_at at.registrations_at))
      else (t, process_alb_request at meanwhile before_cleanup id req r channels)
