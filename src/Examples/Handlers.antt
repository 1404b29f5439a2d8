-- ===== src/Examples/Handlers.antt =====
-- Requests of a load balancer.
use anywhere_mesh.Base.{
  codes, get, none, some, false, [], ◌≡◌, refl, nat_eq, inl, if◌then◌else◌, text_eq, ◌==◌, text_beq,
  split_first,
}
use anywhere_mesh.Common.Routing.Hosts.{Serves}
use anywhere_mesh.Server.Router.{cache_hit, new}
use anywhere_mesh.Server.Http.{upgrade_is_ws, header_str, host_value, request_host}
use anywhere_mesh.Server.Handlers.{is_ws_upgrade, is_health_check, is_listed, proxy_request_of}
use anywhere_mesh.Server.Handlers.Headers.{last_value, proxy_request_of-headers}
use anywhere_mesh.Examples.{app, app_host, fresh_router, http_request}

pub no_upgrade : is_ws_upgrade none http_request ≡ false
unfolding is_ws_upgrade upgrade_is_ws header_str get text_beq
no_upgrade = refl

pub no_check : is_health_check http_request ≡ false
unfolding is_health_check text_beq
no_check = refl

for_app : request_host http_request ≡ app_host
unfolding request_host host_value header_str get text_beq split_first
for_app = refl

pub host_misses : cache_hit 10 (request_host http_request) fresh_router ≡ none
unfolding cache_hit new get
host_misses = refl

pub app-Serves : Serves (request_host http_request) app
unfolding request_host host_value header_str get text_beq split_first
app-Serves = inl refl

proxy_request_of-headers_example :
    get (codes "host") (proxy_request_of 40 http_request []).headers ≡ (
      if codes "x-forwarded-proto" == codes "host"
      then some (codes "https")
      else if is_listed (codes "host")
      then last_value (codes "host") http_request.headers none
      else none)
proxy_request_of-headers_example = proxy_request_of-headers 40 http_request [] (codes "host")
