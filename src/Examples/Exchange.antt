-- ===== src/Examples/Exchange.antt =====
-- A request of the load balancer that a local service answers.
use anywhere_mesh.Base.{◌≡◌, refl, none, [], ◌∷◌, ℕ, List, arith}
use anywhere_mesh.Server.Registry.{default_registry}
use anywhere_mesh.Server.Router.Pending.{responds, closes, take_steps}
use anywhere_mesh.Server.Router.Reach.{reads_of}
use anywhere_mesh.Server.Tunnel.{no_tunnels}
use anywhere_mesh.Server.Tunnel.Handshake.{tunnel_reads}
use anywhere_mesh.Server.Handlers.{proxy_request_of, handle_alb_request}
use anywhere_mesh.Client.Proxy.{readable, local_request, handle_request}
use anywhere_mesh.Client.Exchange.{IsServed, handle_alb_request-exchange}
use anywhere_mesh.Common.Types.{ProxyRequest}
use anywhere_mesh.Examples.{
  lib, app, one_agent, open_channels, fresh_router, http_request, foreign_response,
}
use anywhere_mesh.Examples.Routing.{fresh-IsAllocated, app_registered, app-IsAlive, only_app}
use anywhere_mesh.Examples.Handlers.{no_upgrade, no_check, host_misses, app-Serves}
use anywhere_mesh.Examples.Agents.{handler, local_headers}

abbrev pub forwarded : ProxyRequest
forwarded = proxy_request_of 40 http_request []

-- The local service echoes the URI.
abbrev pub echoed : List ℕ
echoed = (local_request handler forwarded).uri

pub served : IsServed handler forwarded 200 local_headers echoed
unfolding local_request
served = record { uri = refl; method = refl; built = refl; local = refl }

handle_alb_request-exchange_example :
    (handle_alb_request lib default_registry none
      (tunnel_reads one_agent 12)
      (reads_of 10 11 12 one_agent)
      (λ t. t)
      (λ t. t)
      (take_steps (responds (handle_request handler forwarded) ∷ responds foreign_response ∷ []))
      (take_steps (closes 41 ∷ []))
      40
      http_request
      no_tunnels
      fresh_router
      open_channels).1.2
    ≡ record { status = 200; headers = readable local_headers; body = echoed }
unfolding readable
handle_alb_request-exchange_example =
    handle_alb_request-exchange lib one_agent none (tunnel_reads one_agent 12) (λ t. t) (λ t. t) 10
      11 12 40 http_request [] no_tunnels fresh_router open_channels app
      (responds foreign_response ∷ []) (closes 41 ∷ []) handler 200 local_headers echoed no_upgrade
      no_check refl fresh-IsAllocated host_misses app_registered app-Serves app-IsAlive only_app
      (tt, tt) (λ e. omega arith, tt) served (omega arith) (omega arith) (refl, tt)
