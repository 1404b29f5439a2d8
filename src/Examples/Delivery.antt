-- ===== src/Examples/Delivery.antt =====
-- A request that an agent's local service answers, behind the agent's introduction.
use anywhere_mesh.Base.{◌≡◌, refl, none, arith, [], ◌∷◌}
use anywhere_mesh.Common.Types.{iam_auth, service_registration, heart_beat}
use anywhere_mesh.Server.Registry.{default_registry}
use anywhere_mesh.Server.Router.Pending.{responds, closes, take_steps}
use anywhere_mesh.Server.Router.Reach.{reads_of}
use anywhere_mesh.Server.Tunnel.{no_tunnels}
use anywhere_mesh.Server.Tunnel.Handshake.{tunnel_reads}
use anywhere_mesh.Server.Handlers.{proxy_request_of, handle_alb_request}
use anywhere_mesh.Client.Proxy.{readable, handle_request}
use anywhere_mesh.Client.Introduction.{take_all}
use anywhere_mesh.Client.Delivery.{take_all-delivers}
use anywhere_mesh.Examples.{
  lib, app, ingress, auth_request, one_agent, http_request, foreign_response,
}
use anywhere_mesh.Examples.Routing.{fresh-IsAllocated, only_app}
use anywhere_mesh.Examples.Connections.{accepts, clock, idle, is_known, is_found}
use anywhere_mesh.Examples.Handlers.{no_upgrade, no_check, host_misses, app-Serves}
use anywhere_mesh.Examples.Agents.{handler, local_headers}
use anywhere_mesh.Examples.Exchange.{echoed, served}

take_all-delivers_example :
    let after =
      take_all lib accepts clock 7 0
        (iam_auth auth_request ∷ service_registration app ∷ heart_beat [] 9 ∷ [])
        ingress in
    (handle_alb_request lib default_registry none
      (tunnel_reads one_agent 12)
      (reads_of 10 11 110 after.state)
      (λ t. t)
      (λ t. t)
      (take_steps (
        responds (handle_request handler (proxy_request_of 40 http_request []))
        ∷ responds foreign_response
        ∷ []))
      (take_steps (closes 41 ∷ []))
      40
      http_request
      no_tunnels
      after.router
      after.channels).1.2
    ≡ record { status = 200; headers = readable local_headers; body = echoed }
unfolding readable
take_all-delivers_example =
    take_all-delivers lib accepts clock 7 1 idle auth_request ingress is_known is_found refl app
      none (tunnel_reads one_agent 12) (λ t. t) (λ t. t) 10 11 110 40 http_request [] no_tunnels
      (responds foreign_response ∷ []) (closes 41 ∷ []) handler 200 local_headers echoed [] 9
      no_upgrade no_check refl fresh-IsAllocated host_misses app-Serves (omega arith) (omega arith)
      only_app (tt, tt) (λ e. omega arith, tt) served (omega arith) (omega arith) (refl, tt)
