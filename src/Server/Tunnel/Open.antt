-- ===== src/Server/Tunnel/Open.antt =====
-- `start_ws_tunnel_from_alb`: opening a tunnel. Other tasks run at every await of the call.
use anywhere_mesh.Base.{
  Text, codes, get, insert, values, split, trim, map, Option, none, some, not, ◌⊎◌, inl, inr, List,
  [], ◌∷◌, nat_eq, text_eq, if◌then◌else◌,
}
use anywhere_mesh.Common.Types.{
  Uuid, SystemTime, TextMap, ServiceRegistration, IngressMessage, web_socket_proxy_init,
}
use anywhere_mesh.Common.Routing.{match_host_to_service, select_healthy_instance}
use anywhere_mesh.Server.Error.{ok, err}
use anywhere_mesh.Server.Channels.{Channels, send}
use anywhere_mesh.Server.Libraries.{Libraries}
use anywhere_mesh.Server.Registry.{Registry}
use anywhere_mesh.Server.Http.{
  HttpRequest, HttpResponse, plain, header_str, upgrade_is_ws, request_host, request_path,
  switching,
}
use anywhere_mesh.Server.Tunnel.{Tunnels, ws_proxy_enabled, open_session, open_waiter}

-- The headers that the agent is told.
abbrev pub forwarded_names : List Text
forwarded_names =
    codes "host"
    ∷ codes "x-forwarded-for"
    ∷ codes "x-forwarded-proto"
    ∷ codes "x-forwarded-host"
    ∷ codes "sec-websocket-protocol"
    ∷ codes "cookie"
    ∷ codes "authorization"
    ∷ []

unfoldable pub collect_headers : List Text → HttpRequest → TextMap → TextMap
collect_headers [] req collected = collected
collect_headers (name ∷ names) req collected =
    collect_headers names req
      (elim (header_str name req) [ some value ↦ insert name value collected | none ↦ collected ])

unfoldable pub fwd_headers : HttpRequest → TextMap
fwd_headers req = collect_headers forwarded_names req []

unfoldable pub subprotocols : TextMap → Option (List Text)
subprotocols headers = elim (get (codes "sec-websocket-protocol") headers) [
  | some v ↦ some (map trim (split b',' v))
  | none ↦ none
]

unfoldable pub init_message : Uuid → HttpRequest → IngressMessage
init_message session_id req =
    web_socket_proxy_init session_id (request_host req) (request_path req) (fwd_headers req)
      (subprotocols (fwd_headers req))

-- The readings of the registry and of the clock that one call makes, in their order.
pub record TunnelReads (S : Type 0) : Type 0 where
  pub registrations_at : S
  pub connections_at : S
  pub now : SystemTime
  pub senders_at : S

-- The call leaves the tunnels and the channels of the agents, and answers.
abbrev pub Opened : Type 0
Opened = Tunnels × Channels × HttpResponse

module _ {S : Type 0} (registry : Registry S) where
  -- The choice of the agent, and the health check on it alone.
  unfoldable pub choose_agent : TunnelReads S → Text → HttpResponse ⊎ ServiceRegistration
  choose_agent at host = elim (registry.get_all_registrations at.registrations_at) [
    | err e ↦ inl (plain 502 (codes "No upstream available"))
    | ok registrations ↦ elim (registry.get_all_connections at.connections_at) [
      | err e ↦ inl (plain 502 (codes "No upstream available"))
      | ok connections ↦ elim (match_host_to_service host (values registrations)) [
        | none ↦ inl (plain 404 (codes "Service Not Found"))
        | some matched_service ↦
            elim (select_healthy_instance at.now (matched_service ∷ []) connections) [
              | none ↦ inl (plain 503 (codes "No healthy service available"))
              | some _ ↦ inr matched_service
            ]
      ]
    ]
  ]

module _ {S : Type 0} (lib : Libraries) (registry : Registry S) where
  -- `after_send` and `after_session` are what other tasks do to the tunnels behind the sending of
  -- the init message, and behind the storing of the session.
  unfoldable pub open_tunnel :
      TunnelReads S
      → Uuid
      → (Tunnels → Tunnels)
      → (Tunnels → Tunnels)
      → HttpRequest
      → ServiceRegistration
      → Tunnels
      → Channels
      → Opened
  open_tunnel at session_id after_send after_session req matched_service t channels =
      elim (registry.get_connection_sender matched_service.id at.senders_at) [
        | ok (some sender) ↦ elim (send sender (init_message session_id req) channels) [
          | some channels' ↦ (
            open_waiter session_id
                (after_session (open_session session_id matched_service.id (after_send t))),
            channels',
            switching lib req,
          )
          | none ↦ (t, channels, plain 502 (codes "Upstream init failed"))
        ]
        | _ ↦ (t, channels, plain 502 (codes "No upstream connection"))
      ]

  -- What follows the choice.
  unfoldable pub tunnel_to :
      TunnelReads S
      → Uuid
      → (Tunnels → Tunnels)
      → (Tunnels → Tunnels)
      → HttpRequest
      → Tunnels
      → Channels
      → HttpResponse ⊎ ServiceRegistration
      → Opened
  unfolding open_tunnel
  tunnel_to at session_id after_send after_session req t channels (inl refusal) =
      (t, channels, refusal)
  tunnel_to at session_id after_send after_session req t channels (inr matched_service) =
      open_tunnel at session_id after_send after_session req matched_service t channels

  unfoldable pub start_ws_tunnel_from_alb :
      Option Text
      → TunnelReads S
      → Uuid
      → (Tunnels → Tunnels)
      → (Tunnels → Tunnels)
      → HttpRequest
      → Tunnels
      → Channels
      → Opened
  start_ws_tunnel_from_alb setting at session_id after_send after_session req t channels =
      if not (ws_proxy_enabled setting)
      then (t, channels, plain 501 (codes "WebSocket proxying is disabled"))
      else if not (upgrade_is_ws req)
      then (t, channels, plain 400 (codes "WebSocket upgrade required"))
      else tunnel_to at session_id after_send after_session req t channels
          (choose_agent registry at (request_host req))
