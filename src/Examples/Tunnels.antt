-- ===== src/Examples/Tunnels.antt =====
-- A tunnel of one session.
use anywhere_mesh.Base.{
  codes, get, insert, none, some, true, List, [], ◌∷◌, ◌≡◌, ◌⊎◌, refl, nat_eq, text_eq, text_beq,
  lowercase, split_first,
}
use anywhere_mesh.Common.Routing.{match_host_to_service}
use anywhere_mesh.Server.Channels.{Channel}
use anywhere_mesh.Server.Registry.{default_registry}
use anywhere_mesh.Server.Http.{header_str, host_value, request_host, upgrade_is_ws}
use anywhere_mesh.Server.Tunnel.{
  Tunnels, WsSession, no_tunnels, open_session, open_waiter, unanswered, ws_proxy_enabled,
  handle_ws_proxy_init_ack,
}
use anywhere_mesh.Server.Tunnel.Open.{start_ws_tunnel_from_alb}
use anywhere_mesh.Server.Tunnel.Relay.{AlbItem, text_item, close_item, ping_item}
use anywhere_mesh.Server.Tunnel.Frames.{Frame, text_frame, binary_frame}
use anywhere_mesh.Server.Tunnel.Handshake.{tunnel_reads, start_ws_tunnel_from_alb_refuses}
use anywhere_mesh.Server.Tunnel.Acks.{start_ws_tunnel_from_alb_loses_early_ack}
use anywhere_mesh.Examples.{app, lib, one_agent, open_channels, upgrade_request}

abbrev pub opened : Tunnels
opened = open_waiter 50 (open_session 50 7 no_tunnels)

abbrev pub session : WsSession
session = record { agent_connection_id = 7; alb_out_tx = 0 }

abbrev pub idle : {M : Type 0} → Channel M
idle = record { receiver_alive = true; queue = [] }

pub has_session : get 50 opened.ws_sessions ≡ some session
unfolding open_waiter open_session no_tunnels get insert
has_session = refl

pub has_channel : get 0 opened.frames ≡ some idle
unfolding open_waiter open_session no_tunnels get insert
has_channel = refl

has_waiter : get 50 opened.ws_init_waiters ≡ some 0
unfolding open_waiter open_session no_tunnels get insert
has_waiter = refl

waits : get 0 opened.acks ≡ some unanswered
unfolding open_waiter open_session no_tunnels get insert
waits = refl

abbrev frames : List Frame
frames = text_frame (codes "a") ∷ binary_frame (1 ∷ 2 ∷ []) ∷ []

abbrev pub items : List AlbItem
items = text_item (codes "a") ∷ ping_item ∷ close_item none ∷ text_item (codes "b") ∷ []

pub agent_channel : get 1 open_channels ≡ some idle
unfolding get
agent_channel = refl

start_ws_tunnel_from_alb_refuses_example :
    let out =
      start_ws_tunnel_from_alb lib default_registry
        (some (codes "false"))
        (tunnel_reads one_agent 12)
        50
        (λ t. t)
        (λ t. t)
        upgrade_request
        no_tunnels
        open_channels in
    (out.2.status ≡ 101) ⊎ ((out.0 ≡ no_tunnels) × (out.1 ≡ open_channels))
start_ws_tunnel_from_alb_refuses_example =
    start_ws_tunnel_from_alb_refuses lib default_registry (tunnel_reads one_agent 12) 50 (λ t. t)
      (λ t. t) upgrade_request no_tunnels open_channels (some (codes "false"))

pub enabled : ws_proxy_enabled none ≡ true
unfolding ws_proxy_enabled
enabled = refl

pub is_upgrade : upgrade_is_ws upgrade_request ≡ true
unfolding upgrade_is_ws header_str get text_beq lowercase
is_upgrade = refl

pub finds_app : match_host_to_service (request_host upgrade_request) (app ∷ []) ≡ some app
unfolding match_host_to_service request_host host_value header_str get text_beq split_first
finds_app = refl

pub known_sender : get 7 one_agent.connection_senders ≡ some 1
unfolding get
known_sender = refl

no_waiter_yet : get 50 no_tunnels.ws_init_waiters ≡ none
unfolding no_tunnels get
no_waiter_yet = refl

start_ws_tunnel_from_alb_loses_early_ack_example :
    start_ws_tunnel_from_alb lib default_registry none
      (tunnel_reads one_agent 12)
      50
      (handle_ws_proxy_init_ack 50 true none none)
      (λ t. t)
      upgrade_request
      no_tunnels
      open_channels
    ≡ start_ws_tunnel_from_alb lib default_registry none
        (tunnel_reads one_agent 12)
        50
        (λ u. u)
        (λ t. t)
        upgrade_request
        no_tunnels
        open_channels
start_ws_tunnel_from_alb_loses_early_ack_example =
    start_ws_tunnel_from_alb_loses_early_ack 50 true none none lib default_registry
      (tunnel_reads one_agent 12) (λ t. t) upgrade_request no_tunnels open_channels none
      no_waiter_yet
