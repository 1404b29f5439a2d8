-- ===== src/Client/Opening.antt =====
-- The messages that open a tunnel: what the agent makes of the init message, and the ingress of its
-- acknowledgment.
pub mod Ends
use anywhere_mesh.Base.{
  ℕ, Text, get, insert, remove, values, text_beq, get-insert_self, get-remove_self, Option, none,
  some, Bool, true, false, List, [], ◌∷◌, nat_eq, ◌≡◌, refl, ap, sym, ◌∙◌,
}
use anywhere_mesh.Common.Types.{
  Uuid, SystemTime, ServiceRegistration, IngressMessage, web_socket_proxy_init_ack,
}
use anywhere_mesh.Common.Routing.{match_host_to_service}
use anywhere_mesh.Common.Routing.Health.{IsAlive}
use anywhere_mesh.Server.Channels.{Sender, Channel, ChannelsOf, Channels, IsIdle, queued}
use anywhere_mesh.Server.Libraries.{Libraries}
use anywhere_mesh.Server.Registry.{DefaultRegistry, default_registry}
use anywhere_mesh.Server.Http.{HttpRequest, request_host, request_path, upgrade_is_ws, switching}
use anywhere_mesh.Server.Service.{intercept}
use anywhere_mesh.Server.Tunnel.{
  Tunnels, WsSession, acked, unanswered, ws_proxy_enabled, open_session, open_waiter, clean_up,
  handle_ws_proxy_init_ack,
}
use anywhere_mesh.Server.Tunnel.Open.{Opened, init_message, start_ws_tunnel_from_alb}
use anywhere_mesh.Server.Tunnel.Frames.{extended, queued-extended}
use anywhere_mesh.Server.Tunnel.Handshake.{tunnel_reads, start_ws_tunnel_from_alb_opened}
use anywhere_mesh.Server.Tunnel.Outward.{try_send_open}
use anywhere_mesh.Server.Tunnel.Acks.{ack_of, first_ack}
use anywhere_mesh.Server.Tunnel.Relay.{AlbItem, try_send}
use anywhere_mesh.Server.Tunnel.Task.{run_tunnel, after_ack}
use anywhere_mesh.Client.Proxy.{ProxyHandler}
use anywhere_mesh.Client.Sessions.{
  WebSocketReverseProxy, Connect, to_ws_url, store_session, handle_init,
}
use anywhere_mesh.Client.Agent.{handle_message_of_ingress}
use anywhere_mesh.Client.Local.Upward.{take_tunnelled}

module _ (lib : Libraries) (handler : ProxyHandler) (connect : Connect) (up_tx : Sender) where
  -- The agent takes messages of the ingress, one after another.
  unfoldable pub take_each :
      List IngressMessage → WebSocketReverseProxy → Channels → WebSocketReverseProxy × Channels
  take_each [] p channels = (p, channels)
  take_each (m ∷ ms) p channels =
      let handled = handle_message_of_ingress lib handler connect up_tx m p channels in
      take_each ms handled.0 handled.1

  -- What the agent does with an init message that it can carry out.
  pub takes_init :
      (session_id : Uuid) (req : HttpRequest) (p : WebSocketReverseProxy) (channels : Channels)
      → connect (to_ws_url p (request_path req)) ≡ none
      → take_each (init_message session_id req ∷ []) p channels ≡ (
        store_session session_id p,
        try_send up_tx (web_socket_proxy_init_ack session_id true none none) channels,
      )
  unfolding take_each handle_message_of_ingress init_message handle_init
  takes_init session_id req p channels reached = rw (reached, handle_init)

  pub refuses_init :
      (session_id : Uuid) (req : HttpRequest) (p : WebSocketReverseProxy) (channels : Channels)
      (e : Text)
      → connect (to_ws_url p (request_path req)) ≡ some e
      → take_each (init_message session_id req ∷ []) p channels
        ≡ (p, try_send up_tx (web_socket_proxy_init_ack session_id false (some e) none) channels)
  unfolding take_each handle_message_of_ingress init_message handle_init
  refuses_init session_id req p channels e unreached = rw (unreached, handle_init)

-- The ingress takes the acknowledgment of a session whose waiter was stored last.
pub acknowledged :
    (lib : Libraries) (id : Uuid) (success : Bool) (message : Option Text) (t : Tunnels)
    → take_tunnelled lib id
        (web_socket_proxy_init_ack id success message none ∷ [])
        (open_waiter id t)
      ≡ record (open_waiter id t) {
        ws_init_waiters = remove id (open_waiter id t).ws_init_waiters;
        acks = insert t.next_ack (acked (ack_of id success message none)) (open_waiter id t).acks;
      }
unfolding take_tunnelled intercept open_waiter
acknowledged lib id success message t =
    first_ack id success message none t.next_ack (open_waiter id t)
      (get-insert_self id t.next_ack t.ws_init_waiters)
      (get-insert_self t.next_ack unanswered t.acks)

-- What other tasks have done meanwhile leaves a session and the channel of its frames as they were;
-- other tunnels may have come, gone and carried frames.
pub record Keeps (id : Uuid) (tx : Sender) (u u' : Tunnels) : Type 0 where
  pub session : get id u'.ws_sessions ≡ get id u.ws_sessions
  pub frames : get tx u'.frames ≡ get tx u.frames

-- What the ingress has for the session of an agent, whose frames wait in a channel, once it has taken
-- the acknowledgment of a waiter that was stored before.
abbrev pub IsConnected : Uuid → Uuid → Sender → Tunnels → Tunnels → Type 0
IsConnected id agent tx opened back =
    (get id back.ws_sessions ≡ some (record { agent_connection_id = agent; alb_out_tx = tx }))
    × IsIdle tx back.frames
    × ((h : ℕ) × (get id opened.ws_init_waiters ≡ some h)
        × (get h back.acks ≡ some (acked (ack_of id true none none))))
