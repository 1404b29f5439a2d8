-- ===== src/Server/Tunnel.antt =====
-- mesh/src/server/ws_proxy.rs: tunnels that carry a client's WebSocket through an agent's connection.
pub mod Open
pub mod Relay
pub mod Frames
pub mod Outward
pub mod Handshake
pub mod Acks
pub mod Task
use anywhere_mesh.Base.{
  ℕ, suc, Text, codes, HashMap, get, insert, remove, values, split, trim, lowercase, map, Option,
  none, some, Bool, true, false, not, ◌⊎◌, inl, inr, ◌&&◌, List, [], ◌∷◌, ◌++◌, ◌==◌, nat_eq,
  text_eq, if◌then◌else◌,
}
use anywhere_mesh.Common.Types.{
  Uuid, SystemTime, TextMap, ServiceRegistration, IngressMessage, web_socket_proxy_init,
  web_socket_proxy_data, web_socket_proxy_close,
}
use anywhere_mesh.Common.Routing.{match_host_to_service, select_healthy_instance}
use anywhere_mesh.Server.Error.{IngressResult, ok, err}
use anywhere_mesh.Server.Channels.{Sender, Channels, ChannelsOf, send}
use anywhere_mesh.Server.Libraries.{Libraries}
use anywhere_mesh.Server.Registry.{Registry}
use anywhere_mesh.Server.Http.{
  HttpRequest, HttpResponse, plain, header_str, upgrade_is_ws, request_host, request_path,
  switching,
}

pub record WsInitAck : Type 0 where
  pub success : Bool
  pub message : Option Text
  pub response_headers : Option TextMap

pub record WsSession : Type 0 where
  pub agent_connection_id : Uuid
  pub alb_out_tx : Sender

pub data AlbOutboundFrame : Type 0 where
  text : Text → AlbOutboundFrame
  binary : List ℕ → AlbOutboundFrame
  close : Option ℕ → Option Text → AlbOutboundFrame

-- The `oneshot` channel of a waiter.
pub data AckChannel : Type 0 where
  unanswered : AckChannel
  acked : WsInitAck → AckChannel

-- The two maps of the service that the tunnels use, with the runtime's channels and the names of
-- the next ones.
pub record Tunnels : Type 0 where
  pub ws_sessions : HashMap Uuid WsSession
  pub ws_init_waiters : HashMap Uuid ℕ
  pub acks : HashMap ℕ AckChannel
  pub next_ack : ℕ
  pub frames : ChannelsOf AlbOutboundFrame
  pub next_channel : Sender

unfoldable pub no_tunnels : Tunnels
no_tunnels = record {
  ws_sessions = [];
  ws_init_waiters = [];
  acks = [];
  next_ack = 0;
  frames = [];
  next_channel = 0;
}

-- The value of ENABLE_ALB_WS_PROXY decides.
unfoldable pub ws_proxy_enabled : Option Text → Bool
ws_proxy_enabled none = true
ws_proxy_enabled (some s) = not (lowercase s == codes "false") && not (s == codes "0")

-- tx.send(ack)
unfoldable pub deliver_ack : ℕ → WsInitAck → Tunnels → Tunnels
deliver_ack h ack t = elim (get h t.acks) [
  | some unanswered ↦ record t { acks = insert h (acked ack) t.acks }
  | _ ↦ t
]

unfoldable pub handle_ws_proxy_init_ack :
    Uuid → Bool → Option Text → Option TextMap → Tunnels → Tunnels
handle_ws_proxy_init_ack session_id success message response_headers t =
    elim (get session_id t.ws_init_waiters) [
      | some h ↦
          deliver_ack h
            (record { success = success; message = message; response_headers = response_headers })
            (record t { ws_init_waiters = remove session_id t.ws_init_waiters })
      | none ↦ t
    ]

-- let _ = sess.alb_out_tx.send(frame)
unfoldable pub send_frame : Sender → AlbOutboundFrame → Tunnels → Tunnels
send_frame tx frame t = elim (send tx frame t.frames) [
  | some frames' ↦ record t { frames = frames' }
  | none ↦ t
]

-- The frame that a payload of the agent stands for, if any.
unfoldable pub frame_of : Libraries → Text → Option Text → Option AlbOutboundFrame
frame_of lib frame_type none = none
frame_of lib frame_type (some payload) =
    if frame_type == codes "text"
    then some (text payload)
    else if frame_type == codes "binary"
    then elim (lib.decode payload) [ some bytes ↦ some (binary bytes) | none ↦ none ]
    else none

unfoldable pub handle_ws_proxy_data_from_agent :
    Libraries → Uuid → Text → Option Text → Tunnels → Tunnels
handle_ws_proxy_data_from_agent lib session_id frame_type payload t =
    elim (get session_id t.ws_sessions) [
      | some sess ↦ elim (frame_of lib frame_type payload) [
        | some frame ↦ send_frame sess.alb_out_tx frame t
        | none ↦ t
      ]
      | none ↦ t
    ]

unfoldable pub handle_ws_proxy_close_from_agent : Uuid → Option ℕ → Option Text → Tunnels → Tunnels
handle_ws_proxy_close_from_agent session_id code reason t = elim (get session_id t.ws_sessions) [
  | some sess ↦
      send_frame sess.alb_out_tx (close code reason)
        (record t { ws_sessions = remove session_id t.ws_sessions })
  | none ↦ t
]

-- The section that stores the session, with a new channel of frames.
unfoldable pub open_session : Uuid → Uuid → Tunnels → Tunnels
open_session session_id agent t = record t {
  ws_sessions =
      insert session_id (record { agent_connection_id = agent; alb_out_tx = t.next_channel })
        t.ws_sessions;
  frames = insert t.next_channel (record { receiver_alive = true; queue = [] }) t.frames;
  next_channel = suc t.next_channel;
}

-- The section that stores the waiter of the acknowledgment.
unfoldable pub open_waiter : Uuid → Tunnels → Tunnels
open_waiter session_id t = record t {
  ws_init_waiters = insert session_id t.next_ack t.ws_init_waiters;
  acks = insert t.next_ack unanswered t.acks;
  next_ack = suc t.next_ack;
}

-- The end of an upgraded tunnel takes away what is still there of it.
unfoldable pub clean_up : Uuid → Tunnels → Tunnels
clean_up session_id t = record t {
  ws_init_waiters = remove session_id t.ws_init_waiters;
  ws_sessions = remove session_id t.ws_sessions;
}
