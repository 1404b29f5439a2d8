-- ===== src/Server/Tunnel/Relay.antt =====
-- The tasks that carry the frames of an open tunnel.
use anywhere_mesh.Base.{ℕ, Text, codes, Option, none, some, Bool, List, [], ◌∷◌, if◌then◌else◌}
use anywhere_mesh.Common.Types.{Uuid, IngressMessage, web_socket_proxy_data, web_socket_proxy_close}
use anywhere_mesh.Server.Channels.{Sender, Channels, send}
use anywhere_mesh.Server.Libraries.{Libraries}
use anywhere_mesh.Server.Tunnel.{AlbOutboundFrame, text, binary, close}

-- What the load balancer's stream yields. A close frame has its reason, if any.
pub data AlbItem : Type 0 where
  text_item : Text → AlbItem
  binary_item : List ℕ → AlbItem
  ping_item pong_item raw_item broken_item : AlbItem
  close_item : Option Text → AlbItem

-- let _ = agent_sender_in.send(message)
unfoldable pub try_send : Sender → IngressMessage → Channels → Channels
try_send tx message channels = elim (send tx message channels) [
  | some channels' ↦ channels'
  | none ↦ channels
]

-- The loop of the task `alb_to_agent`.
unfoldable pub alb_to_agent : Libraries → Uuid → Sender → List AlbItem → Channels → Channels
alb_to_agent lib session_id tx [] channels = channels
alb_to_agent lib session_id tx (text_item payload ∷ items) channels =
    alb_to_agent lib session_id tx items
      (try_send tx (web_socket_proxy_data session_id (codes "text") (some payload)) channels)
alb_to_agent lib session_id tx (binary_item bytes ∷ items) channels =
    alb_to_agent lib session_id tx items (
      try_send tx (web_socket_proxy_data session_id (codes "binary") (some (lib.encode bytes)))
        channels)
alb_to_agent lib session_id tx (ping_item ∷ items) channels =
    alb_to_agent lib session_id tx items
      (try_send tx (web_socket_proxy_data session_id (codes "ping") none) channels)
alb_to_agent lib session_id tx (pong_item ∷ items) channels =
    alb_to_agent lib session_id tx items
      (try_send tx (web_socket_proxy_data session_id (codes "pong") none) channels)
alb_to_agent lib session_id tx (close_item reason ∷ items) channels =
    try_send tx (web_socket_proxy_close session_id none reason) channels
alb_to_agent lib session_id tx (raw_item ∷ items) channels =
    alb_to_agent lib session_id tx items channels
alb_to_agent lib session_id tx (broken_item ∷ items) channels = channels

-- A message of the WebSocket to the load balancer.
pub data WsMessage : Type 0 where
  text_message : Text → WsMessage
  binary_message : List ℕ → WsMessage
  close_message : WsMessage

unfoldable pub ws_message : AlbOutboundFrame → WsMessage
ws_message (text s) = text_message s
ws_message (binary b) = binary_message b
ws_message (close code reason) = close_message

-- The loop of the task `agent_to_alb`: each frame with whether the sink took it. The answer is what
-- the sink was handed.
unfoldable pub agent_to_alb : List (AlbOutboundFrame × Bool) → List WsMessage
agent_to_alb [] = []
agent_to_alb ((frame, taken) ∷ frames) =
    let rest = agent_to_alb frames in ws_message frame ∷ (if taken then rest else [])
