-- ===== src/Client/Local.antt =====
-- mesh/src/client/proxy/ws.rs: the two tasks of a session beside the local service, and their end.
pub mod Upward
pub mod Sessions
pub mod Ends
pub mod Closes
use anywhere_mesh.Base.{
  ℕ, Text, codes, HashMap, remove, nat_eq, Option, none, some, Bool, true, false, not, ◌&&◌, ◌||◌,
  List, [], ◌∷◌, nat_beq, if◌then◌else◌,
}
use anywhere_mesh.Common.Types.{Uuid, web_socket_proxy_data, web_socket_proxy_close}
use anywhere_mesh.Server.Channels.{Sender, Channels}
use anywhere_mesh.Server.Libraries.{Libraries}
use anywhere_mesh.Server.Tunnel.Relay.{
  AlbItem, text_item, binary_item, ping_item, pong_item, raw_item, broken_item, close_item,
  try_send,
}
use anywhere_mesh.Client.Sessions.{
  OutboundToLocal, local_text, local_binary, local_ping, local_pong, local_close,
  WebSocketReverseProxy,
}

-- A message of the WebSocket to the local service.
pub data LocalMessage : Type 0 where
  text_message : Text → LocalMessage
  binary_message : List ℕ → LocalMessage
  ping_message pong_message close_message : LocalMessage

unfoldable pub local_message : OutboundToLocal → LocalMessage
local_message (local_text s) = text_message s
local_message (local_binary b) = binary_message b
local_message local_ping = ping_message
local_message local_pong = pong_message
local_message (local_close code reason) = close_message

-- The loop of the task `writer`: each frame with whether the sink took it. The answer is what the
-- sink was handed.
unfoldable pub write_local : List (OutboundToLocal × Bool) → List LocalMessage
unfolding local_message
write_local [] = []
write_local ((frame, taken) ∷ frames) =
    let rest = write_local frames in local_message frame ∷ (if taken then rest else [])

-- The loop of the task `reader`. The local service's stream yields the items that a load balancer's
-- yields; a close frame has its reason, if there is a frame.
unfoldable pub read_local : Libraries → Uuid → Sender → List AlbItem → Channels → Channels
read_local lib session_id upstream_tx [] channels = channels
read_local lib session_id upstream_tx (text_item payload ∷ items) channels =
    read_local lib session_id upstream_tx items (
      try_send upstream_tx (web_socket_proxy_data session_id (codes "text") (some payload))
        channels)
read_local lib session_id upstream_tx (binary_item bytes ∷ items) channels =
    read_local lib session_id upstream_tx items (
      try_send upstream_tx
        (web_socket_proxy_data session_id (codes "binary") (some (lib.encode bytes))) channels)
read_local lib session_id upstream_tx (ping_item ∷ items) channels =
    read_local lib session_id upstream_tx items
      (try_send upstream_tx (web_socket_proxy_data session_id (codes "ping") none) channels)
read_local lib session_id upstream_tx (pong_item ∷ items) channels =
    read_local lib session_id upstream_tx items
      (try_send upstream_tx (web_socket_proxy_data session_id (codes "pong") none) channels)
read_local lib session_id upstream_tx (close_item reason ∷ items) channels =
    try_send upstream_tx (web_socket_proxy_close session_id none reason) channels
read_local lib session_id upstream_tx (raw_item ∷ items) channels =
    read_local lib session_id upstream_tx items channels
read_local lib session_id upstream_tx (broken_item ∷ items) channels = channels

-- Whether a session holds the sender of a channel.
unfoldable pub has_sender : Sender → HashMap Uuid Sender → Bool
has_sender tx [] = false
has_sender tx ((id, sender) ∷ sessions) =
    let rest = has_sender tx sessions in if nat_beq sender tx then true else rest

-- The task that joins both and then removes the session. The reader has ended if its stream has; the
-- writer ends when its sink has failed, or when no session holds its sender. None while it waits.
unfoldable pub join_session :
    Uuid → Sender → Bool → Bool → WebSocketReverseProxy → Option WebSocketReverseProxy
unfolding remove has_sender
join_session session_id to_local_tx reader_ended sink_failed p =
    if reader_ended && (sink_failed || not (has_sender to_local_tx p.sessions))
    then some (record p { sessions = remove session_id p.sessions })
    else none
