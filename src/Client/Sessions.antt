-- ===== src/Client/Sessions.antt =====
-- mesh/src/client/proxy/ws.rs: the agent's end of the tunnels.
use anywhere_mesh.Base.{
  ℕ, suc, ◌+◌, Text, codes, HashMap, get, insert, remove, find, starts_with, length, take, drop,
  trim_end, Option, none, some, true, false, List, [], ◌++◌, ◌==◌, nat_eq, text_eq, if◌then◌else◌,
}
use anywhere_mesh.Common.Types.{Uuid, web_socket_proxy_init_ack}
use anywhere_mesh.Server.Channels.{Sender, Channels, ChannelsOf, send}
use anywhere_mesh.Server.Libraries.{Libraries}
use anywhere_mesh.Server.Tunnel.Relay.{try_send}

pub data OutboundToLocal : Type 0 where
  local_text : Text → OutboundToLocal
  local_binary : List ℕ → OutboundToLocal
  local_ping local_pong : OutboundToLocal
  local_close : Option ℕ → Option Text → OutboundToLocal

-- The struct, with the runtime's channels of frames and the name of the next one.
pub record WebSocketReverseProxy : Type 0 where
  pub local_endpoint : Text
  pub sessions : HashMap Uuid Sender
  pub frames : ChannelsOf OutboundToLocal
  pub next_channel : Sender

-- s.replacen(old, new, 1)
unfoldable pub replace_first : Text → Text → Text → Text
replace_first s old new = elim (find s old) [
  | none ↦ s
  | some at ↦ take at s ++ (new ++ drop (at + length old) s)
]

unfoldable pub to_ws_url : WebSocketReverseProxy → Text → Text
to_ws_url p path =
    let local : Text = p.local_endpoint in
    let base : Text =
      if starts_with local (codes "https://")
      then replace_first local (codes "https://") (codes "wss://")
      else if starts_with local (codes "http://")
      then replace_first local (codes "http://") (codes "ws://")
      else local in
    trim_end b'/' base ++ path

-- What connecting to the local service comes to: none, or the text of an error.
abbrev pub Connect : Type 0
Connect = Text → Option Text

unfoldable pub store_session : Uuid → WebSocketReverseProxy → WebSocketReverseProxy
store_session session_id p = record p {
  sessions = insert session_id p.next_channel p.sessions;
  frames = insert p.next_channel (record { receiver_alive = true; queue = [] }) p.frames;
  next_channel = suc p.next_channel;
}

-- With the messages that go up to the ingress. The tasks of the session are in Client.Local.
unfoldable pub handle_init :
    Connect
    → Uuid
    → Text
    → Sender
    → WebSocketReverseProxy
    → Channels
    → WebSocketReverseProxy × Channels
unfolding store_session
handle_init connect session_id path upstream_tx p channels = elim (connect (to_ws_url p path)) [
  | none ↦ (
    store_session session_id p,
    try_send upstream_tx (web_socket_proxy_init_ack session_id true none none) channels,
  )
  | some e ↦
      (p, try_send upstream_tx (web_socket_proxy_init_ack session_id false (some e) none) channels)
]

-- let _ = tx.send(frame)
unfoldable pub send_local : Sender → OutboundToLocal → WebSocketReverseProxy → WebSocketReverseProxy
send_local tx frame p = elim (send tx frame p.frames) [
  | some frames' ↦ record p { frames = frames' }
  | none ↦ p
]

-- The frame for the local service that a message of the server stands for, if any.
unfoldable pub local_frame_of : Libraries → Text → Option Text → Option OutboundToLocal
local_frame_of lib frame_type payload =
    if frame_type == codes "text"
    then elim payload [ some text ↦ some (local_text text) | none ↦ none ]
    else if frame_type == codes "binary"
    then elim payload [
      | none ↦ none
      | some b64 ↦ elim (lib.decode b64) [ some bytes ↦ some (local_binary bytes) | none ↦ none ]
    ]
    else if frame_type == codes "ping"
    then some local_ping
    else if frame_type == codes "pong"
    then some local_pong
    else none

unfoldable pub handle_data_from_server :
    Libraries → Uuid → Text → Option Text → WebSocketReverseProxy → WebSocketReverseProxy
handle_data_from_server lib session_id frame_type payload p = elim (get session_id p.sessions) [
  | some tx ↦ elim (local_frame_of lib frame_type payload) [
    | some frame ↦ send_local tx frame p
    | none ↦ p
  ]
  | none ↦ p
]

unfoldable pub handle_close_from_server :
    Uuid → Option ℕ → Option Text → WebSocketReverseProxy → WebSocketReverseProxy
handle_close_from_server session_id code reason p = elim (get session_id p.sessions) [
  | some tx ↦
      send_local tx (local_close code reason) (record p { sessions = remove session_id p.sessions })
  | none ↦ p
]
