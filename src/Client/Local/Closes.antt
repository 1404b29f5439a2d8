-- ===== src/Client/Local/Closes.antt =====
-- When the task of a tunnel ends, by the streams of the local service and of the load balancer.
use anywhere_mesh.Base.{
  not, ◌&&◌, if◌then◌else◌, ◌||◌, Text, codes, HashMap, get, remove, get-remove_self, nat_eq,
  nat_beq, Option, none, some, Bool, true, false, ◌≡◌, ◌≢◌, refl, ap, ◌∙◌, List, [], ◌∷◌, All,
  arith, inl, inr, Bool-cases,
}
use anywhere_mesh.Common.Types.{Uuid, web_socket_proxy_close}
use anywhere_mesh.Server.Channels.{Sender, Channels, IsIdle, queued}
use anywhere_mesh.Server.Libraries.{Libraries}
use anywhere_mesh.Server.Service.{intercept}
use anywhere_mesh.Server.Tunnel.{
  Tunnels, WsSession, WsInitAck, acked, close, clean_up, handle_ws_proxy_close_from_agent,
  handle_ws_proxy_data_from_agent,
}
use anywhere_mesh.Server.Tunnel.Frames.{queued-extended}
use anywhere_mesh.Server.Tunnel.Relay.{
  AlbItem, text_item, binary_item, ping_item, pong_item, raw_item, broken_item, close_item,
  try_send, alb_to_agent,
}
use anywhere_mesh.Server.Tunnel.Outward.{until_closed, messages_of}
use anywhere_mesh.Server.Tunnel.Task.{
  TunnelTask, AlbStream, relay_is_over, is_held, held, join_relays, after_ack, run_tunnel,
}
use anywhere_mesh.Client.Local.{read_local}
use anywhere_mesh.Client.Local.Upward.{take_tunnelled, read_local_lem}
use anywhere_mesh.Client.Local.Sessions.{data-sessions, send_frame-sessions}

-- Whether a stream yields a close frame before it breaks.
abbrev pub closes : List AlbItem → Bool
closes [] = false
closes (broken_item ∷ items) = false
closes (close_item reason ∷ items) = true
closes (i ∷ items) = closes items

-- No other session has the channel.
abbrev pub IsOwn : Uuid → Sender → HashMap Uuid WsSession → Type 0
IsOwn id tx = All (λ (k, sess). k ≢ id → sess.alb_out_tx ≢ tx)

IsOwn-is_held :
    (id : Uuid) (tx : Sender) (sessions : HashMap Uuid WsSession)
    → IsOwn id tx sessions
    → is_held tx (remove id sessions) ≡ false
unfolding is_held remove
IsOwn-is_held id tx [] own = refl
IsOwn-is_held id tx ((k, sess) ∷ sessions) (other, own) = elim (Bool-cases (nat_beq k id)) [
  | inl e ↦ rw (e, remove) (IsOwn-is_held id tx sessions own)
  | inr e ↦
      let apart : sess.alb_out_tx ≢ tx = other (ground arith) in
      rw (e, remove) (ground (arith, apart, IsOwn-is_held id tx sessions own))
]

module _ (lib : Libraries) (id : Uuid) where
  close-sessions :
      (reason : Option Text) (t : Tunnels) (sess : WsSession)
      → get id t.ws_sessions ≡ some sess
      → (handle_ws_proxy_close_from_agent id none reason t).ws_sessions ≡ remove id t.ws_sessions
  unfolding handle_ws_proxy_close_from_agent
  close-sessions reason t sess known =
      rw (known, handle_ws_proxy_close_from_agent)
        (send_frame-sessions sess.alb_out_tx (close none reason)
          (record t { ws_sessions = remove id t.ws_sessions }))

  -- The sessions that are left when a stream has been handed over.
  abbrev left_by : List AlbItem → HashMap Uuid WsSession → HashMap Uuid WsSession
  left_by items sessions = if closes items then remove id sessions else sessions

  -- What is to be shown of the items that are left.
  abbrev Leaves : List AlbItem → Type 0
  Leaves items =
      (t : Tunnels) (sess : WsSession)
      → get id t.ws_sessions ≡ some sess
      → (take_tunnelled lib id (messages_of lib id (until_closed items)) t).ws_sessions
        ≡ left_by items t.ws_sessions

  behind_data :
      (frame_type : Text) (payload : Option Text) (items : List AlbItem)
      → Leaves items
      → (t : Tunnels) (sess : WsSession) → get id t.ws_sessions ≡ some sess
      → (take_tunnelled lib id
          (messages_of lib id (until_closed items))
          (handle_ws_proxy_data_from_agent lib id frame_type payload t)).ws_sessions
        ≡ left_by items t.ws_sessions
  behind_data frame_type payload items later t sess known =
      let same = data-sessions lib id frame_type payload t in
      later (handle_ws_proxy_data_from_agent lib id frame_type payload t) sess (rw same known)
      ∙ ap (left_by items) same

  taken_stream-sessions : (items : List AlbItem) → Leaves items
  unfolding take_tunnelled intercept
  taken_stream-sessions [] t sess known = refl
  taken_stream-sessions (broken_item ∷ items) t sess known = refl
  taken_stream-sessions (close_item reason ∷ items) t sess known =
      close-sessions reason t sess known
  taken_stream-sessions (raw_item ∷ items) t sess known = taken_stream-sessions items t sess known
  taken_stream-sessions (text_item s ∷ items) t sess known =
      behind_data (codes "text") (some s) items (taken_stream-sessions items) t sess known
  taken_stream-sessions (binary_item b ∷ items) t sess known =
      behind_data (codes "binary") (some (lib.encode b)) items (taken_stream-sessions items) t sess
        known
  taken_stream-sessions (ping_item ∷ items) t sess known =
      behind_data (codes "ping") none items (taken_stream-sessions items) t sess known
  taken_stream-sessions (pong_item ∷ items) t sess known =
      behind_data (codes "pong") none items (taken_stream-sessions items) t sess known

  -- The only holder of a channel lets go of it exactly if the stream closes.
  left_by-is_held :
      (tx : Sender) (items : List AlbItem) (sessions : HashMap Uuid WsSession) (sess : WsSession)
      → get id sessions ≡ some sess
      → sess.alb_out_tx ≡ tx
      → IsOwn id tx sessions
      → is_held tx (left_by items sessions) ≡ not (closes items)
  left_by-is_held tx items sessions sess found mine own = elim (Bool-cases (closes items)) [
    | inl e ↦ rw e (IsOwn-is_held id tx sessions own)
    | inr e ↦ rw e (held id sess tx sessions found mine)
  ]

-- What the agent's channel is handed by a task that ends behind its relays: what the load balancer's
-- stream yields, and a close.
abbrev pub told_agent : Libraries → TunnelTask → List AlbItem → Channels → Channels
told_agent lib task items channels =
    try_send task.agent_sender
      (web_socket_proxy_close task.session_id none (some (codes "alb connection closed")))
      (alb_to_agent lib task.session_id task.agent_sender items channels)

module _ (lib : Libraries) (task : TunnelTask) (up_tx : Sender) (from_local : List AlbItem)
    (from_agent : Channels) where
  -- What the ingress makes of what the agent hands over of the local service's stream.
  abbrev pub taken : Tunnels → Tunnels
  taken =
      take_tunnelled lib task.session_id
        (queued up_tx (read_local lib task.session_id up_tx from_local from_agent))

  taken-sessions :
      (t : Tunnels) (sess : WsSession)
      → IsIdle up_tx from_agent
      → get task.session_id t.ws_sessions ≡ some sess
      → (taken t).ws_sessions ≡ left_by lib task.session_id from_local t.ws_sessions
  taken-sessions t sess up known =
      rw
        (queued-extended up_tx (read_local lib task.session_id up_tx from_local from_agent)
          up.channel (messages_of lib task.session_id (until_closed from_local))
          (read_local_lem lib task.session_id up_tx from_local from_agent up.channel up.found
            up.alive)
          up.empty)
        (taken_stream-sessions lib task.session_id from_local t sess known)

  -- The task of an acknowledged tunnel, whose upgrade succeeded and whose channel no other session
  -- has, ends once the ingress has taken what the agent hands over of the local service's stream
  -- through an idle channel, exactly if the relay to the agent is over, by the end, an error or a
  -- close frame of the load balancer's stream, and besides the load balancer's sink has failed or
  -- the local stream yields a close frame before it breaks. Neither the session nor its waiter is
  -- left then, and the agent's channel is handed all that the load balancer sent and a close.
  pub run_tunnel_ends :
      (before_ack : Tunnels → Tunnels) (stream : AlbStream) (sink_failed : Bool) (t : Tunnels)
      (channels : Channels) (ack : WsInitAck) (sess : WsSession)
      → IsIdle up_tx from_agent
      → get task.ack_rx (before_ack t).acks ≡ some (acked ack)
      → ack.success ≡ true
      → get task.session_id (before_ack t).ws_sessions ≡ some sess
      → sess.alb_out_tx ≡ task.to_alb_rx
      → IsOwn task.session_id task.to_alb_rx (before_ack t).ws_sessions
      → (ended : Tunnels) × (run_tunnel lib task true before_ack taken stream sink_failed t channels
          ≡ (if relay_is_over stream && (sink_failed || closes from_local)
              then some (ended, told_agent lib task stream.items channels)
              else none))
        × (get task.session_id ended.ws_sessions ≡ none)
        × (get task.session_id ended.ws_init_waiters ≡ none)
  unfolding run_tunnel after_ack join_relays clean_up
  run_tunnel_ends before_ack stream sink_failed t channels ack sess up told success known mine own =
      let holds : is_held task.to_alb_rx (taken (before_ack t)).ws_sessions
          ≡ not (closes from_local) =
        rw (taken-sessions (before_ack t) sess up known) (
          left_by-is_held lib task.session_id task.to_alb_rx from_local (before_ack t).ws_sessions
            sess known mine own) in
      (
        clean_up task.session_id (taken (before_ack t)),
        rw (told, run_tunnel) (rw (success, after_ack) (rw (holds, join_relays) (ground arith))),
        get-remove_self task.session_id (taken (before_ack t)).ws_sessions,
        get-remove_self task.session_id (taken (before_ack t)).ws_init_waiters,
      )
