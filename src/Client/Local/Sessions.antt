-- ===== src/Client/Local/Sessions.antt =====
-- When the tasks of a session end.
use anywhere_mesh.Base.{
  Text, codes, Option-cases, HashMap, get, nat_eq, nat_beq, Option, none, some, true, false, ◌≡◌,
  refl, ◌∙◌, List, [], ◌∷◌, arith, inl, inr, Bool-cases, ==_refl,
}
use anywhere_mesh.Common.Types.{Uuid, IngressMessage}
use anywhere_mesh.Server.Channels.{Sender, Channel, Channels, queued, send}
use anywhere_mesh.Server.Libraries.{Libraries}
use anywhere_mesh.Server.Service.{intercept}
use anywhere_mesh.Server.Tunnel.{
  Tunnels, AlbOutboundFrame, frame_of, send_frame, handle_ws_proxy_data_from_agent,
}
use anywhere_mesh.Server.Tunnel.Relay.{
  AlbItem, text_item, binary_item, ping_item, pong_item, raw_item, broken_item, close_item,
}
use anywhere_mesh.Server.Tunnel.Outward.{until_closed, messages_of}
use anywhere_mesh.Client.Sessions.{WebSocketReverseProxy}
use anywhere_mesh.Client.Local.{has_sender, join_session, read_local}
use anywhere_mesh.Client.Local.Upward.{take_tunnelled, read_local_lem}

found-has_sender :
    (id : Uuid) (tx : Sender) (sessions : HashMap Uuid Sender)
    → get id sessions ≡ some tx
    → has_sender tx sessions ≡ true
unfolding get has_sender
found-has_sender id tx [] found = absurd (ground arith)
found-has_sender id tx ((j, other) ∷ sessions) found = elim (Bool-cases (nat_beq j id)) [
  | inl e ↦ let mine : other ≡ tx = ground arith in rw (mine, has_sender) (rw (==_refl tx) refl)
  | inr e ↦ ground (arith, found-has_sender id tx sessions)
]

join_session_waits :
    (id : Uuid) (tx : Sender) (p : WebSocketReverseProxy)
    → get id p.sessions ≡ some tx
    → join_session id tx true false p ≡ none
unfolding join_session
join_session_waits id tx p found = rw (found-has_sender id tx p.sessions found) refl

pub send_frame-sessions :
    (tx : Sender) (frame : AlbOutboundFrame) (t : Tunnels)
    → (send_frame tx frame t).ws_sessions ≡ t.ws_sessions
unfolding send_frame
send_frame-sessions tx frame t = elim (Option-cases (send tx frame t.frames)) [
  | inl e ↦ rw (e, send_frame) refl
  | inr (frames, e) ↦ rw (e, send_frame) refl
]

module _ (lib : Libraries) (id : Uuid) where
  pub data-sessions :
      (frame_type : Text) (payload : Option Text) (t : Tunnels)
      → (handle_ws_proxy_data_from_agent lib id frame_type payload t).ws_sessions ≡ t.ws_sessions
  unfolding handle_ws_proxy_data_from_agent
  data-sessions frame_type payload t = elim (Option-cases (get id t.ws_sessions)) [
    | inl e ↦ rw (e, handle_ws_proxy_data_from_agent) refl
    | inr (sess, e) ↦ elim (Option-cases (frame_of lib frame_type payload)) [
      | inl f ↦ rw (e, handle_ws_proxy_data_from_agent) (rw f refl)
      | inr (frame, f) ↦
          rw (e, handle_ws_proxy_data_from_agent)
            (rw f (send_frame-sessions sess.alb_out_tx frame t))
    ]
  ]

  -- A stream that breaks before a close frame.
  abbrev pub Breaks : List AlbItem → Type 0
  Breaks [] = ⊥
  Breaks (broken_item ∷ items) = Unit
  Breaks (close_item reason ∷ items) = ⊥
  Breaks (i ∷ items) = Breaks items

  broken-sessions :
      (items : List AlbItem) (t : Tunnels)
      → Breaks items
      → (take_tunnelled lib id (messages_of lib id (until_closed items)) t).ws_sessions
        ≡ t.ws_sessions
  unfolding take_tunnelled intercept
  broken-sessions [] t b = absurd b
  broken-sessions (broken_item ∷ items) t b = refl
  broken-sessions (close_item reason ∷ items) t b = absurd b
  broken-sessions (raw_item ∷ items) t b = broken-sessions items t b
  broken-sessions (text_item s ∷ items) t b =
      broken-sessions items _ b ∙ data-sessions (codes "text") (some s) t
  broken-sessions (binary_item bytes ∷ items) t b =
      broken-sessions items _ b ∙ data-sessions (codes "binary") (some (lib.encode bytes)) t
  broken-sessions (ping_item ∷ items) t b =
      broken-sessions items _ b ∙ data-sessions (codes "ping") none t
  broken-sessions (pong_item ∷ items) t b =
      broken-sessions items _ b ∙ data-sessions (codes "pong") none t

  -- If the local service's stream breaks before a close frame, then what the agent has handed over
  -- through an open and empty upward channel leaves every session of the ingress as it was, and
  -- while the agent's session is stored and its sink has not failed, its tasks do not end.
  pub read_local-Breaks :
      (up_tx tx : Sender) (items : List AlbItem) (channels : Channels) (up : Channel IngressMessage)
      (t : Tunnels) (p : WebSocketReverseProxy)
      → Breaks items
      → get up_tx channels ≡ some up
      → up.receiver_alive ≡ true
      → up.queue ≡ []
      → get id p.sessions ≡ some tx
      → ((take_tunnelled lib id
            (queued up_tx (read_local lib id up_tx items channels))
            t).ws_sessions
          ≡ t.ws_sessions)
        × (join_session id tx true false p ≡ none)
  unfolding queued
  read_local-Breaks up_tx tx items channels up t p breaks upward listens idle found = (
    rw (read_local_lem lib id up_tx items channels up upward listens, queued)
        (rw idle (broken-sessions items t breaks)),
    join_session_waits id tx p found,
  )
