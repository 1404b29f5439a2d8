-- ===== src/Client/Inward.antt =====
-- A load balancer's stream, all the way to the local service.
use anywhere_mesh.Base.{
  ℕ, Text, codes, get, insert, text_beq, get-insert_self, Option, none, some, true, List, [], ◌∷◌,
  nat_eq, ◌≡◌, refl, ap, sym, ◌∙◌,
}
use mathlib.Core.List.{append-nil}
use anywhere_mesh.Common.Types.{Uuid, IngressMessage}
use anywhere_mesh.Server.Channels.{Sender, Channel, Channels}
use anywhere_mesh.Server.Libraries.{Libraries}
use anywhere_mesh.Server.Tunnel.Relay.{
  AlbItem, text_item, binary_item, ping_item, pong_item, raw_item, broken_item, close_item,
}
use anywhere_mesh.Server.Tunnel.Frames.{extended, send_open, extended_twice}
use anywhere_mesh.Server.Tunnel.Outward.{until_closed, messages_of}
use anywhere_mesh.Client.Proxy.{ProxyHandler}
use anywhere_mesh.Client.Sessions.{
  OutboundToLocal, local_text, local_binary, local_ping, local_pong, local_close,
  WebSocketReverseProxy, Connect, send_local, local_frame_of, handle_data_from_server,
  handle_close_from_server,
}
use anywhere_mesh.Client.Agent.{handle_message_of_ingress}

-- What the local service gets for an item.
abbrev pub local_frames : List AlbItem → List OutboundToLocal
local_frames [] = []
local_frames (text_item s ∷ items) = local_text s ∷ local_frames items
local_frames (binary_item b ∷ items) = local_binary b ∷ local_frames items
local_frames (ping_item ∷ items) = local_ping ∷ local_frames items
local_frames (pong_item ∷ items) = local_pong ∷ local_frames items
local_frames (close_item reason ∷ items) = local_close none reason ∷ local_frames items
local_frames (raw_item ∷ items) = local_frames items
local_frames (broken_item ∷ items) = local_frames items

data_local :
    (lib : Libraries) (id : Uuid) (frame_type : Text) (payload : Option Text)
    (frame : OutboundToLocal) (p : WebSocketReverseProxy) (tx : Sender)
    (c : Channel OutboundToLocal)
    → local_frame_of lib frame_type payload ≡ some frame
    → get id p.sessions ≡ some tx
    → get tx p.frames ≡ some c
    → c.receiver_alive ≡ true
    → handle_data_from_server lib id frame_type payload p
      ≡ record p { frames = insert tx (extended c (frame ∷ [])) p.frames }
unfolding handle_data_from_server send_local
data_local lib id frame_type payload frame p tx c is_frame known found alive =
    rw (known, handle_data_from_server)
      (rw is_frame (rw (send_open tx frame p.frames c found alive, send_local)))

close_local :
    (id : Uuid) (reason : Option Text) (p : WebSocketReverseProxy) (tx : Sender)
    (c : Channel OutboundToLocal)
    → get id p.sessions ≡ some tx
    → get tx p.frames ≡ some c
    → c.receiver_alive ≡ true
    → get tx (handle_close_from_server id none reason p).frames
      ≡ some (extended c (local_close none reason ∷ []))
unfolding handle_close_from_server send_local
close_local id reason p tx c known found alive =
    rw (known, handle_close_from_server)
      (rw (send_open tx (local_close none reason) p.frames c found alive, send_local)
        (get-insert_self tx (extended c (local_close none reason ∷ [])) p.frames))

module _ (lib : Libraries) (handler : ProxyHandler) (connect : Connect) (proxy_tx : Sender) where
  -- The messages of the ingress, one after another.
  unfoldable pub take_messages :
      List IngressMessage → WebSocketReverseProxy → Channels → WebSocketReverseProxy
  take_messages [] p channels = p
  take_messages (m ∷ ms) p channels =
      let handled = handle_message_of_ingress lib handler connect proxy_tx m p channels in
      take_messages ms handled.0 handled.1

  module _ (id : Uuid) (tx : Sender) (channels : Channels)
      (decodes : (b : List ℕ) → lib.decode (lib.encode b) ≡ some b) where
    local_step :
        (frame_type : Text) (payload : Option Text) (frame : OutboundToLocal) (items : List AlbItem)
        (p : WebSocketReverseProxy) (c : Channel OutboundToLocal)
        → local_frame_of lib frame_type payload ≡ some frame
        → ((p' : WebSocketReverseProxy) (c' : Channel OutboundToLocal)
            → get id p'.sessions ≡ some tx
            → get tx p'.frames ≡ some c'
            → c'.receiver_alive ≡ true
            → get tx (take_messages (messages_of lib id (until_closed items)) p' channels).frames
              ≡ some (extended c' (local_frames (until_closed items))))
        → get id p.sessions ≡ some tx
        → get tx p.frames ≡ some c
        → c.receiver_alive ≡ true
        → get tx
            (take_messages
              (messages_of lib id (until_closed items))
              (handle_data_from_server lib id frame_type payload p)
              channels).frames
          ≡ some (extended c (frame ∷ local_frames (until_closed items)))
    local_step frame_type payload frame items p c is_frame later known found alive =
        rw (data_local lib id frame_type payload frame p tx c is_frame known found alive) (
          later (record p { frames = insert tx (extended c (frame ∷ [])) p.frames })
            (extended c (frame ∷ [])) known (get-insert_self tx (extended c (frame ∷ [])) p.frames)
            alive
          ∙ ap (λ d. some d) (extended_twice c frame (local_frames (until_closed items))))

    -- The messages that the ingress sends for a load balancer's stream reach the local service as the
    -- frames of the stream up to its end, in order and as they were, through an open session, if
    -- base64 decodes what it encoded.
    pub take_messages_lem :
        (items : List AlbItem) (p : WebSocketReverseProxy) (c : Channel OutboundToLocal)
        → get id p.sessions ≡ some tx
        → get tx p.frames ≡ some c
        → c.receiver_alive ≡ true
        → get tx (take_messages (messages_of lib id (until_closed items)) p channels).frames
          ≡ some (extended c (local_frames (until_closed items)))
    unfolding take_messages handle_message_of_ingress local_frame_of text_beq
    take_messages_lem [] p c known found alive =
        found ∙ ap (λ q. some (record c { queue = q })) (sym (append-nil c.queue))
    take_messages_lem (broken_item ∷ items) p c known found alive =
        found ∙ ap (λ q. some (record c { queue = q })) (sym (append-nil c.queue))
    take_messages_lem (raw_item ∷ items) p c known found alive =
        take_messages_lem items p c known found alive
    take_messages_lem (close_item reason ∷ items) p c known found alive =
        close_local id reason p tx c known found alive
    take_messages_lem (text_item s ∷ items) p c known found alive =
        local_step (codes "text") (some s) (local_text s) items p c refl (take_messages_lem items)
          known found alive
    take_messages_lem (binary_item b ∷ items) p c known found alive =
        local_step (codes "binary") (some (lib.encode b)) (local_binary b) items p c
          (rw (decodes b) refl) (take_messages_lem items) known found alive
    take_messages_lem (ping_item ∷ items) p c known found alive =
        local_step (codes "ping") none local_ping items p c refl (take_messages_lem items) known
          found alive
    take_messages_lem (pong_item ∷ items) p c known found alive =
        local_step (codes "pong") none local_pong items p c refl (take_messages_lem items) known
          found alive
