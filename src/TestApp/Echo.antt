-- ===== src/TestApp/Echo.antt =====
-- The sample service at the far end of a tunnel: a load balancer's stream goes through ingress and
-- agent to test-app/src/main.rs, and its answers come back the same way.
use anywhere_mesh.Base.{
  ℕ, suc, get, some, Bool, true, List, [], ◌∷◌, map, nat_eq, ◌≡◌, refl, ap, ◌∙◌,
}
use anywhere_mesh.Common.Types.{Uuid, SystemTime}
use anywhere_mesh.Server.Channels.{Sender, Channel, Channels, IsIdle, queued}
use anywhere_mesh.Server.Libraries.{Libraries}
use anywhere_mesh.Server.Tunnel.{Tunnels, WsSession, AlbOutboundFrame, text, binary}
use anywhere_mesh.Server.Tunnel.Relay.{
  AlbItem, text_item, binary_item, ping_item, pong_item, raw_item, broken_item, close_item,
  alb_to_agent,
}
use anywhere_mesh.Server.Tunnel.Frames.{extended, queued-extended}
use anywhere_mesh.Server.Tunnel.Outward.{until_closed, messages_of, alb_to_agent_lem}
use anywhere_mesh.Client.Proxy.{ProxyHandler}
use anywhere_mesh.Client.Sessions.{OutboundToLocal, WebSocketReverseProxy, Connect}
use anywhere_mesh.Client.Inward.{local_frames, take_messages, take_messages_lem}
use anywhere_mesh.Client.Local.{
  LocalMessage, text_message, binary_message, ping_message, pong_message, close_message,
  local_message, write_local, read_local,
}
use anywhere_mesh.Client.Local.Upward.{alb_frames, take_tunnelled, read_local_reaches_alb}
use anywhere_mesh.TestApp.{Host}
use anywhere_mesh.TestApp.Socket.{
  Received, Sent, sent_text, sent_binary, sent_pong, welcome_msg, echo_response, receive_loop,
  handle_websocket,
}
use anywhere_mesh.TestApp.Socket

-- What the app receives of a message of the agent, and what the agent reads of one of the app. The
-- agent sends pings and pongs without a payload.
abbrev pub received_of : LocalMessage → Received
received_of (text_message s) = Socket.text s
received_of (binary_message b) = Socket.binary b
received_of ping_message = Socket.ping []
received_of pong_message = Socket.pong []
received_of close_message = Socket.close

abbrev pub item_of : Sent → AlbItem
item_of (sent_text s) = text_item s
item_of (sent_binary b) = binary_item b
item_of (sent_pong b) = pong_item

-- The loop of the agent's writer while the socket takes every message.
abbrev pub all_taken : List OutboundToLocal → List (OutboundToLocal × Bool)
all_taken [] = []
all_taken (f ∷ fs) = (f, true) ∷ all_taken fs

-- What the app receives when the agent is handed these frames for it.
abbrev pub received_all : List OutboundToLocal → List Received
received_all fs = map received_of (write_local (all_taken fs))

module _ (host : Host) (clock : ℕ → SystemTime) where
  -- The answers to a load balancer's stream whose next message that arrives is the n-th: an echo for
  -- a text, the bytes themselves for bytes, and nothing else up to the end of the stream.
  abbrev pub echoes : ℕ → List AlbItem → List AlbOutboundFrame
  echoes n [] = []
  echoes n (text_item s ∷ items) = text (echo_response host (clock n) s) ∷ echoes (suc n) items
  echoes n (binary_item b ∷ items) = binary b ∷ echoes (suc n) items
  echoes n (ping_item ∷ items) = echoes (suc n) items
  echoes n (pong_item ∷ items) = echoes (suc n) items
  echoes n (raw_item ∷ items) = echoes n items
  echoes n (broken_item ∷ items) = []
  echoes n (close_item reason ∷ items) = []

  abbrev loop : ℕ → List AlbItem → List Sent
  loop n items =
      receive_loop host clock (λ k. true) n (received_all (local_frames (until_closed items)))

  loop-echoes :
      (n : ℕ) (items : List AlbItem)
      → alb_frames (until_closed (map item_of (loop n items))) ≡ echoes n items
  unfolding receive_loop write_local local_message
  loop-echoes n [] = refl
  loop-echoes n (text_item s ∷ items) =
      ap (λ fs. text (echo_response host (clock n) s) ∷ fs) (loop-echoes (suc n) items)
  loop-echoes n (binary_item b ∷ items) = ap (λ fs. binary b ∷ fs) (loop-echoes (suc n) items)
  loop-echoes n (ping_item ∷ items) = loop-echoes (suc n) items
  loop-echoes n (pong_item ∷ items) = loop-echoes (suc n) items
  loop-echoes n (raw_item ∷ items) = loop-echoes n items
  loop-echoes n (broken_item ∷ items) = refl
  loop-echoes n (close_item reason ∷ items) = refl

-- What the load balancer's session holds then: through the agent's reader, its channel to the
-- ingress, and the ingress.
unfoldable pub comes_back : Libraries → Uuid → Sender → List Sent → Channels → Tunnels → Tunnels
comes_back lib id up_tx answers from_agent t =
    take_tunnelled lib id (queued up_tx (read_local lib id up_tx (map item_of answers) from_agent))
      t

module _ (lib : Libraries) (handler : ProxyHandler) (connect : Connect) (host : Host)
    (clock : ℕ → SystemTime) (id : Uuid) (agent_tx up_tx tx : Sender) where
  -- What the app sends on the session when the load balancer's stream yields the items: through the
  -- relay of the ingress, the agent's messages, its writer and the loop of the app, whose socket
  -- takes every message.
  unfoldable pub app_sends : List AlbItem → Channels → Channels → WebSocketReverseProxy → List Sent
  app_sends items to_agent from_agent p =
      let messages = queued agent_tx (alb_to_agent lib id agent_tx items to_agent) in
      let after = take_messages lib handler connect up_tx messages p from_agent in
      handle_websocket host clock (λ n. true) (received_all (queued tx after.frames))

  module _ (sess : WsSession) (decodes : (b : List ℕ) → lib.decode (lib.encode b) ≡ some b) where
    app_sends-echoes :
        (items : List AlbItem) (to_agent from_agent : Channels) (p : WebSocketReverseProxy)
        → IsIdle agent_tx to_agent
        → get id p.sessions ≡ some tx
        → IsIdle tx p.frames
        → alb_frames (until_closed (map item_of (app_sends items to_agent from_agent p)))
          ≡ text (welcome_msg host (clock 0)) ∷ echoes host clock 1 items
    unfolding app_sends handle_websocket
    app_sends-echoes items to_agent from_agent p down known inward =
        rw
          (queued-extended agent_tx (alb_to_agent lib id agent_tx items to_agent) down.channel
            (messages_of lib id (until_closed items))
            (alb_to_agent_lem lib id agent_tx items to_agent down.channel down.found down.alive)
            down.empty)
          (rw
            (queued-extended tx
              (take_messages lib handler connect up_tx (messages_of lib id (until_closed items)) p
                from_agent).frames
              inward.channel (local_frames (until_closed items))
              (take_messages_lem lib handler connect up_tx id tx from_agent decodes items p
                inward.channel known inward.found inward.alive)
              inward.empty)
            (ap (λ fs. text (welcome_msg host (clock 0)) ∷ fs) (loop-echoes host clock 1 items)))

    -- A load balancer's stream through an open tunnel, whose channels are idle and whose messages the
    -- app's socket takes, is answered by the sample service behind the agent: the load balancer's
    -- session gets the welcome, and then for each text its echo and for each binary message the
    -- same bytes, in the order of the stream and up to its end, if base64 decodes what it encoded.
    pub echo_through_mesh :
        (items : List AlbItem) (to_agent from_agent : Channels) (p : WebSocketReverseProxy)
        (t : Tunnels) (c : Channel AlbOutboundFrame)
        → IsIdle agent_tx to_agent
        → get id p.sessions ≡ some tx
        → IsIdle tx p.frames
        → IsIdle up_tx from_agent
        → get id t.ws_sessions ≡ some sess
        → get sess.alb_out_tx t.frames ≡ some c
        → c.receiver_alive ≡ true
        → get sess.alb_out_tx
            (comes_back lib id up_tx (app_sends items to_agent from_agent p) from_agent t).frames
          ≡ some (extended c (text (welcome_msg host (clock 0)) ∷ echoes host clock 1 items))
    unfolding comes_back
    echo_through_mesh items to_agent from_agent p t c down known inward up has_session found alive =
        (read_local_reaches_alb lib id sess decodes up_tx
          (map item_of (app_sends items to_agent from_agent p)) from_agent up.channel t c up.found
          up.alive up.empty has_session found alive).0
        ∙ ap (λ fs. some (extended c fs))
            (app_sends-echoes items to_agent from_agent p down known inward)
