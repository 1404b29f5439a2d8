-- ===== src/Client/Local/Upward.antt =====
-- A local service's stream, all the way to the load balancer's sink.
use anywhere_mesh.Base.{
  ℕ, Text, codes, get, insert, text_beq, get-insert_self, none, some, Bool, true, ◌++◌, List, [],
  ◌∷◌, nat_eq, ◌≡◌, refl, ap, sym, ◌∙◌,
}
use mathlib.Core.List.{append-nil}
use anywhere_mesh.Common.Types.{Uuid, IngressMessage}
use anywhere_mesh.Server.Channels.{Sender, Channel, ChannelsOf, Channels, queued}
use anywhere_mesh.Server.Libraries.{Libraries}
use anywhere_mesh.Server.Service.{intercept}
use anywhere_mesh.Server.Tunnel.{
  Tunnels, WsSession, AlbOutboundFrame, text, binary, close, frame_of,
  handle_ws_proxy_data_from_agent,
}
use anywhere_mesh.Server.Tunnel.Relay.{
  AlbItem, text_item, binary_item, ping_item, pong_item, raw_item, broken_item, close_item,
  WsMessage, text_message, binary_message, close_message, ws_message, agent_to_alb,
}
use anywhere_mesh.Server.Tunnel.Frames.{
  extended, extended_twice, data_frame, handle_ws_proxy_close_from_agent_lem,
}
use anywhere_mesh.Server.Tunnel.Outward.{until_closed, messages_of, relay_one}
use anywhere_mesh.Client.Local.{read_local}

-- What the load balancer is told of an item: pings and pongs do not cross.
abbrev pub alb_frames : List AlbItem → List AlbOutboundFrame
alb_frames [] = []
alb_frames (text_item s ∷ items) = text s ∷ alb_frames items
alb_frames (binary_item b ∷ items) = binary b ∷ alb_frames items
alb_frames (close_item reason ∷ items) = close none reason ∷ alb_frames items
alb_frames (_ ∷ items) = alb_frames items

-- What the load balancer's sink is handed for an item.
abbrev pub alb_messages : List AlbItem → List WsMessage
alb_messages [] = []
alb_messages (text_item s ∷ items) = text_message s ∷ alb_messages items
alb_messages (binary_item b ∷ items) = binary_message b ∷ alb_messages items
alb_messages (close_item reason ∷ items) = close_message ∷ alb_messages items
alb_messages (_ ∷ items) = alb_messages items

-- A sink that takes every frame.
abbrev pub all_taken : List AlbOutboundFrame → List (AlbOutboundFrame × Bool)
all_taken [] = []
all_taken (frame ∷ frames) = (frame, true) ∷ all_taken frames

agent_to_alb-append :
    (fs gs : List AlbOutboundFrame)
    → agent_to_alb (all_taken (fs ++ gs))
      ≡ agent_to_alb (all_taken fs) ++ agent_to_alb (all_taken gs)
unfolding agent_to_alb
agent_to_alb-append [] gs = refl
agent_to_alb-append (f ∷ fs) gs = ap (λ l. ws_message f ∷ l) (agent_to_alb-append fs gs)

queued-found :
    (tx : Sender) (frames : ChannelsOf AlbOutboundFrame) (c : Channel AlbOutboundFrame)
    → get tx frames ≡ some c
    → queued tx frames ≡ c.queue
unfolding queued
queued-found tx frames c found = rw (found, queued) refl

relayed : (items : List AlbItem) → agent_to_alb (all_taken (alb_frames items)) ≡ alb_messages items
unfolding agent_to_alb ws_message
relayed [] = refl
relayed (text_item s ∷ items) = ap (λ l. text_message s ∷ l) (relayed items)
relayed (binary_item b ∷ items) = ap (λ l. binary_message b ∷ l) (relayed items)
relayed (close_item reason ∷ items) = ap (λ l. close_message ∷ l) (relayed items)
relayed (ping_item ∷ items) = relayed items
relayed (pong_item ∷ items) = relayed items
relayed (raw_item ∷ items) = relayed items
relayed (broken_item ∷ items) = relayed items

module _ (lib : Libraries) (id : Uuid) where
  -- The ingress takes messages of tunnels, one after another; others change no tunnel.
  unfoldable pub take_tunnelled : List IngressMessage → Tunnels → Tunnels
  take_tunnelled [] t = t
  take_tunnelled (m ∷ ms) t = elim (intercept lib m t) [
    | some t' ↦ take_tunnelled ms t'
    | none ↦ take_tunnelled ms t
  ]

  pub read_local_lem :
      (tx : Sender) (items : List AlbItem) (channels : Channels) (c : Channel IngressMessage)
      → get tx channels ≡ some c
      → c.receiver_alive ≡ true
      → get tx (read_local lib id tx items channels)
        ≡ some (extended c (messages_of lib id (until_closed items)))
  unfolding read_local
  read_local_lem tx [] channels c found alive =
      found ∙ ap (λ q. some (record c { queue = q })) (sym (append-nil c.queue))
  read_local_lem tx (broken_item ∷ items) channels c found alive =
      found ∙ ap (λ q. some (record c { queue = q })) (sym (append-nil c.queue))
  read_local_lem tx (raw_item ∷ items) channels c found alive =
      read_local_lem tx items channels c found alive
  read_local_lem tx (close_item reason ∷ items) channels c found alive =
      relay_one lib id tx _ (λ w. w) [] channels c
        (λ w d f a. f ∙ ap (λ q. some (record d { queue = q })) (sym (append-nil d.queue))) found
        alive
  read_local_lem tx (text_item s ∷ items) channels c found alive =
      relay_one lib id tx _ (read_local lib id tx items) _ channels c (read_local_lem tx items)
        found alive
  read_local_lem tx (binary_item b ∷ items) channels c found alive =
      relay_one lib id tx _ (read_local lib id tx items) _ channels c (read_local_lem tx items)
        found alive
  read_local_lem tx (ping_item ∷ items) channels c found alive =
      relay_one lib id tx _ (read_local lib id tx items) _ channels c (read_local_lem tx items)
        found alive
  read_local_lem tx (pong_item ∷ items) channels c found alive =
      relay_one lib id tx _ (read_local lib id tx items) _ channels c (read_local_lem tx items)
        found alive

  module _ (sess : WsSession) (decodes : (b : List ℕ) → lib.decode (lib.encode b) ≡ some b) where
    -- What is to be shown of the items that are left.
    abbrev Arrives : List AlbItem → Type 0
    Arrives items =
        (t : Tunnels) (c : Channel AlbOutboundFrame)
        → get id t.ws_sessions ≡ some sess
        → get sess.alb_out_tx t.frames ≡ some c
        → c.receiver_alive ≡ true
        → get sess.alb_out_tx (take_tunnelled (messages_of lib id (until_closed items)) t).frames
          ≡ some (extended c (alb_frames (until_closed items)))

    tunnelled_step :
        (frame_type payload : Text) (frame : AlbOutboundFrame) (items : List AlbItem)
        → frame_of lib frame_type (some payload) ≡ some frame
        → Arrives items
        → (t : Tunnels) (c : Channel AlbOutboundFrame) → get id t.ws_sessions ≡ some sess
        → get sess.alb_out_tx t.frames ≡ some c
        → c.receiver_alive ≡ true
        → get sess.alb_out_tx
            (take_tunnelled
              (messages_of lib id (until_closed items))
              (handle_ws_proxy_data_from_agent lib id frame_type (some payload) t)).frames
          ≡ some (extended c (frame ∷ alb_frames (until_closed items)))
    tunnelled_step frame_type payload frame items is_frame later t c known found alive =
        rw (data_frame lib id frame_type payload frame t sess c is_frame known found alive) (
          later (record t { frames = insert sess.alb_out_tx (extended c (frame ∷ [])) t.frames })
            (extended c (frame ∷ [])) known
            (get-insert_self sess.alb_out_tx (extended c (frame ∷ [])) t.frames) alive
          ∙ ap (λ d. some d) (extended_twice c frame (alb_frames (until_closed items))))

    -- A ping or a pong changes no tunnel.
    dropped :
        (frame_type : Text) (t : Tunnels)
        → get id t.ws_sessions ≡ some sess
        → handle_ws_proxy_data_from_agent lib id frame_type none t ≡ t
    unfolding handle_ws_proxy_data_from_agent frame_of
    dropped frame_type t known = rw (known, handle_ws_proxy_data_from_agent) refl

    pub take_tunnelled_lem : (items : List AlbItem) → Arrives items
    unfolding take_tunnelled intercept frame_of text_beq
    take_tunnelled_lem [] t c known found alive =
        found ∙ ap (λ q. some (record c { queue = q })) (sym (append-nil c.queue))
    take_tunnelled_lem (broken_item ∷ items) t c known found alive =
        found ∙ ap (λ q. some (record c { queue = q })) (sym (append-nil c.queue))
    take_tunnelled_lem (raw_item ∷ items) t c known found alive =
        take_tunnelled_lem items t c known found alive
    take_tunnelled_lem (close_item reason ∷ items) t c known found alive =
        (handle_ws_proxy_close_from_agent_lem lib id none reason [] t sess c known found alive).0
    take_tunnelled_lem (text_item s ∷ items) t c known found alive =
        tunnelled_step (codes "text") s (text s) items refl (take_tunnelled_lem items) t c known
          found alive
    take_tunnelled_lem (binary_item b ∷ items) t c known found alive =
        tunnelled_step (codes "binary") (lib.encode b) (binary b) items (rw (decodes b) refl)
          (take_tunnelled_lem items) t c known found alive
    take_tunnelled_lem (ping_item ∷ items) t c known found alive =
        rw (dropped (codes "ping") t known) (take_tunnelled_lem items t c known found alive)
    take_tunnelled_lem (pong_item ∷ items) t c known found alive =
        rw (dropped (codes "pong") t known) (take_tunnelled_lem items t c known found alive)

    -- What a local service sends on a session's WebSocket, up to its end, is handed to the ingress by
    -- an agent whose upward channel is open and empty, and put into the open channel of a known
    -- session as the frames of the stream in their order, if base64 decodes what it encoded;
    -- pings and pongs are left out. Behind what waited there, the relay of the session hands the
    -- load balancer's sink, if it takes everything, the same texts and bytes, and a close frame
    -- without its reason.
    pub read_local_reaches_alb :
        (tx : Sender) (items : List AlbItem) (channels : Channels) (up : Channel IngressMessage)
        (t : Tunnels) (c : Channel AlbOutboundFrame)
        → get tx channels ≡ some up
        → up.receiver_alive ≡ true
        → up.queue ≡ []
        → get id t.ws_sessions ≡ some sess
        → get sess.alb_out_tx t.frames ≡ some c
        → c.receiver_alive ≡ true
        → let done = (take_tunnelled (queued tx (read_local lib id tx items channels)) t).frames in
          (get sess.alb_out_tx done ≡ some (extended c (alb_frames (until_closed items))))
          × (agent_to_alb (all_taken (queued sess.alb_out_tx done))
              ≡ agent_to_alb (all_taken c.queue) ++ alb_messages (until_closed items))
    unfolding queued
    read_local_reaches_alb tx items channels up t c upward listens idle known found alive =
        let arrived : get sess.alb_out_tx
              (take_tunnelled (queued tx (read_local lib id tx items channels)) t).frames
            ≡ some (extended c (alb_frames (until_closed items))) =
          rw (read_local_lem tx items channels up upward listens, queued)
            (rw idle (take_tunnelled_lem items t c known found alive)) in
        (
          arrived,
          ap (λ l. agent_to_alb (all_taken l)) (queued-found sess.alb_out_tx _ _ arrived)
              ∙ (agent_to_alb-append c.queue (alb_frames (until_closed items))
                  ∙ ap (λ l. agent_to_alb (all_taken c.queue) ++ l) (relayed (until_closed items))),
        )
