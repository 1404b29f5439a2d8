-- ===== src/Server/Tunnel/Outward.antt =====
-- What the agent is told of the load balancer's stream.
use anywhere_mesh.Base.{
  codes, get, insert, get-insert_self, none, some, true, List, [], ◌∷◌, ◌++◌, nat_eq, text_eq, ◌≡◌,
  ap, sym, ◌∙◌,
}
use mathlib.Core.List.{append-nil}
use anywhere_mesh.Common.Types.{Uuid, IngressMessage, web_socket_proxy_data, web_socket_proxy_close}
use anywhere_mesh.Server.Channels.{Sender, Channel, Channels}
use anywhere_mesh.Server.Libraries.{Libraries}
use anywhere_mesh.Server.Tunnel.Relay.{
  AlbItem, text_item, binary_item, ping_item, pong_item, raw_item, broken_item, close_item,
  try_send, alb_to_agent,
}
use anywhere_mesh.Server.Tunnel.Frames.{extended, send_open, extended_twice}

-- The items before the stream ends: those before a broken one, and a close as the last.
abbrev pub until_closed : List AlbItem → List AlbItem
until_closed [] = []
until_closed (broken_item ∷ items) = []
until_closed (close_item reason ∷ items) = close_item reason ∷ []
until_closed (i ∷ items) = i ∷ until_closed items

-- What the agent is told of an item.
abbrev pub message_of : Libraries → Uuid → AlbItem → List IngressMessage
message_of lib id (text_item s) = web_socket_proxy_data id (codes "text") (some s) ∷ []
message_of lib id (binary_item b) =
    web_socket_proxy_data id (codes "binary") (some (lib.encode b)) ∷ []
message_of lib id ping_item = web_socket_proxy_data id (codes "ping") none ∷ []
message_of lib id pong_item = web_socket_proxy_data id (codes "pong") none ∷ []
message_of lib id (close_item reason) = web_socket_proxy_close id none reason ∷ []
message_of lib id _ = []

abbrev pub messages_of : Libraries → Uuid → List AlbItem → List IngressMessage
messages_of lib id [] = []
messages_of lib id (i ∷ items) = message_of lib id i ++ messages_of lib id items

pub try_send_open :
    (tx : Sender) (m : IngressMessage) (channels : Channels) (c : Channel IngressMessage)
    → get tx channels ≡ some c
    → c.receiver_alive ≡ true
    → try_send tx m channels ≡ insert tx (extended c (m ∷ [])) channels
unfolding try_send
try_send_open tx m channels c found alive = rw (send_open tx m channels c found alive, try_send)

module _ (lib : Libraries) (session_id : Uuid) (tx : Sender) where
  -- One message, and then the rest of the loop.
  pub relay_one :
      (m : IngressMessage) (rest : Channels → Channels) (ms : List IngressMessage)
      (channels : Channels) (c : Channel IngressMessage)
      → ((channels' : Channels) (c' : Channel IngressMessage)
          → get tx channels' ≡ some c'
          → c'.receiver_alive ≡ true
          → get tx (rest channels') ≡ some (extended c' ms))
      → get tx channels ≡ some c
      → c.receiver_alive ≡ true
      → get tx (rest (try_send tx m channels)) ≡ some (extended c (m ∷ ms))
  relay_one m rest ms channels c later found alive =
      rw (try_send_open tx m channels c found alive) (
        later (insert tx (extended c (m ∷ [])) channels) (extended c (m ∷ []))
          (get-insert_self tx (extended c (m ∷ [])) channels) alive
        ∙ ap (λ d. some d) (extended_twice c m ms))

  -- While the agent's connection is there, the agent is told every item of the load balancer's stream
  -- up to its end, in order, and nothing behind it.
  pub alb_to_agent_lem :
      (items : List AlbItem) (channels : Channels) (c : Channel IngressMessage)
      → get tx channels ≡ some c
      → c.receiver_alive ≡ true
      → get tx (alb_to_agent lib session_id tx items channels)
        ≡ some (extended c (messages_of lib session_id (until_closed items)))
  unfolding alb_to_agent
  alb_to_agent_lem [] channels c found alive =
      found ∙ ap (λ q. some (record c { queue = q })) (sym (append-nil c.queue))
  alb_to_agent_lem (broken_item ∷ items) channels c found alive =
      found ∙ ap (λ q. some (record c { queue = q })) (sym (append-nil c.queue))
  alb_to_agent_lem (raw_item ∷ items) channels c found alive =
      alb_to_agent_lem items channels c found alive
  alb_to_agent_lem (close_item reason ∷ items) channels c found alive =
      relay_one (web_socket_proxy_close session_id none reason) (λ w. w) [] channels c
        (λ w d f a. f ∙ ap (λ q. some (record d { queue = q })) (sym (append-nil d.queue))) found
        alive
  alb_to_agent_lem (text_item s ∷ items) channels c found alive =
      relay_one _ (alb_to_agent lib session_id tx items) _ channels c (alb_to_agent_lem items) found
        alive
  alb_to_agent_lem (binary_item b ∷ items) channels c found alive =
      relay_one _ (alb_to_agent lib session_id tx items) _ channels c (alb_to_agent_lem items) found
        alive
  alb_to_agent_lem (ping_item ∷ items) channels c found alive =
      relay_one _ (alb_to_agent lib session_id tx items) _ channels c (alb_to_agent_lem items) found
        alive
  alb_to_agent_lem (pong_item ∷ items) channels c found alive =
      relay_one _ (alb_to_agent lib session_id tx items) _ channels c (alb_to_agent_lem items) found
        alive
