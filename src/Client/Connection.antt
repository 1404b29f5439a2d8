-- ===== src/Client/Connection.antt =====
-- mesh/src/client/client_impl.rs: one connection of the agent to the ingress. The stream's items,
-- the turns of `select!` and the failures of sends are inputs.
use anywhere_mesh.Base.{
  Text, insert, nat_eq, Option, none, some, List, [], ◌∷◌, ◌++◌, Bool, true, ◌&&◌, inl, inr,
  if◌then◌else◌,
}
use anywhere_mesh.Common.Types.{IngressMessage, iam_auth, service_registration}
use anywhere_mesh.Server.Channels.{Sender, Channels, queued}
use anywhere_mesh.Server.Libraries.{Libraries}
use anywhere_mesh.Client.Anyhow.{Anyhow}
use anywhere_mesh.Client.Sessions.{WebSocketReverseProxy, Connect}
use anywhere_mesh.Client.Identity.{EcsAnywhereClient, register_service, auth_request, heartbeat}
use anywhere_mesh.Client.Agent.{Handled, handle_ingress_message, AuthItem, await_auth}

-- The agent's state on a connection, with the messages that it has sent on the socket, the last one
-- at the end, and the result once the connection has ended.
pub record Connected : Type 0 where
  pub proxy : WebSocketReverseProxy
  pub channels : Channels
  pub sent : List IngressMessage
  pub ended : Option (Anyhow (Unit {0}))

-- A turn of `select!`. A turn that sends has the text of the sink's error, if it fails.
pub data Turn : Type 0 where
  ingress_text : Text → Option Text → Turn
  ingress_close ingress_end ingress_other : Turn
  ingress_error : Text → Turn
  heartbeat_ready : Option Text → Turn
  heartbeat_closed : Turn
  -- whether `changed()` is ok, and the value
  reconnect_changed : Bool → Bool → Turn
  proxy_ready : Option Text → Turn
  proxy_closed : Turn
  -- the tasks of the sessions run
  sessions_run : (WebSocketReverseProxy → Channels → WebSocketReverseProxy × Channels) → Turn

unfoldable pub finish : Anyhow (Unit {0}) → Connected → Connected
finish result c = record c { ended = some result }

-- A send whose failure ends the connection with the given result.
unfoldable pub send_or : Anyhow (Unit {0}) → Option Text → IngressMessage → Connected → Connected
unfolding finish
send_or result none message c = record c { sent = c.sent ++ message ∷ [] }
send_or result (some e) message c = finish result c

-- The replies to a message; the error of a failed send is passed on.
unfoldable pub send_replies : Option Text → List IngressMessage → Connected → Connected
unfolding finish
send_replies error [] c = c
send_replies none (m ∷ ms) c = record c { sent = c.sent ++ (m ∷ ms) }
send_replies (some e) (m ∷ ms) c = finish (inl e) c

-- The channel with the messages that wait in it; its receiver is the loop.
unfoldable pub set_queue : Sender → List IngressMessage → Channels → Channels
unfolding insert
set_queue tx rest channels = insert tx (record { receiver_alive = true; queue = rest }) channels

module _ (lib : Libraries) (connect : Connect) (self : EcsAnywhereClient) (proxy_tx : Sender) where
  unfoldable pub take_handled : Option Text → Anyhow Handled → Connected → Connected
  unfolding finish send_replies
  take_handled error (inl e) c = finish (inl e) c
  take_handled error (inr (p, channels, replies)) c =
      send_replies error replies (record c { proxy = p; channels = channels })

  -- The first message that waits in the proxy channel, if one does.
  unfoldable pub send_first : Option Text → List IngressMessage → Connected → Connected
  unfolding send_or set_queue
  send_first error [] c = c
  send_first error (m ∷ rest) c =
      send_or (inr tt) error m (record c { channels = set_queue proxy_tx rest c.channels })

  -- One turn of the loop on a connection that has not ended.
  unfoldable pub take_turn : Turn → Connected → Connected
  unfolding finish send_or take_handled send_first
  take_turn (ingress_text text error) c =
      take_handled error
        (handle_ingress_message lib self.proxy_handler connect proxy_tx text c.proxy c.channels) c
  take_turn ingress_close c = finish (inr tt) c
  take_turn ingress_end c = finish (inr tt) c
  take_turn ingress_other c = c
  take_turn (ingress_error e) c = finish (inl e) c
  take_turn (heartbeat_ready error) c = send_or (inr tt) error (heartbeat self) c
  take_turn heartbeat_closed c = finish (inr tt) c
  take_turn (reconnect_changed ok value) c = if ok && value then finish (inr tt) c else c
  take_turn (proxy_ready error) c = send_first error (queued proxy_tx c.channels) c
  take_turn proxy_closed c = finish (inr tt) c
  take_turn (sessions_run act) c =
      let after = act c.proxy c.channels in record c { proxy = after.0; channels = after.1 }

  unfoldable pub take_turns : List Turn → Connected → Connected
  take_turns [] c = c
  take_turns (t ∷ ts) c = elim c.ended [ some result ↦ c | none ↦ take_turns ts (take_turn t c) ]

-- What the surroundings do to an attempt: the failures to connect and to send, the presigned URL, the
-- stream's items up to the end of the wait, the name of the proxy channel, and the turns.
pub record Attempt : Type 0 where
  pub connect_error : Option Text
  pub presigned_url : Anyhow Text
  pub auth_error : Option Text
  pub auth_items : List AuthItem
  pub registration_error : Option Text
  pub heartbeat_error : Option Text
  pub proxy_tx : Sender
  pub turns : List Turn

unfoldable pub starting : EcsAnywhereClient → Channels → Connected
starting self channels = record {
  proxy = self.ws_proxy;
  channels = channels;
  sent = [];
  ended = none;
}

-- The first heartbeat, whose failure is only logged, and the channel for the sessions.
unfoldable pub first_heartbeat : EcsAnywhereClient → Attempt → Connected → Connected
unfolding set_queue
first_heartbeat self a c =
    let open_c = record c { channels = set_queue a.proxy_tx [] c.channels } in
    elim a.heartbeat_error [
      | some e ↦ open_c
      | none ↦ record open_c { sent = c.sent ++ heartbeat self ∷ [] }
    ]

module _ (lib : Libraries) (connect : Connect) (self : EcsAnywhereClient) (a : Attempt) where
  -- From the registration on.
  unfoldable pub register : Connected → Connected
  unfolding finish first_heartbeat take_turns
  register c = elim a.registration_error [
    | some e ↦ finish (inl e) c
    | none ↦ take_turns lib connect self a.proxy_tx a.turns (
        first_heartbeat self a
          (record c { sent = c.sent ++ service_registration (register_service self) ∷ [] }))
  ]

  -- From the authentication on.
  unfoldable pub authenticate : Connected → Connected
  unfolding finish register
  authenticate c = elim a.auth_error [
    | some e ↦ finish (inl e) c
    | none ↦
        let asked = record c { sent = c.sent ++ iam_auth (auth_request a.presigned_url) ∷ [] } in
        elim (await_auth lib a.auth_items) [ some e ↦ finish (inl e) asked | none ↦ register asked ]
  ]

  unfoldable pub connect_and_handle : Channels → Connected
  unfolding finish starting authenticate
  connect_and_handle channels = elim a.connect_error [
    | some e ↦ finish (inl e) (starting self channels)
    | none ↦ authenticate (starting self channels)
  ]

-- The loop of `run`: every attempt is made, whatever the one before it came to. The sessions of the
-- reverse proxy outlive a connection.
unfoldable pub run :
    Libraries → Connect → List Attempt → EcsAnywhereClient → Channels → List Connected
unfolding connect_and_handle
run lib connect [] self channels = []
run lib connect (a ∷ attempts) self channels =
    let after = connect_and_handle lib connect self a channels in
    after ∷ run lib connect attempts (record self { ws_proxy = after.proxy }) after.channels
