-- ===== src/Server/Service.antt =====
-- mesh/src/server/service.rs: the ingress as a whole, a connection's messages and its life.
pub mod Messages
pub mod Life
use anywhere_mesh.Base.{
  ℕ, Text, codes, Option, none, some, Bool, true, false, List, [], ◌∷◌, split, trim, map, lowercase,
  ◌==◌, text_eq, ◌⊎◌, inl, inr, if◌then◌else◌,
}
use anywhere_mesh.Common.Types.{
  Uuid, SystemTime, IngressMessage, ProxyRequest, ProxyResponse, web_socket_proxy_init_ack,
  web_socket_proxy_data, web_socket_proxy_close,
}
use anywhere_mesh.Server.Error.{IngressResult, ok, err}
use anywhere_mesh.Server.Channels.{Sender}
use anywhere_mesh.Server.Libraries.{Libraries, parsed, malformed}
use anywhere_mesh.Server.Registry.{Registry}
use anywhere_mesh.Server.Dispatcher.{Ingress, Handled, AuthService, handle_message}
use anywhere_mesh.Server.Tunnel.{
  Tunnels, handle_ws_proxy_init_ack, handle_ws_proxy_data_from_agent,
  handle_ws_proxy_close_from_agent,
}

-- CombinedIngressService: the state that its fields share.
pub record Service (S : Type 0) : Type 0 where
  pub ingress : Ingress S
  pub tunnels : Tunnels

-- The two settings that `CombinedIngressService::new` reads.
unfoldable pub skip_iam_validation : Option Text → Bool
skip_iam_validation none = false
skip_iam_validation (some s) = lowercase s == codes "true"

unfoldable pub allowed_role_patterns_of : Option Text → List Text
allowed_role_patterns_of none = codes "*" ∷ []
allowed_role_patterns_of (some s) = map trim (split b',' s)

abbrev pub Served : Type 0 → Type 0
Served S = Service S × IngressResult (Unit {0})

-- The messages of tunnels, with what they do; none for every other message.
unfoldable pub intercept : Libraries → IngressMessage → Tunnels → Option Tunnels
intercept lib (web_socket_proxy_init_ack session_id success message response_headers) t =
    some (handle_ws_proxy_init_ack session_id success message response_headers t)
intercept lib (web_socket_proxy_data session_id frame_type payload) t =
    some (handle_ws_proxy_data_from_agent lib session_id frame_type payload t)
intercept lib (web_socket_proxy_close session_id code reason) t =
    some (handle_ws_proxy_close_from_agent session_id code reason t)
intercept lib _ t = none

unfoldable pub with_state : {S : Type 0} → Service S → S → Service S
with_state sv s = record sv { ingress = record sv.ingress { state = s } }

-- What the connection's stream yields.
pub data StreamItem : Type 0 where
  text_item : Text → StreamItem
  close_item error_item other_item : StreamItem

-- An item with the clock at its arrival and what other tasks did before it.
pub record Incoming (S : Type 0) : Type 0 where
  pub meanwhile : Service S → Service S
  pub now : SystemTime
  pub item : StreamItem

-- The loop of the task that writes to the connection: each queued message with its text, or the error
-- of serde_json, and with whether the socket took it. The answer is what the socket was handed.
unfoldable pub write_outgoing : List ((Text ⊎ Text) × Bool) → List Text
write_outgoing [] = []
write_outgoing ((inl e, taken) ∷ messages) = write_outgoing messages
write_outgoing ((inr json, taken) ∷ messages) =
    let rest = write_outgoing messages in json ∷ (if taken then rest else [])

module _ {S : Type 0} (lib : Libraries) (registry : Registry S) (auth : AuthService) where
  unfoldable pub to_dispatcher : SystemTime → Uuid → Text → Service S → Served S
  to_dispatcher now connection_id message sv =
      let handled = handle_message lib registry auth now connection_id message sv.ingress in
      (record sv { ingress = handled.0 }, handled.1)

  unfoldable pub handle_websocket_message : SystemTime → Uuid → Text → Service S → Served S
  unfolding to_dispatcher
  handle_websocket_message now connection_id message sv = elim (lib.from_str message) [
    | parsed m ↦ elim (intercept lib m sv.tunnels) [
      | some tunnels' ↦ (record sv { tunnels = tunnels' }, ok tt)
      | none ↦ to_dispatcher now connection_id message sv
    ]
    | malformed e ↦ to_dispatcher now connection_id message sv
  ]

  -- The loop of the task that reads the connection.
  unfoldable pub read_incoming : Uuid → List (Incoming S) → Service S → Service S
  read_incoming connection_id [] sv = sv
  read_incoming connection_id (i ∷ rest) sv = elim i.item [
    | text_item text ↦
        read_incoming connection_id rest
          (handle_websocket_message i.now connection_id text (i.meanwhile sv)).0
    | other_item ↦ read_incoming connection_id rest (i.meanwhile sv)
    | close_item ↦ i.meanwhile sv
    | error_item ↦ i.meanwhile sv
  ]

  -- `incoming` is what the reading task takes before either task ends, `late` what it still takes
  -- behind the clean-up: if the writing task ends first, the reading one goes on.
  unfoldable pub handle_websocket_stream :
      Uuid → Sender → List (Incoming S) → List (Incoming S) → Service S → Served S
  unfolding with_state
  handle_websocket_stream connection_id tx incoming late sv =
      let registered = registry.register_connection connection_id tx sv.ingress.state in
      elim registered.1 [
        | err e ↦ (with_state sv registered.0, err e)
        | ok _ ↦
            let served = read_incoming connection_id incoming (with_state sv registered.0) in
            let removed = registry.remove_connection connection_id served.ingress.state in
            (read_incoming connection_id late (with_state served removed.0), ok tt)
      ]
