-- ===== src/Client/Agent.antt =====
-- mesh/src/client/client_impl.rs: the messages of the ingress, the wait for the answer to the
-- authentication, and the URL of the health check.
use anywhere_mesh.Base.{
  Text, codes, find, starts_with, take, trim_end, ltb, Option, none, some, inl, inr, Bool, true,
  false, List, [], ◌∷◌, ◌++◌, if◌then◌else◌,
}
use anywhere_mesh.Common.Types.{
  IngressMessage, proxy_request_forward, proxy_response, web_socket_proxy_init,
  web_socket_proxy_data, web_socket_proxy_close, iam_auth_response,
}
use anywhere_mesh.Server.Channels.{Sender, Channels}
use anywhere_mesh.Server.Libraries.{Libraries, parsed, malformed}
use anywhere_mesh.Client.Anyhow.{Anyhow}
use anywhere_mesh.Client.Proxy.{ProxyHandler, handle_request}
use anywhere_mesh.Client.Sessions.{
  WebSocketReverseProxy, Connect, replace_first, handle_init, handle_data_from_server,
  handle_close_from_server,
}

-- The reverse proxy, the channel to the ingress, and the messages sent on the socket itself.
abbrev pub Handled : Type 0
Handled = WebSocketReverseProxy × Channels × List IngressMessage

module _ (lib : Libraries) (handler : ProxyHandler) (connect : Connect) (proxy_tx : Sender) where
  unfoldable pub handle_message_of_ingress :
      IngressMessage → WebSocketReverseProxy → Channels → Handled
  handle_message_of_ingress (proxy_request_forward proxy_request) p channels =
      (p, channels, proxy_response (handle_request handler proxy_request) ∷ [])
  handle_message_of_ingress (web_socket_proxy_init session_id target_host path headers subprotocols)
        p channels =
      let started = handle_init connect session_id path proxy_tx p channels in
      (started.0, started.1, [])
  handle_message_of_ingress (web_socket_proxy_data session_id frame_type payload) p channels =
      (handle_data_from_server lib session_id frame_type payload p, channels, [])
  handle_message_of_ingress (web_socket_proxy_close session_id code reason) p channels =
      (handle_close_from_server session_id code reason p, channels, [])
  handle_message_of_ingress _ p channels = (p, channels, [])

  unfoldable pub handle_ingress_message : Text → WebSocketReverseProxy → Channels → Anyhow Handled
  handle_ingress_message message p channels = elim (lib.from_str message) [
    | malformed e ↦ inl e
    | parsed m ↦ inr (handle_message_of_ingress m p channels)
  ]

-- What the socket yields while the agent waits for the answer to its authentication.
pub data AuthItem : Type 0 where
  text_item : Text → AuthItem
  close_item other_item : AuthItem
  error_item : Text → AuthItem

-- Whether a text ends the wait: with success or not.
unfoldable pub auth_answer : Libraries → Text → Option Bool
auth_answer lib text = elim (lib.from_str text) [
  | parsed (iam_auth_response resp) ↦ some resp.success
  | _ ↦ none
]

-- The loop that waits: none for success, or the text of the error.
unfoldable pub await_auth : Libraries → List AuthItem → Option Text
await_auth lib [] = some (codes "disconnected during auth")
await_auth lib (close_item ∷ items) = some (codes "connection closed during auth")
await_auth lib (error_item e ∷ items) = some e
await_auth lib (other_item ∷ items) = await_auth lib items
await_auth lib (text_item text ∷ items) =
    let rest = await_auth lib items in
    elim (auth_answer lib text) [
      | some true ↦ none
      | some false ↦ some (codes "IAM auth failed")
      | none ↦ rest
    ]

unfoldable pub websocket_to_http_health_url : Text → Option Text
websocket_to_http_health_url ingress_endpoint =
    let url : Text =
      if starts_with ingress_endpoint (codes "wss://")
      then replace_first ingress_endpoint (codes "wss://") (codes "https://")
      else if starts_with ingress_endpoint (codes "ws://")
      then replace_first ingress_endpoint (codes "ws://") (codes "http://")
      else ingress_endpoint in
    elim (find url (codes "/")) [
      | some idx ↦
          if ltb 7 idx
          then some (take idx url ++ codes "/health")
          else some (trim_end b'/' url ++ codes "/health")
      | none ↦ some (trim_end b'/' url ++ codes "/health")
    ]
