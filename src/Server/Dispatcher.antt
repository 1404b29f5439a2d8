-- ===== src/Server/Dispatcher.antt =====
-- mesh/src/server/dispatcher.rs: what an agent's message does, over any registry and any
-- authentication service. The calls `await` one another without other tasks between them.
pub mod Replies
pub mod Isolation
use anywhere_mesh.Base.{Text, codes, Option, none, some, true, false, ◌++◌}
use anywhere_mesh.Common.Types.{
  Uuid, SystemTime, ServiceRegistration, ProxyResponse, IngressMessage, heart_beat, proxy_response,
  proxy_request, proxy_request_forward, web_socket_proxy_init, web_socket_proxy_init_ack,
  web_socket_proxy_data, web_socket_proxy_close, iam_auth, service_registration,
  service_deregistration, iam_auth_response, registration_ack,
}
use anywhere_mesh.Common.Auth.{IamAuthRequest, IamAuthResponse}
use anywhere_mesh.Server.Error.{
  IngressResult, ok, err, bad_request, send_failed, registry_not_found, display,
}
use anywhere_mesh.Server.Channels.{Channels, send}
use anywhere_mesh.Server.Libraries.{Libraries, parsed, malformed}
use anywhere_mesh.Server.Registry.{Registry}
use anywhere_mesh.Server.Router.{DefaultRouter, handle_response}

-- What the services of the ingress share: the registry's state, the router and the channels of the
-- connections.
pub record Ingress (S : Type 0) : Type 0 where
  pub state : S
  pub router : DefaultRouter
  pub channels : Channels

-- A call leaves the ingress and answers a result.
abbrev pub Handled : Type 0 → Type 0
Handled S = Ingress S × IngressResult (Unit {0})

-- The trait AuthService.
abbrev pub AuthService : Type 0
AuthService = IamAuthRequest → IamAuthResponse

module _ {S : Type 0} (lib : Libraries) (registry : Registry S) where
  unfoldable pub send_response : Uuid → IngressMessage → Ingress S → Handled S
  send_response connection_id response w =
      elim (registry.get_connection_sender connection_id w.state) [
        | err e ↦ (w, err e)
        | ok none ↦ (w, err (registry_not_found connection_id))
        | ok (some sender) ↦ elim (send sender response w.channels) [
          | some channels' ↦ (record w { channels = channels' }, ok tt)
          | none ↦ (
            w,
            err (send_failed (codes "Failed to send response to connection: " ++ lib.send_error)),
          )
        ]
      ]

  unfoldable pub handle_iam_auth : AuthService → Uuid → IamAuthRequest → Ingress S → Handled S
  unfolding send_response
  handle_iam_auth authenticate connection_id auth_request w =
      send_response connection_id (iam_auth_response (authenticate auth_request)) w

  -- The acknowledgment of what `register_service` answered.
  unfoldable pub acknowledgment : Uuid → IngressResult (Unit {0}) → IngressMessage
  acknowledgment connection_id (err e) =
      registration_ack connection_id false
        (codes "Registration failed: " ++ display lib.show_uuid e)
  acknowledgment connection_id (ok _) =
      registration_ack connection_id true (codes "Service registered successfully")

  unfoldable pub handle_service_registration :
      SystemTime → Uuid → ServiceRegistration → Ingress S → Handled S
  unfolding send_response acknowledgment
  handle_service_registration now connection_id registration w =
      let registered = registry.register_service connection_id registration now w.state in
      send_response connection_id (acknowledgment connection_id registered.1)
        (record w { state = registered.0 })

  unfoldable pub handle_heartbeat : SystemTime → Uuid → Ingress S → Handled S
  handle_heartbeat now connection_id w =
      let beat = registry.update_heartbeat connection_id now w.state in
      (record w { state = beat.0 }, beat.1)

  unfoldable pub handle_proxy_response : ProxyResponse → Ingress S → Handled S
  handle_proxy_response response w =
      let routed = handle_response response w.router in (record w { router = routed.0 }, routed.1)

  unfoldable pub handle_service_deregistration : Uuid → Ingress S → Handled S
  handle_service_deregistration service_id w =
      let gone = registry.deregister_service service_id w.state in
      (record w { state = gone.0 }, gone.1)

  -- The `match` on the message. The fields that the source discards are not passed on.
  unfoldable pub dispatch : AuthService → SystemTime → Uuid → IngressMessage → Ingress S → Handled S
  unfolding handle_iam_auth handle_service_registration handle_heartbeat handle_proxy_response
      handle_service_deregistration
  dispatch auth now connection_id (iam_auth auth_request) w =
      handle_iam_auth auth connection_id auth_request w
  dispatch auth now connection_id (service_registration registration) w =
      handle_service_registration now connection_id registration w
  dispatch auth now connection_id (heart_beat cluster_name client_id) w =
      handle_heartbeat now connection_id w
  dispatch auth now connection_id (proxy_response response) w = handle_proxy_response response w
  dispatch auth now connection_id (service_deregistration id) w = handle_service_deregistration id w
  dispatch auth now connection_id (web_socket_proxy_init_ack _ _ _ _) w = (w, ok tt)
  dispatch auth now connection_id (web_socket_proxy_data _ _ _) w = (w, ok tt)
  dispatch auth now connection_id (web_socket_proxy_close _ _ _) w = (w, ok tt)
  dispatch auth now connection_id _ w =
      (w, err (bad_request (codes "Unexpected message type from Anywhere Mesh service")))

  unfoldable pub handle_message : AuthService → SystemTime → Uuid → Text → Ingress S → Handled S
  unfolding dispatch
  handle_message auth now connection_id message w = elim (lib.from_str message) [
    | malformed e ↦ (w, err (bad_request (codes "Failed to parse message: " ++ e)))
    | parsed ingress_message ↦ dispatch auth now connection_id ingress_message w
  ]
