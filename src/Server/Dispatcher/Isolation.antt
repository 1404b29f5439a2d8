-- ===== src/Server/Dispatcher/Isolation.antt =====
-- What the answer of the IAM validation, and the sender of a message, have a say in.
use anywhere_mesh.Base.{Text, ◌≡◌, refl, ◌∙◌, ap, sym, List, [], ◌∷◌, arith, nat_eq}
use anywhere_mesh.Common.Types.{
  Uuid, SystemTime, IngressMessage, heart_beat, proxy_response, iam_auth, service_registration,
  service_deregistration, iam_auth_response,
}
use anywhere_mesh.Server.Libraries.{Libraries, Parsed, parsed, malformed}
use anywhere_mesh.Server.Registry.{Registry}
use anywhere_mesh.Server.Router.{handle_response}
use anywhere_mesh.Server.Dispatcher.{
  Ingress, AuthService, send_response, handle_iam_auth, handle_service_registration,
  handle_heartbeat, handle_proxy_response, handle_service_deregistration, dispatch, handle_message,
}

module _ {S : Type 0} (lib : Libraries) (registry : Registry S) where
  -- A message leaves the registry and the router in a state that only they and the message decide.
  send_response-state :
      (id : Uuid) (m : IngressMessage) (w : Ingress S)
      → (send_response lib registry id m w).0.state ≡ w.state
  unfolding send_response
  send_response-state id m w = ground arith

  send_response-router :
      (id : Uuid) (m : IngressMessage) (w : Ingress S)
      → (send_response lib registry id m w).0.router ≡ w.router
  unfolding send_response
  send_response-router id m w = ground arith

  abbrev SameServices : Ingress S → Ingress S → Type 0
  SameServices v w = (v.state ≡ w.state) × (v.router ≡ w.router)

  send_keeps :
      (id : Uuid) (m n : IngressMessage) (v w : Ingress S)
      → SameServices v w
      → SameServices (send_response lib registry id m v).0 (send_response lib registry id n w).0
  send_keeps id m n v w s = (
    send_response-state id m v ∙ s.0 ∙ sym (send_response-state id n w),
    send_response-router id m v ∙ s.1 ∙ sym (send_response-router id n w),
  )

  dispatch-same :
      (auth auth' : AuthService) (now : SystemTime) (id : Uuid) (m : IngressMessage)
      (v w : Ingress S)
      → SameServices v w
      → SameServices
          (dispatch lib registry auth now id m v).0
          (dispatch lib registry auth' now id m w).0
  unfolding dispatch handle_iam_auth handle_service_registration handle_heartbeat
      handle_proxy_response handle_service_deregistration
  dispatch-same auth auth' now id (iam_auth request) v w s =
      send_keeps id (iam_auth_response (auth request)) (iam_auth_response (auth' request)) v w s
  dispatch-same auth auth' now id (service_registration g) v w s =
      send_keeps id _ _ (record v { state = (registry.register_service id g now v.state).0 })
        (record w { state = (registry.register_service id g now w.state).0 })
        (ap (λ t. (registry.register_service id g now t).0) s.0, s.1)
  dispatch-same auth auth' now id (heart_beat cluster client) v w s =
      (ap (λ t. (registry.update_heartbeat id now t).0) s.0, s.1)
  dispatch-same auth auth' now id (proxy_response response) v w s =
      (s.0, ap (λ t. (handle_response response t).0) s.1)
  dispatch-same auth auth' now id (service_deregistration other) v w s =
      (ap (λ t. (registry.deregister_service other t).0) s.0, s.1)
  dispatch-same auth auth' now id _ v w s = s

  message-same :
      (auth auth' : AuthService) (now : SystemTime) (id : Uuid) (message : Text) (v w : Ingress S)
      → SameServices v w
      → SameServices
          (handle_message lib registry auth now id message v).0
          (handle_message lib registry auth' now id message w).0
  unfolding handle_message
  message-same auth auth' now id message v w s = parsed_same (lib.from_str message) refl
    where
      parsed_same :
          (p : Parsed)
          → lib.from_str message ≡ p
          → SameServices
              (handle_message lib registry auth now id message v).0
              (handle_message lib registry auth' now id message w).0
      parsed_same (parsed m) e = rw (e, handle_message) (dispatch-same auth auth' now id m v w s)
      parsed_same (malformed t) e = rw (e, handle_message) s

-- One message of a connection, and the clock at its arrival.
pub record Arrival : Type 0 where
  pub now : SystemTime
  pub connection_id : Uuid
  pub message : Text

module _ {S : Type 0} (lib : Libraries) (registry : Registry S) where
  pub receive : AuthService → List Arrival → Ingress S → Ingress S
  receive auth [] w = w
  receive auth (a ∷ rest) w =
      receive auth rest (handle_message lib registry auth a.now a.connection_id a.message w).0

  receive-same :
      (auth auth' : AuthService) (arrivals : List Arrival) (v w : Ingress S)
      → SameServices lib registry v w
      → SameServices lib registry (receive auth arrivals v) (receive auth' arrivals w)
  unfolding receive
  receive-same auth auth' [] v w s = s
  receive-same auth auth' (a ∷ rest) v w s =
      receive-same auth auth' rest _ _
        (message-same lib registry auth auth' a.now a.connection_id a.message v w s)

  -- Whatever the IAM validation answers, the same messages leave the same registry and the same
  -- router.
  pub receive_ignores_auth :
      (auth auth' : AuthService) (arrivals : List Arrival) (w : Ingress S)
      → ((receive auth arrivals w).state ≡ (receive auth' arrivals w).state)
        × ((receive auth arrivals w).router ≡ (receive auth' arrivals w).router)
  receive_ignores_auth auth auth' arrivals w = receive-same auth auth' arrivals w w (refl, refl)
