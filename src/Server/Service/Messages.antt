-- ===== src/Server/Service/Messages.antt =====
-- Which part of the ingress a message reaches.
use anywhere_mesh.Base.{Text, Bool, true, false, ◌≡◌, refl, arith, none}
use anywhere_mesh.Common.Types.{
  Uuid, SystemTime, IngressMessage, web_socket_proxy_init_ack, web_socket_proxy_data,
  web_socket_proxy_close,
}
use anywhere_mesh.Server.Error.{ok}
use anywhere_mesh.Server.Libraries.{Libraries, parsed}
use anywhere_mesh.Server.Registry.{Registry}
use anywhere_mesh.Server.Dispatcher.{AuthService, handle_message}
use anywhere_mesh.Server.Tunnel.{Tunnels}
use anywhere_mesh.Server.Service.{
  Service, Served, intercept, to_dispatcher, handle_websocket_message,
}

-- The messages that belong to a tunnel.
abbrev pub is_tunnelled : IngressMessage → Bool
is_tunnelled (web_socket_proxy_init_ack _ _ _ _) = true
is_tunnelled (web_socket_proxy_data _ _ _) = true
is_tunnelled (web_socket_proxy_close _ _ _) = true
is_tunnelled _ = false

module _ {S : Type 0} (lib : Libraries) (registry : Registry S) (auth : AuthService)
    (now : SystemTime) (id : Uuid) (message : Text) (sv : Service S) where
  abbrev out : Served S
  out = handle_websocket_message lib registry auth now id message sv

  -- A message of a tunnel touches neither the registry, nor the router, nor a channel of an agent, and
  -- it is never an error.
  pub handle_websocket_message_tunnelled :
      (m : IngressMessage)
      → lib.from_str message ≡ parsed m
      → is_tunnelled m ≡ true
      → (out.0.ingress ≡ sv.ingress) × (out.1 ≡ ok tt)
  unfolding handle_websocket_message intercept
  handle_websocket_message_tunnelled (web_socket_proxy_init_ack _ _ _ _) read h =
      rw (read, handle_websocket_message) (refl, refl)
  handle_websocket_message_tunnelled (web_socket_proxy_data _ _ _) read h =
      rw (read, handle_websocket_message) (refl, refl)
  handle_websocket_message_tunnelled (web_socket_proxy_close _ _ _) read h =
      rw (read, handle_websocket_message) (refl, refl)
  handle_websocket_message_tunnelled _ read h = absurd (ground arith)

  not_intercepted :
      (m : IngressMessage) (t : Tunnels) → is_tunnelled m ≡ false → intercept lib m t ≡ none
  unfolding intercept
  not_intercepted (web_socket_proxy_init_ack _ _ _ _) t h = absurd (ground arith)
  not_intercepted (web_socket_proxy_data _ _ _) t h = absurd (ground arith)
  not_intercepted (web_socket_proxy_close _ _ _) t h = absurd (ground arith)
  not_intercepted _ t h = refl

  -- Every other message that parses does exactly what the dispatcher does with it, and touches no
  -- tunnel.
  pub handle_websocket_message_dispatched :
      (m : IngressMessage)
      → lib.from_str message ≡ parsed m
      → is_tunnelled m ≡ false
      → let handled = handle_message lib registry auth now id message sv.ingress in
        (out.0.tunnels ≡ sv.tunnels) × (out.0.ingress ≡ handled.0) × (out.1 ≡ handled.1)
  unfolding handle_websocket_message to_dispatcher
  handle_websocket_message_dispatched m read h =
      rw (read, handle_websocket_message) (rw (not_intercepted m sv.tunnels h) (refl, refl, refl))
