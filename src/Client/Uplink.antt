-- ===== src/Client/Uplink.antt =====
-- What waits for a connection's loop, and what it has sent, of the sessions of the agent.
pub mod Turns
use anywhere_mesh.Base.{
  ◌≡◌, refl, ap, sym, ◌∙◌, get, insert, get-insert_self, nat_eq, filter, Option, none, some,
  Option-cases, Bool, true, false, List, [], ◌∷◌, ◌++◌, ◌==◌, ==_refl, All, arith, inl, inr,
  if◌then◌else◌, Bool-cases, Text, ◌⊎◌, ◌&&◌,
}
use mathlib.Core.List.{append-nil, append_assoc}
use anywhere_mesh.Common.Types.{
  Uuid, IngressMessage, heart_beat, proxy_response, proxy_request, proxy_request_forward,
  web_socket_proxy_init, web_socket_proxy_init_ack, web_socket_proxy_data, web_socket_proxy_close,
  iam_auth, service_registration, service_deregistration, iam_auth_response, registration_ack,
}
use anywhere_mesh.Server.Channels.{Sender, Channels, send, queued, queued-send}
use anywhere_mesh.Server.Libraries.{Libraries, Parsed, parsed, malformed}
use anywhere_mesh.Server.Tunnel.Relay.{try_send}
use anywhere_mesh.Client.Anyhow.{Anyhow, Anyhow-cases}
use anywhere_mesh.Client.Proxy.{ProxyHandler}
use anywhere_mesh.Client.Sessions.{WebSocketReverseProxy, Connect, to_ws_url, handle_init}
use anywhere_mesh.Client.Identity.{EcsAnywhereClient, heartbeat}
use anywhere_mesh.Client.Agent.{Handled, handle_message_of_ingress, handle_ingress_message}
use anywhere_mesh.Client.Connection.{
  Connected, Turn, ingress_text, ingress_close, ingress_end, ingress_other, ingress_error,
  heartbeat_ready, heartbeat_closed, reconnect_changed, proxy_ready, proxy_closed, sessions_run,
  finish, send_or, send_replies, set_queue, take_handled, send_first, take_turn, take_turns,
}
use anywhere_mesh.Client.Extends.{Extends, same-Extends}

-- The messages of tunnels that an agent sends.
abbrev pub is_tunnel : IngressMessage → Bool
is_tunnel (web_socket_proxy_init_ack _ _ _ _) = true
is_tunnel (web_socket_proxy_data _ _ _) = true
is_tunnel (web_socket_proxy_close _ _ _) = true
is_tunnel _ = false

filter-append :
    (p : IngressMessage → Bool) (xs ys : List IngressMessage)
    → filter p (xs ++ ys) ≡ filter p xs ++ filter p ys
filter-append p [] ys = refl
filter-append p (x ∷ xs) ys = ground (arith, filter-append p xs ys)

-- The messages of tunnels that were sent, and behind them those that wait.
unfoldable pub uplink : Sender → Connected → List IngressMessage
uplink tx c = filter is_tunnel (c.sent ++ queued tx c.channels)

queued-try_send :
    (tx : Sender) (m : IngressMessage) (channels : Channels)
    → Extends (queued tx channels) (queued tx (try_send tx m channels))
unfolding try_send
queued-try_send tx m channels = elim (Option-cases (send tx m channels)) [
  | inl e ↦ rw (e, try_send) (same-Extends (queued tx channels))
  | inr (after, e) ↦
      rw (e, try_send)
        (
          m ∷ [],
          queued-send tx tx m channels after e
              ∙ ap (λ b. if b then queued tx channels ++ m ∷ [] else queued tx channels)
                  (==_refl tx),
        )
]

-- More waits, and what is sent beside is of no tunnel.
module _ (tx : Sender) (c : Connected) where
  pub more_waits :
      (d : Connected)
      → d.sent ≡ c.sent
      → Extends (queued tx c.channels) (queued tx d.channels)
      → Extends (uplink tx c) (uplink tx d)
  unfolding uplink
  more_waits d sent (extra, waits) = (
    filter is_tunnel extra,
    ap (λ s. filter is_tunnel (s ++ queued tx d.channels)) sent
        ∙ ap (λ w. filter is_tunnel (c.sent ++ w)) waits
        ∙ ap (filter is_tunnel) (sym (append_assoc c.sent (queued tx c.channels) extra))
        ∙ filter-append is_tunnel (c.sent ++ queued tx c.channels) extra,
  )

  pub ended_same :
      (result : Anyhow (Unit {0})) → uplink tx (record c { ended = some result }) ≡ uplink tx c
  unfolding uplink
  ended_same result = refl

  pub sent_beside :
      (ms : List IngressMessage)
      → filter is_tunnel ms ≡ []
      → uplink tx (record c { sent = c.sent ++ ms }) ≡ uplink tx c
  unfolding uplink
  sent_beside ms beside =
      filter-append is_tunnel (c.sent ++ ms) (queued tx c.channels)
      ∙ ap (λ f. f ++ filter is_tunnel (queued tx c.channels))
          (filter-append is_tunnel c.sent ms
            ∙ ap (λ f. filter is_tunnel c.sent ++ f) beside
            ∙ append-nil (filter is_tunnel c.sent))
      ∙ sym (filter-append is_tunnel c.sent (queued tx c.channels))

handle_init-queued :
    (connect : Connect) (id : Uuid) (path : Text) (tx : Sender) (p : WebSocketReverseProxy)
    (channels : Channels)
    → Extends (queued tx channels) (queued tx (handle_init connect id path tx p channels).1)
unfolding handle_init
handle_init-queued connect id path tx p channels =
    elim (Option-cases (connect (to_ws_url p path))) [
      | inl e ↦
          rw (e, handle_init)
            (queued-try_send tx (web_socket_proxy_init_ack id true none none) channels)
      | inr (error, e) ↦
          rw (e, handle_init)
            (queued-try_send tx (web_socket_proxy_init_ack id false (some error) none) channels)
    ]

-- A message of the ingress leaves what waits in front, and its replies are of no tunnel.
abbrev pub Keeps : Sender → Channels → Handled → Type 0
Keeps tx channels (p, after, replies) =
    Extends (queued tx channels) (queued tx after) × (filter is_tunnel replies ≡ [])

module _ (lib : Libraries) (handler : ProxyHandler) (connect : Connect) (tx : Sender) where
  pub message-Keeps :
      (m : IngressMessage) (p : WebSocketReverseProxy) (channels : Channels)
      → Keeps tx channels (handle_message_of_ingress lib handler connect tx m p channels)
  unfolding handle_message_of_ingress
  message-Keeps (proxy_request_forward r) p channels = (same-Extends (queued tx channels), refl)
  message-Keeps (web_socket_proxy_init id host path headers protocols) p channels =
      (handle_init-queued connect id path tx p channels, refl)
  message-Keeps (web_socket_proxy_data id frame payload) p channels =
      (same-Extends (queued tx channels), refl)
  message-Keeps (web_socket_proxy_close id code reason) p channels =
      (same-Extends (queued tx channels), refl)
  message-Keeps (heart_beat _ _) p channels = (same-Extends (queued tx channels), refl)
  message-Keeps (proxy_response _) p channels = (same-Extends (queued tx channels), refl)
  message-Keeps (proxy_request _) p channels = (same-Extends (queued tx channels), refl)
  message-Keeps (web_socket_proxy_init_ack _ _ _ _) p channels =
      (same-Extends (queued tx channels), refl)
  message-Keeps (iam_auth _) p channels = (same-Extends (queued tx channels), refl)
  message-Keeps (service_registration _) p channels = (same-Extends (queued tx channels), refl)
  message-Keeps (service_deregistration _) p channels = (same-Extends (queued tx channels), refl)
  message-Keeps (iam_auth_response _) p channels = (same-Extends (queued tx channels), refl)
  message-Keeps (registration_ack _ _ _) p channels = (same-Extends (queued tx channels), refl)
