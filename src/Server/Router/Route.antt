-- ===== src/Server/Router/Route.antt =====
-- `find_matching_services`, `select_healthy_service`, `forward_request` and `route_request`.
use anywhere_mesh.Base.{Text, codes, Option, none, some, List, [], ◌∷◌, ◌++◌, values, filter}
use anywhere_mesh.Common.Types.{
  Uuid, SystemTime, ServiceRegistration, ProxyRequest, ProxyResponse, proxy_request_forward,
}
use anywhere_mesh.Common.Routing.{select_healthy_instance}
use anywhere_mesh.Server.Error.{IngressResult, ok, err, send_failed, timeout, ◌>>=◌}
use anywhere_mesh.Server.Channels.{Channels, send}
use anywhere_mesh.Server.Registry.{Registry}
use anywhere_mesh.Server.Router.{
  DefaultRouter, Handle, cache_hit, serves_alone, put_cache, open_pending, close_pending, end_wait,
  wait_for_response, create_error_response,
}

-- The router, the message channels, and an answer.
abbrev pub Routed : Type 0 → Type 0
Routed A = DefaultRouter × Channels × A

-- How the result of a wait becomes a response.
unfoldable pub respond : Uuid → IngressResult ProxyResponse → ProxyResponse
respond id (ok response) = response
respond id (err (timeout _)) = create_error_response id 504 (codes "Gateway Timeout")
respond id (err _) = create_error_response id 503 (codes "Service Unavailable")

-- `meanwhile` is what other tasks do to the router while the request waits, `before_cleanup` what
-- they do after the wait has ended.
unfoldable pub await_forwarded :
    (DefaultRouter → DefaultRouter)
    → (DefaultRouter → DefaultRouter)
    → Uuid
    → Routed (IngressResult Handle)
    → Routed (IngressResult ProxyResponse)
unfolding respond
await_forwarded meanwhile before_cleanup id (r, channels, err _) =
    (r, channels, ok (create_error_response id 503 (codes "Service Unavailable")))
await_forwarded meanwhile before_cleanup id (r, channels, ok response_rx) =
    let (r', outcome) = end_wait response_rx (meanwhile r) in
    let (r'', result) = wait_for_response id outcome (before_cleanup r') in
    (r'', channels, ok (respond id result))

module _ {S : Type 0} (registry : Registry S) where
  -- `asked` and `stored` are the readings of the clock at the lookup and at the write of the cache.
  unfoldable pub find_matching_services :
      SystemTime
      → SystemTime
      → Text
      → S
      → DefaultRouter
      → DefaultRouter × IngressResult (List ServiceRegistration)
  find_matching_services asked stored target_host s r = elim (cache_hit asked target_host r) [
    | some services ↦ (r, ok services)
    | none ↦ elim (registry.get_all_registrations s) [
      | err e ↦ (r, err e)
      | ok registrations ↦
          let matching_services = filter (serves_alone target_host) (values registrations) in
          (put_cache target_host matching_services stored r, ok matching_services)
    ]
  ]

  unfoldable pub select_healthy_service :
      SystemTime → List ServiceRegistration → S → IngressResult (Option ServiceRegistration)
  select_healthy_service now matching_services s = do
    connections ← registry.get_all_connections s
    ok (select_healthy_instance now matching_services connections)

-- The readings of the clocks and of the registry that one call makes, in their order.
pub record Reads (S : Type 0) : Type 0 where
  pub asked : SystemTime
  pub stored : SystemTime
  pub registrations_at : S
  pub now : SystemTime
  pub connections_at : S
  pub senders_at : S

-- `send_error` is the text of tokio's `SendError`.
module _ {S : Type 0} (registry : Registry S) (send_error : Text) where
  -- The receiver that comes back is the channel that this call opened.
  unfoldable pub forward_request :
      ProxyRequest
      → ServiceRegistration
      → S
      → DefaultRouter
      → Channels
      → Routed (IngressResult Handle)
  forward_request request service s r channels =
      let r' = open_pending request.id r in
      elim (registry.get_connection_sender service.id s) [
        | err e ↦ (r', channels, err e)
        | ok none ↦ (
          close_pending request.id r',
          channels,
          err (send_failed (codes "No connection sender found for service")),
        )
        | ok (some sender) ↦ elim (send sender (proxy_request_forward request) channels) [
          | some channels' ↦ (r', channels', ok r.next_handle)
          | none ↦ (
            close_pending request.id r',
            channels,
            err (send_failed (codes "Failed to send request to service: " ++ send_error)),
          )
        ]
      ]

  -- The part of `route_request` behind the selection.
  unfoldable pub dispatch_to :
      (DefaultRouter → DefaultRouter)
      → (DefaultRouter → DefaultRouter)
      → ProxyRequest
      → ServiceRegistration
      → S
      → DefaultRouter
      → Channels
      → Routed (IngressResult ProxyResponse)
  unfolding await_forwarded
  dispatch_to meanwhile before_cleanup request service s r channels =
      await_forwarded meanwhile before_cleanup request.id
        (forward_request request service s r channels)

  -- `route_request` behind its lookup.
  unfoldable pub route_found :
      Reads S
      → (DefaultRouter → DefaultRouter)
      → (DefaultRouter → DefaultRouter)
      → ProxyRequest
      → Channels
      → DefaultRouter × IngressResult (List ServiceRegistration)
      → Routed (IngressResult ProxyResponse)
  route_found at meanwhile before_cleanup request channels (r, err e) = (r, channels, err e)
  route_found at meanwhile before_cleanup request channels (r, ok []) =
      (r, channels, ok (create_error_response request.id 404 (codes "Service Not Found")))
  route_found at meanwhile before_cleanup request channels (r, ok (first ∷ others)) =
      elim (select_healthy_service registry at.now (first ∷ others) at.connections_at) [
        | err e ↦ (r, channels, err e)
        | ok none ↦ (
          r,
          channels,
          ok (create_error_response request.id 503 (codes "No healthy service available")),
        )
        | ok (some service) ↦
            dispatch_to meanwhile before_cleanup request service at.senders_at r channels
      ]

  unfoldable pub route_request :
      Reads S
      → (DefaultRouter → DefaultRouter)
      → (DefaultRouter → DefaultRouter)
      → ProxyRequest
      → DefaultRouter
      → Channels
      → Routed (IngressResult ProxyResponse)
  unfolding route_found
  route_request at meanwhile before_cleanup request r channels =
      route_found at meanwhile before_cleanup request channels (
        find_matching_services registry at.asked at.stored request.target_host at.registrations_at
          r)
