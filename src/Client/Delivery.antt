-- ===== src/Client/Delivery.antt =====
-- From an agent's introduction to what its local service answers the load balancer.
use anywhere_mesh.Base.{
  ℕ, ◌+◌, ◌*◌, ◌≤◌, ◌<◌, ◌≡◌, Text, get, values, nat_eq, none, some, true, false, Option, List, [],
  ◌∷◌, All, Member,
}
use anywhere_mesh.Common.Types.{
  Uuid, SystemTime, nanos_per_sec, ServiceRegistration, IngressMessage, iam_auth,
  service_registration, heart_beat,
}
use anywhere_mesh.Common.Auth.{IamAuthRequest}
use anywhere_mesh.Common.Routing.Hosts.{Serves}
use anywhere_mesh.Server.Channels.{Sender, Channel}
use anywhere_mesh.Server.Libraries.{Libraries}
use anywhere_mesh.Server.Registry.{DefaultRegistry, default_registry, info_of}
use anywhere_mesh.Server.Dispatcher.{Ingress, AuthService}
use anywhere_mesh.Server.Router.{cache_hit}
use anywhere_mesh.Server.Router.Pending.{Step, responds, take_steps, IsAllocated, IsForeign}
use anywhere_mesh.Server.Router.Reach.{HasOpenSender, reads_of}
use anywhere_mesh.Server.Http.{HeaderValue, bytes, HttpRequest, HttpResponse, request_host}
use anywhere_mesh.Server.Tunnel.{Tunnels}
use anywhere_mesh.Server.Tunnel.Open.{TunnelReads}
use anywhere_mesh.Server.Handlers.{
  proxy_request_of, is_ws_upgrade, is_health_check, handle_alb_request,
}
use anywhere_mesh.Client.Proxy.{ProxyHandler, readable, handle_request}
use anywhere_mesh.Client.Introduction.{IsIntroduced, take_all, take_all-beaten, beaten-IsIntroduced}
use anywhere_mesh.Client.Reach.{own-Member, reachable}
use anywhere_mesh.Client.Exchange.{IsServed, handle_alb_request-exchange}

module _ (lib : Libraries) (auth : AuthService) (clock : ℕ → SystemTime) (id : Uuid) (tx : Sender)
    (c : Channel IngressMessage) (q : IamAuthRequest) (w : Ingress DefaultRegistry)
    (is_known : get id w.state.connection_senders ≡ some tx) (is_found : get tx w.channels ≡ some c)
    (alive : c.receiver_alive ≡ true) (g : ServiceRegistration) (setting : Option Text)
    (tunnel_at : TunnelReads DefaultRegistry) (after_send after_session : Tunnels → Tunnels)
    (asked stored now : SystemTime) (request_id : Uuid) (req : HttpRequest) (body : List ℕ)
    (t : Tunnels) (later late : List Step) (h : ProxyHandler) (status : ℕ)
    (headers : List (Text × HeaderValue)) (b : List ℕ) where
  -- What the load balancer is answered when the agent's response is the first.
  abbrev delivered_by : Ingress DefaultRegistry → HttpResponse
  delivered_by after =
      (handle_alb_request lib default_registry setting tunnel_at
        (reads_of asked stored now after.state) after_send after_session
        (take_steps (responds (handle_request h (proxy_request_of request_id req body)) ∷ later))
        (take_steps late) request_id req t after.router after.channels).1.2

  -- Behind the introduction.
  introduced-delivers :
      (after : Ingress DefaultRegistry)
      → IsIntroduced lib auth clock id tx c q w is_known is_found alive g after
      → is_ws_upgrade setting req ≡ false
      → is_health_check req ≡ false
      → req.body ≡ bytes body
      → IsAllocated w.router
      → cache_hit asked (request_host req) w.router ≡ none
      → Serves (request_host req) g
      → clock 2 ≤ now
      → now < clock 2 + 60 * nanos_per_sec
      → ((r : ServiceRegistration)
          → Member r (values w.state.registrations)
          → HasOpenSender w.state w.channels r)
      → All (IsForeign request_id w.router.next_handle) later
      → All (IsForeign request_id w.router.next_handle) late
      → IsServed h (proxy_request_of request_id req body) status headers b
      → 100 ≤ status
      → status ≤ 999
      → All (λ (name, value). lib.valid_header name value ≡ true) (readable headers)
      → delivered_by after ≡ record { status = status; headers = readable headers; body = b }
  introduced-delivers after introduced plain_http no_check read v missed serves past before
        open_senders fd fl served least most valid =
      rw introduced.router (
        handle_alb_request-exchange lib after.state setting tunnel_at after_send after_session asked
          stored now request_id req body t w.router after.channels (record g { id = id }) later late
          h status headers b plain_http no_check read v missed
          (own-Member lib auth clock id tx c q w is_known is_found alive g after introduced) serves
          (info_of id g (clock 2), introduced.connection, past, before)
          (reachable lib auth clock id tx c q w is_known is_found alive g after introduced
            open_senders)
          fd fl served least most valid)

  -- Behind an agent's request for authentication, registration and heartbeat on a connection with an
  -- open channel, a plain request of the load balancer for a host that the registration serves,
  -- which is no health check and whose first answer is what the agent makes of the forwarded
  -- request, is answered with the status, the readable headers and the body that the agent's local
  -- service gave, if that status has three digits and these headers are valid, the heartbeat came
  -- less than 60 seconds before, the host is not in the cache, the registrations before had open
  -- senders, pending requests have allocated channels, and other tasks work on other requests and
  -- channels.
  pub take_all-delivers :
      (cluster_name : Text) (client_id : Uuid)
      → is_ws_upgrade setting req ≡ false
      → is_health_check req ≡ false
      → req.body ≡ bytes body
      → IsAllocated w.router
      → cache_hit asked (request_host req) w.router ≡ none
      → Serves (request_host req) g
      → clock 2 ≤ now
      → now < clock 2 + 60 * nanos_per_sec
      → ((r : ServiceRegistration)
          → Member r (values w.state.registrations)
          → HasOpenSender w.state w.channels r)
      → All (IsForeign request_id w.router.next_handle) later
      → All (IsForeign request_id w.router.next_handle) late
      → IsServed h (proxy_request_of request_id req body) status headers b
      → 100 ≤ status
      → status ≤ 999
      → All (λ (name, value). lib.valid_header name value ≡ true) (readable headers)
      → let after =
          take_all lib auth clock id 0
            (iam_auth q ∷ service_registration g ∷ heart_beat cluster_name client_id ∷ [])
            w in
        (handle_alb_request lib default_registry setting tunnel_at
          (reads_of asked stored now after.state)
          after_send
          after_session
          (take_steps (responds (handle_request h (proxy_request_of request_id req body)) ∷ later))
          (take_steps late)
          request_id
          req
          t
          after.router
          after.channels).1.2
        ≡ record { status = status; headers = readable headers; body = b }
  take_all-delivers cluster_name client_id =
      introduced-delivers
        (take_all lib auth clock id 0
          (iam_auth q ∷ service_registration g ∷ heart_beat cluster_name client_id ∷ []) w)
        (rw
          (take_all-beaten lib auth clock id tx c q w is_known is_found alive g cluster_name
            client_id)
          (beaten-IsIntroduced lib auth clock id tx c q w is_known is_found alive g cluster_name
            client_id))
