-- ===== src/Client/Exchange.antt =====
-- A request of the load balancer, all the way to the local service and back.
use anywhere_mesh.Base.{
  ℕ, Text, values, is_empty, Option, none, some, true, false, List, [], ◌∷◌, All, Member,
  if◌then◌else◌, ◌≡◌, ◌≤◌, refl, ap, ◌∙◌, nat_eq,
}
use anywhere_mesh.Common.Types.{Uuid, SystemTime, ServiceRegistration, ProxyRequest, ProxyResponse}
use anywhere_mesh.Common.Routing.Hosts.{Serves}
use anywhere_mesh.Common.Routing.Health.{IsAlive}
use anywhere_mesh.Server.Error.{ok}
use anywhere_mesh.Server.Channels.{Channels}
use anywhere_mesh.Server.Libraries.{Libraries}
use anywhere_mesh.Server.Registry.{DefaultRegistry, default_registry}
use anywhere_mesh.Server.Router.{DefaultRouter, cache_hit}
use anywhere_mesh.Server.Router.Pending.{Step, responds, take_steps, IsAllocated, IsForeign}
use anywhere_mesh.Server.Router.Reach.{HasOpenSender, reads_of}
use anywhere_mesh.Server.Http.{HeaderValue, bytes, HttpRequest, request_host}
use anywhere_mesh.Server.Tunnel.{Tunnels}
use anywhere_mesh.Server.Tunnel.Open.{TunnelReads}
use anywhere_mesh.Server.Handlers.{
  proxy_request_of, answer, is_ws_upgrade, is_health_check, handle_alb_request,
}
use anywhere_mesh.Server.Handlers.Reply.{answer_lem, handle_alb_request-reply}
use anywhere_mesh.Client.Proxy.{
  ProxyHandler, answered, readable, response_of, local_request, forward_request, response_or_error,
  handle_request,
}
use anywhere_mesh.Client.Replies.{handle_request-reply}

-- The local service takes the request that the agent makes of the forwarded one, and answers.
pub record IsServed (h : ProxyHandler) (q : ProxyRequest) (status : ℕ)
    (headers : List (Text × HeaderValue)) (b : List ℕ) : Type 0 where
  pub uri : h.uri_error (local_request h q).uri ≡ none
  pub method : h.method_error (local_request h q).method ≡ none
  pub built : h.request_error (local_request h q) ≡ none
  pub local : h.http_client (local_request h q) ≡ answered status headers (bytes b)

module _ (h : ProxyHandler) (q : ProxyRequest) (status : ℕ) (headers : List (Text × HeaderValue))
    (b : List ℕ) (served : IsServed h q status headers b) where
  abbrev from_local : ProxyResponse
  from_local = record {
    id = q.id;
    status_code = status;
    headers = readable headers;
    body = if is_empty b then none else some b;
  }

  handle_request-from_local : handle_request h q ≡ from_local
  unfolding handle_request forward_request response_or_error response_of
  handle_request-from_local =
      rw (served.uri, forward_request) (rw served.method (rw served.built (rw served.local refl)))

body_kept :
    (b : List ℕ) → (elim (if is_empty b then none else some b) [ some x ↦ x | none ↦ [] ]) ≡ b
body_kept [] = refl
body_kept (x ∷ xs) = refl

-- In a router whose pending requests have allocated channels, a plain request, no health check,
-- for a host that is not in the cache and that some registration serves with a live connection,
-- while every registration has an open sender, and whose first answer is the response of an agent
-- that made the forwarded request of its local service, gives the load balancer what the local
-- service answered, its status, its readable headers in order, and its body, if that status has
-- three digits and these headers are valid, and other tasks work on other requests and channels.
pub handle_alb_request-exchange :
    (lib : Libraries) (s : DefaultRegistry) (setting : Option Text)
    (tunnel_at : TunnelReads DefaultRegistry) (after_send after_session : Tunnels → Tunnels)
    (asked stored now : SystemTime) (id : Uuid) (req : HttpRequest) (body : List ℕ) (t : Tunnels)
    (r : DefaultRouter) (channels : Channels) (g : ServiceRegistration) (later late : List Step)
    (h : ProxyHandler) (status : ℕ) (headers : List (Text × HeaderValue)) (b : List ℕ)
    → is_ws_upgrade setting req ≡ false
    → is_health_check req ≡ false
    → req.body ≡ bytes body
    → IsAllocated r
    → cache_hit asked (request_host req) r ≡ none
    → Member g (values s.registrations)
    → Serves (request_host req) g
    → IsAlive now s.connections g
    → ((p : ServiceRegistration) → Member p (values s.registrations) → HasOpenSender s channels p)
    → All (IsForeign id r.next_handle) later
    → All (IsForeign id r.next_handle) late
    → IsServed h (proxy_request_of id req body) status headers b
    → 100 ≤ status
    → status ≤ 999
    → All (λ (name, value). lib.valid_header name value ≡ true) (readable headers)
    → (handle_alb_request lib default_registry setting tunnel_at
        (reads_of asked stored now s)
        after_send
        after_session
        (take_steps (responds (handle_request h (proxy_request_of id req body)) ∷ later))
        (take_steps late)
        id
        req
        t
        r
        channels).1.2
      ≡ record { status = status; headers = readable headers; body = b }
unfolding proxy_request_of
handle_alb_request-exchange lib s setting tunnel_at after_send after_session asked stored now id req
      body t r channels g later late h status headers b plain_http no_check read v missed among
      serves alive reachable fd fl served least most valid =
    let q = proxy_request_of id req body in
    let (told, gone, kept) =
      handle_alb_request-reply lib s setting tunnel_at after_send after_session asked stored now id
        req body t r channels g (responds (handle_request h q) ∷ later) late plain_http no_check
        read v missed among serves alive reachable (tt, fd) fl in
    let own = handle_request-from_local h q status headers b served in
    told
    ∙ ap (λ p. answer lib (ok p)) (handle_request-reply h q later ∙ own)
    ∙ answer_lem lib (from_local h q status headers b served) least most valid
    ∙ ap (λ x. record { status = status; headers = readable headers; body = x }) (body_kept b)
