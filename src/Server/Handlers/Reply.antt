-- ===== src/Server/Handlers/Reply.antt =====
-- A load balancer's request and the agent's response to it, end to end.
use anywhere_mesh.Base.{
  ℕ, Text, get, values, any, not, ltb, Option, none, some, true, false, List, [], ◌∷◌, All, Member,
  ◌≡◌, ◌≤◌, refl, ap, arith, nat_eq,
}
use anywhere_mesh.Common.Types.{Uuid, SystemTime, ServiceRegistration, ProxyResponse}
use anywhere_mesh.Common.Routing.Hosts.{Serves}
use anywhere_mesh.Common.Routing.Health.{IsAlive}
use anywhere_mesh.Server.Error.{ok}
use anywhere_mesh.Server.Channels.{Channels}
use anywhere_mesh.Server.Libraries.{Libraries}
use anywhere_mesh.Server.Registry.{Registry, DefaultRegistry, default_registry}
use anywhere_mesh.Server.Router.{DefaultRouter, cache_hit}
use anywhere_mesh.Server.Router.Route.{Reads, route_request}
use anywhere_mesh.Server.Router.Pending.{Step, take_steps, IsAllocated, IsForeign, first_answer}
use anywhere_mesh.Server.Router.Answers.{reply}
use anywhere_mesh.Server.Router.Reach.{HasOpenSender, reads_of, route_request-reply}
use anywhere_mesh.Server.Http.{bytes, HttpRequest, request_host, build_response}
use anywhere_mesh.Server.Tunnel.{Tunnels}
use anywhere_mesh.Server.Tunnel.Open.{TunnelReads}
use anywhere_mesh.Server.Handlers.{
  proxy_request_of, answer, process_body, process_alb_request, is_ws_upgrade, is_health_check,
  handle_alb_request,
}

-- The body of a response, empty if it has none.
abbrev pub body_of : ProxyResponse → List ℕ
body_of response = elim response.body [ some b ↦ b | none ↦ [] ]

no_invalid :
    (lib : Libraries) (headers : List (Text × Text))
    → All (λ (name, value). lib.valid_header name value ≡ true) headers
    → any (λ (name, value). not (lib.valid_header name value)) headers ≡ false
no_invalid lib [] v = refl
no_invalid lib ((name, value) ∷ headers) v =
    let rest = no_invalid lib headers v.1 in ground (arith, v.0)

-- A response with a status of three digits and valid headers reaches the load balancer as it is: its
-- status, every header in order, and its body.
pub answer_lem :
    (lib : Libraries) (response : ProxyResponse)
    → 100 ≤ response.status_code
    → response.status_code ≤ 999
    → All (λ (name, value). lib.valid_header name value ≡ true) response.headers
    → answer lib (ok response) ≡ record {
      status = response.status_code;
      headers = response.headers;
      body = body_of response;
    }
unfolding answer build_response
answer_lem lib response least most valid =
    let good = no_invalid lib response.headers valid in
    let no_less : ltb response.status_code 100 ≡ false = ground arith in
    let no_more : ltb 999 response.status_code ≡ false = ground arith in
    rw (no_less, answer, build_response) (rw (no_more, good))

module _ {S : Type 0} (lib : Libraries) (registry : Registry S) where
  forwards :
      (setting : Option Text) (tunnel_at : TunnelReads S) (at : Reads S)
      (after_send after_session : Tunnels → Tunnels)
      (meanwhile before_cleanup : DefaultRouter → DefaultRouter) (id : Uuid) (req : HttpRequest)
      (body : List ℕ) (t : Tunnels) (r : DefaultRouter) (channels : Channels)
      → is_ws_upgrade setting req ≡ false
      → is_health_check req ≡ false
      → req.body ≡ bytes body
      → let routed =
          route_request registry lib.send_error at meanwhile before_cleanup
            (proxy_request_of id req body)
            r
            channels in
        handle_alb_request lib registry setting tunnel_at at after_send after_session meanwhile
          before_cleanup id req t r channels
        ≡ (t, (routed.0, routed.1, answer lib routed.2))
  unfolding handle_alb_request process_alb_request process_body
  forwards setting tunnel_at at after_send after_session meanwhile before_cleanup id req body t r
        channels plain_http no_check read =
      rw (plain_http, handle_alb_request)
        (rw no_check (
          ap (λ b. (t, process_body lib registry at meanwhile before_cleanup id req b r channels))
            read))

-- In a router whose pending requests have allocated channels, a plain request, no health check,
-- for a host that is not in the cache and that some registration serves with a live connection,
-- while every registration has an open sender, is answered with what the first response with the
-- request's id says, or with 504 if none came while it waited, where other tasks work on other
-- requests and channels. The request is then not pending, and no tunnel is touched.
pub handle_alb_request-reply :
    (lib : Libraries) (s : DefaultRegistry) (setting : Option Text)
    (tunnel_at : TunnelReads DefaultRegistry) (after_send after_session : Tunnels → Tunnels)
    (asked stored now : SystemTime) (id : Uuid) (req : HttpRequest) (body : List ℕ) (t : Tunnels)
    (r : DefaultRouter) (channels : Channels) (g : ServiceRegistration) (during late : List Step)
    → is_ws_upgrade setting req ≡ false
    → is_health_check req ≡ false
    → req.body ≡ bytes body
    → IsAllocated r
    → cache_hit asked (request_host req) r ≡ none
    → Member g (values s.registrations)
    → Serves (request_host req) g
    → IsAlive now s.connections g
    → ((q : ServiceRegistration) → Member q (values s.registrations) → HasOpenSender s channels q)
    → All (IsForeign id r.next_handle) during
    → All (IsForeign id r.next_handle) late
    → let out =
        handle_alb_request lib default_registry setting tunnel_at
          (reads_of asked stored now s)
          after_send
          after_session
          (take_steps during)
          (take_steps late)
          id
          req
          t
          r
          channels in
      (out.1.2 ≡ answer lib (ok (reply id (first_answer id none during))))
      × (get id out.1.0.pending_requests ≡ none)
      × (out.0 ≡ t)
unfolding proxy_request_of
handle_alb_request-reply lib s setting tunnel_at after_send after_session asked stored now id req
      body t r channels g during late plain_http no_check read v missed among serves alive reachable
      fd fl =
    let (told, cleaned) =
      route_request-reply lib.send_error s asked stored now (proxy_request_of id req body) r
        channels g during late v missed among serves alive reachable fd fl in
    rw
      (forwards lib default_registry setting tunnel_at (reads_of asked stored now s) after_send
        after_session (take_steps during) (take_steps late) id req body t r channels plain_http
        no_check read)
      (ap (answer lib) told, cleaned, refl)
