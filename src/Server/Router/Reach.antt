-- ===== src/Server/Router/Reach.antt =====
-- From a live registration to an answer: the whole of `route_request` over the default registry.
use anywhere_mesh.Base.{
  ◌≡◌, refl, ap, nat_eq, Text, get, values, none, some, List, [], ◌∷◌, All, Member,
}
use anywhere_mesh.Common.Types.{
  SystemTime, ServiceRegistration, ProxyRequest, proxy_request_forward,
}
use anywhere_mesh.Common.Routing.Hosts.{Serves}
use anywhere_mesh.Common.Routing.Health.{IsAlive, select_healthy_instance-exists}
use anywhere_mesh.Server.Error.{ok}
use anywhere_mesh.Server.Channels.{Channels, Sender, IsOpen, send-IsOpen}
use anywhere_mesh.Server.Registry.{
  DefaultRegistry, default_registry, get_connection_sender, get_all_connections,
  get_all_registrations,
}
use anywhere_mesh.Server.Router.{DefaultRouter, cache_hit, put_cache}
use anywhere_mesh.Server.Router.Route.{
  Reads, find_matching_services, select_healthy_service, dispatch_to, route_found, route_request,
}
use anywhere_mesh.Server.Router.Cache.{find_matching_services-Serves}
use anywhere_mesh.Server.Router.Pending.{Step, take_steps, IsAllocated, IsForeign, first_answer}
use anywhere_mesh.Server.Router.Answers.{reply, dispatch_to-reply}

-- The registration's connection has a sender whose receiver is there.
abbrev pub HasOpenSender : DefaultRegistry → Channels → ServiceRegistration → Type 0
HasOpenSender s channels g =
    (sender : Sender) × (get g.id s.connection_senders ≡ some sender) × IsOpen sender channels

-- One state of the registry for all the reads of a call.
abbrev pub reads_of : SystemTime → SystemTime → SystemTime → DefaultRegistry → Reads DefaultRegistry
reads_of asked stored now s = record {
  asked = asked;
  stored = stored;
  registrations_at = s;
  now = now;
  connections_at = s;
  senders_at = s;
}

module _ (send_error : Text) (s : DefaultRegistry) where
  selects :
      (now : SystemTime) (g : ServiceRegistration) (found : List ServiceRegistration)
      → Member g found
      → IsAlive now s.connections g
      → (q : ServiceRegistration) × (select_healthy_service default_registry now found s
          ≡ ok (some q))
        × Member q found
  unfolding select_healthy_service get_all_connections
  selects now g found among alive =
      let (q, selected, m, _) =
        select_healthy_instance-exists now found s.connections g among alive in
      (q, ap (λ o. ok o) selected, m)

  -- The continuation of `route_request` once the lookup and the selection have answered.
  routes :
      (at : Reads DefaultRegistry) (m l : DefaultRouter → DefaultRouter) (request : ProxyRequest)
      (r r' : DefaultRouter) (channels : Channels) (found : List ServiceRegistration)
      (g q : ServiceRegistration)
      → find_matching_services default_registry at.asked at.stored request.target_host
          at.registrations_at r
        ≡ (r', ok found)
      → Member g found
      → select_healthy_service default_registry at.now found at.connections_at ≡ ok (some q)
      → route_request default_registry send_error at m l request r channels
        ≡ dispatch_to default_registry send_error m l request q at.senders_at r' channels
  unfolding route_request route_found
  routes at m l request r r' channels [] g q looked among selected = absurd among
  routes at m l request r r' channels (f ∷ fs) g q looked among selected =
      rw looked (rw (selected, route_found))

  -- If every pending request of the router has an allocated channel, the host is not in the cache,
  -- some registration serves it with a live connection, and every registration has an open sender,
  -- then the request is answered with the first response that carries its id among what other
  -- tasks did while it waited, and with 504 if there was none, where these tasks work on other
  -- requests and channels. Afterwards it is not pending.
  pub route_request-reply :
      (asked stored now : SystemTime) (request : ProxyRequest) (r : DefaultRouter)
      (channels : Channels) (g : ServiceRegistration) (during late : List Step)
      → IsAllocated r
      → cache_hit asked request.target_host r ≡ none
      → Member g (values s.registrations)
      → Serves request.target_host g
      → IsAlive now s.connections g
      → ((q : ServiceRegistration) → Member q (values s.registrations) → HasOpenSender s channels q)
      → All (IsForeign request.id r.next_handle) during
      → All (IsForeign request.id r.next_handle) late
      → let out =
          route_request default_registry send_error
            (reads_of asked stored now s)
            (take_steps during)
            (take_steps late)
            request
            r
            channels in
        (out.2 ≡ ok (reply request.id (first_answer request.id none during)))
        × (get request.id out.0.pending_requests ≡ none)
  unfolding get_connection_sender get_all_registrations put_cache
  route_request-reply asked stored now request r channels g during late v missed among serves alive
        reachable fd fl =
      let (found, looked, exactly) =
        find_matching_services-Serves default_registry asked stored request.target_host s r
          s.registrations missed refl in
      let g_found = (exactly g).1 (among, serves) in
      let (q, selected, q_found) = selects now g found g_found alive in
      let (sender, has, listens) = reachable q ((exactly q).0 q_found).0 in
      let (after, sent) = send-IsOpen sender (proxy_request_forward request) channels listens in
      let v' : IsAllocated (put_cache request.target_host found stored r) = record {
        below = v.below;
      } in
      let (answer, cleaned, _) =
        dispatch_to-reply default_registry send_error request q s
          (put_cache request.target_host found stored r) channels after sender during late v'
          (ap (λ o. ok o) has) sent fd fl in
      rw
        (routes (reads_of asked stored now s) (take_steps during) (take_steps late) request r
          (put_cache request.target_host found stored r) channels found g q looked g_found selected)
        (answer, cleaned)
