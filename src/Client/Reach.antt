-- ===== src/Client/Reach.antt =====
-- From an agent's introduction to an answer of the load balancer's request.
use anywhere_mesh.Base.{
  ℕ, ◌+◌, ◌*◌, ◌≤◌, ◌<◌, ◌≡◌, refl, Text, HashMap, get, insert, remove, values, nat_eq, nat_beq,
  Bool-cases, none, some, true, List, [], ◌∷◌, All, Member, inl, inr,
}
use anywhere_mesh.Common.Types.{
  Uuid, SystemTime, nanos_per_sec, ServiceRegistration, ProxyRequest, IngressMessage, iam_auth,
  service_registration, heart_beat,
}
use anywhere_mesh.Common.Auth.{IamAuthRequest}
use anywhere_mesh.Common.Routing.Hosts.{Serves}
use anywhere_mesh.Server.Error.{ok}
use anywhere_mesh.Server.Channels.{Sender, Channel}
use anywhere_mesh.Server.Libraries.{Libraries}
use anywhere_mesh.Server.Registry.{DefaultRegistry, default_registry, info_of}
use anywhere_mesh.Server.Dispatcher.{Ingress, AuthService}
use anywhere_mesh.Server.Router.{cache_hit}
use anywhere_mesh.Server.Router.Route.{route_request}
use anywhere_mesh.Server.Router.Pending.{Step, take_steps, IsAllocated, IsForeign, first_answer}
use anywhere_mesh.Server.Router.Answers.{reply}
use anywhere_mesh.Server.Router.Reach.{HasOpenSender, reads_of, route_request-reply}
use anywhere_mesh.Client.Introduction.{IsIntroduced, take_all, take_all-beaten, beaten-IsIntroduced}

kept-Member :
    {V : Type 0} (id : Uuid) (v : V) (m : HashMap Uuid V)
    → Member v (values (remove id m))
    → Member v (values m)
unfolding values remove
kept-Member id v [] among = among
kept-Member id v ((j, w) ∷ m) among = elim (Bool-cases (nat_beq j id)) [
  | inl e ↦ inr (kept-Member id v m (rw (e, remove) at among))
  | inr e ↦ either (kept-Member id v m) (rw (e, remove) at among)
]
  where
    either :
        (Member v (values (remove id m)) → Member v (values m))
        → Member v (w ∷ values (remove id m))
        → Member v (w ∷ values m)
    either later (inl same) = inl same
    either later (inr among') = inr (later among')

module _ (lib : Libraries) (auth : AuthService) (clock : ℕ → SystemTime) (id : Uuid) (tx : Sender)
    (c : Channel IngressMessage) (q : IamAuthRequest) (w : Ingress DefaultRegistry)
    (is_known : get id w.state.connection_senders ≡ some tx) (is_found : get tx w.channels ≡ some c)
    (alive : c.receiver_alive ≡ true) (g : ServiceRegistration) where
  module _ (after : Ingress DefaultRegistry)
      (introduced : IsIntroduced lib auth clock id tx c q w is_known is_found alive g after) where
    abbrev pub own : ServiceRegistration
    own = record g { id = id }

    pub own-Member : Member own (values after.state.registrations)
    unfolding values insert
    own-Member = rw introduced.registrations (inl refl)

    pub reachable :
        ((r : ServiceRegistration)
          → Member r (values w.state.registrations)
          → HasOpenSender w.state w.channels r)
        → (r : ServiceRegistration) → Member r (values after.state.registrations)
        → HasOpenSender after.state after.channels r
    unfolding values insert
    reachable before r among = by_entry (rw introduced.registrations at among)
      where
        by_entry :
            Member r (own ∷ values (remove id w.state.registrations))
            → HasOpenSender after.state after.channels r
        by_entry (inl same) =
            rw same (tx, rw introduced.senders is_known, introduced.opens tx (c, is_found, alive))
        by_entry (inr among') =
            let (sender, has, open_s) = before r (kept-Member id r w.state.registrations among') in
            (sender, rw introduced.senders has, introduced.opens sender open_s)

    -- The route of a request to the agent, behind its introduction.
    introduced-reply :
        (asked stored now : SystemTime) (request : ProxyRequest) (during late : List Step)
        → IsAllocated w.router
        → cache_hit asked request.target_host w.router ≡ none
        → Serves request.target_host g
        → clock 2 ≤ now
        → now < clock 2 + 60 * nanos_per_sec
        → ((r : ServiceRegistration)
            → Member r (values w.state.registrations)
            → HasOpenSender w.state w.channels r)
        → All (IsForeign request.id w.router.next_handle) during
        → All (IsForeign request.id w.router.next_handle) late
        → let out =
            route_request default_registry lib.send_error
              (reads_of asked stored now after.state)
              (take_steps during)
              (take_steps late)
              request
              after.router
              after.channels in
          (out.2 ≡ ok (reply request.id (first_answer request.id none during)))
          × (get request.id out.0.pending_requests ≡ none)
    introduced-reply asked stored now request during late v missed serves past before open_senders
          fd fl =
        rw introduced.router (
          route_request-reply lib.send_error after.state asked stored now request w.router
            after.channels own during late v missed own-Member serves
            (info_of id g (clock 2), introduced.connection, past, before) (reachable open_senders)
            fd fl)

  -- Behind an agent's request for authentication, registration and heartbeat on a connection with
  -- an open channel, a request for a host that the registration serves is answered with the first
  -- response that carries its id among what other tasks did while it waited, and with 504 if
  -- there was none, and is not pending afterwards, if the heartbeat came less than 60 seconds before,
  -- the host is not in the cache, the registrations before had open senders, pending requests
  -- have allocated channels, and other tasks work on other requests and channels.
  pub take_all-reply :
      (cluster_name : Text) (client_id : Uuid) (asked stored now : SystemTime)
      (request : ProxyRequest) (during late : List Step)
      → IsAllocated w.router
      → cache_hit asked request.target_host w.router ≡ none
      → Serves request.target_host g
      → clock 2 ≤ now
      → now < clock 2 + 60 * nanos_per_sec
      → ((r : ServiceRegistration)
          → Member r (values w.state.registrations)
          → HasOpenSender w.state w.channels r)
      → All (IsForeign request.id w.router.next_handle) during
      → All (IsForeign request.id w.router.next_handle) late
      → let after =
          take_all lib auth clock id 0
            (iam_auth q ∷ service_registration g ∷ heart_beat cluster_name client_id ∷ [])
            w in
        let out =
          route_request default_registry lib.send_error
            (reads_of asked stored now after.state)
            (take_steps during)
            (take_steps late)
            request
            after.router
            after.channels in
        (out.2 ≡ ok (reply request.id (first_answer request.id none during)))
        × (get request.id out.0.pending_requests ≡ none)
  take_all-reply cluster_name client_id =
      introduced-reply
        (take_all lib auth clock id 0
          (iam_auth q ∷ service_registration g ∷ heart_beat cluster_name client_id ∷ []) w)
        (rw
          (take_all-beaten lib auth clock id tx c q w is_known is_found alive g cluster_name
            client_id)
          (beaten-IsIntroduced lib auth clock id tx c q w is_known is_found alive g cluster_name
            client_id))
