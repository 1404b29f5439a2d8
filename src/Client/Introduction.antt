-- ===== src/Client/Introduction.antt =====
-- What the ingress makes of an agent's first messages.
use anywhere_mesh.Base.{
  ℕ, Text, suc, ◌≡◌, refl, ap, ◌∙◌, codes, get, insert, nat_eq, get-insert_self, get-insert, some,
  true, List, ◌==◌, Bool-cases, inl, inr, arith, [], ◌∷◌, ◌++◌,
}
use mathlib.Core.List.{append_assoc}
use anywhere_mesh.Common.Types.{
  Uuid, SystemTime, ServiceRegistration, IngressMessage, iam_auth, iam_auth_response,
  service_registration, registration_ack, heart_beat,
}
use anywhere_mesh.Common.Auth.{IamAuthRequest}
use anywhere_mesh.Server.Error.{ok}
use anywhere_mesh.Server.Channels.{Sender, Channel, Channels, queued, IsOpen}
use anywhere_mesh.Server.Libraries.{Libraries}
use anywhere_mesh.Server.Registry.{
  DefaultRegistry, default_registry, info_of, get_connection_sender, register_service,
  put_registration, put_connection,
}
use anywhere_mesh.Server.Registry.Calls.{update_heartbeat_lem}
use anywhere_mesh.Server.Tunnel.Frames.{extended, send_open}
use anywhere_mesh.Server.Dispatcher.{
  Ingress, AuthService, dispatch, handle_iam_auth, handle_heartbeat, handle_service_registration,
  acknowledgment,
}
use anywhere_mesh.Server.Dispatcher.Replies.{send_response-sent, dispatch_registers}
use anywhere_mesh.Client.Sessions.{Connect}
use anywhere_mesh.Client.Identity
use anywhere_mesh.Client.Identity.{EcsAnywhereClient, auth_request, heartbeat}
use anywhere_mesh.Client.Connection.{Attempt, connect_and_handle}
use anywhere_mesh.Client.Extends.{Extends}
use anywhere_mesh.Client.Handshake.{IsSmooth, IsTold, introduction, connect_and_handle-introduction}
use anywhere_mesh.Client.Heartbeats.{one_beat}

module _ (lib : Libraries) (auth : AuthService) (clock : ℕ → SystemTime) (id : Uuid) where
  -- The ingress takes an agent's messages, one at each reading of the clock.
  unfoldable pub take_all :
      ℕ → List IngressMessage → Ingress DefaultRegistry → Ingress DefaultRegistry
  take_all k [] w = w
  take_all k (m ∷ ms) w =
      take_all (suc k) ms (dispatch lib default_registry auth (clock k) id m w).0

  module _ (tx : Sender) (c : Channel IngressMessage) (q : IamAuthRequest)
      (w : Ingress DefaultRegistry) (is_known : get id w.state.connection_senders ≡ some tx)
      (is_found : get tx w.channels ≡ some c) (alive : c.receiver_alive ≡ true) where
    abbrev told : Ingress DefaultRegistry
    told = record w {
      channels = insert tx (extended c (iam_auth_response (auth q) ∷ [])) w.channels;
    }

    dispatch_authenticates :
        (dispatch lib default_registry auth (clock 0) id (iam_auth q) w).0 ≡ told
    unfolding dispatch handle_iam_auth get_connection_sender
    dispatch_authenticates =
        ap (λ h. h.0)
          (send_response-sent lib default_registry id (iam_auth_response (auth q)) w tx _
            (ap (λ o. ok o) is_known)
            (send_open tx (iam_auth_response (auth q)) w.channels c is_found alive))

    queued_told : queued tx told.channels ≡ c.queue ++ (iam_auth_response (auth q) ∷ [])
    unfolding queued
    queued_told =
        rw (get-insert_self tx (extended c (iam_auth_response (auth q) ∷ [])) w.channels, queued)
          refl

    told_listens : IsOpen tx told.channels
    told_listens =
        (_, get-insert_self tx (extended c (iam_auth_response (auth q) ∷ [])) w.channels, alive)

    -- What the ingress and the agent's channel have behind the three messages.
    pub record IsIntroduced (g : ServiceRegistration) (after : Ingress DefaultRegistry)
        : Type 0 where
      pub registration : get id after.state.registrations ≡ some (record g { id = id })
      pub connection : get id after.state.connections ≡ some (info_of id g (clock 2))
      pub answers :
          queued tx after.channels
          ≡ c.queue
            ++ (iam_auth_response (auth q)
                ∷ registration_ack id true (codes "Service registered successfully")
                ∷ [])
      pub registrations :
          after.state.registrations ≡ insert id (record g { id = id }) w.state.registrations
      pub senders : after.state.connection_senders ≡ w.state.connection_senders
      pub router : after.router ≡ w.router
      pub opens : (s : Sender) → IsOpen s w.channels → IsOpen s after.channels

    abbrev acknowledged : ServiceRegistration → Ingress DefaultRegistry
    acknowledged g = record told {
      state = (register_service id g (clock 1) w.state).0;
      channels =
          insert tx
            (extended (extended c (iam_auth_response (auth q) ∷ []))
              (registration_ack id true (codes "Service registered successfully") ∷ []))
            told.channels;
    }

    abbrev registered : ServiceRegistration → Ingress DefaultRegistry
    registered g = (dispatch lib default_registry auth (clock 1) id (service_registration g) told).0

    pub beaten : ServiceRegistration → Text → Uuid → Ingress DefaultRegistry
    beaten g cluster_name client_id =
        (dispatch lib default_registry auth (clock 2) id (heart_beat cluster_name client_id)
          (registered g)).0

    dispatch_acknowledges : (g : ServiceRegistration) → registered g ≡ acknowledged g
    unfolding dispatch handle_service_registration acknowledgment register_service put_registration
        put_connection get_connection_sender
    dispatch_acknowledges g =
        ap (λ h. h.0)
          (send_response-sent lib default_registry id
            (registration_ack id true (codes "Service registered successfully"))
            (record told { state = (register_service id g (clock 1) w.state).0 }) tx _
            (ap (λ o. ok o) is_known)
            (send_open tx _ told.channels (extended c (iam_auth_response (auth q) ∷ []))
              (get-insert_self tx (extended c (iam_auth_response (auth q) ∷ [])) w.channels) alive))

    insert-IsOpen :
        (s : Sender) (d : Channel IngressMessage) (channels : Channels)
        → d.receiver_alive ≡ true
        → IsOpen s channels
        → IsOpen s (insert tx d channels)
    insert-IsOpen s d channels live (e, found, open_e) = elim (Bool-cases (tx == s)) [
      | inl same ↦ (d, ground (arith, get-insert tx s d channels, same), live)
      | inr other ↦ (e, ground (arith, get-insert tx s d channels, other, found), open_e)
    ]

    still-IsOpen :
        (g : ServiceRegistration) (s : Sender)
        → IsOpen s w.channels
        → IsOpen s (registered g).channels
    still-IsOpen g s was_open =
        rw (dispatch_acknowledges g)
          (insert-IsOpen s _ told.channels alive (insert-IsOpen s _ w.channels alive was_open))

    pub take_all-beaten :
        (g : ServiceRegistration) (cluster_name : Text) (client_id : Uuid)
        → take_all 0
            (iam_auth q ∷ service_registration g ∷ heart_beat cluster_name client_id ∷ [])
            w
          ≡ beaten g cluster_name client_id
    unfolding take_all beaten
    take_all-beaten g cluster_name client_id =
        ap (λ w1. take_all 1 (service_registration g ∷ heart_beat cluster_name client_id ∷ []) w1)
          dispatch_authenticates

    pub beaten-IsIntroduced :
        (g : ServiceRegistration) (cluster_name : Text) (client_id : Uuid)
        → IsIntroduced g (beaten g cluster_name client_id)
    unfolding beaten dispatch handle_heartbeat register_service put_registration put_connection
    beaten-IsIntroduced g cluster_name client_id =
        let (fine, registration, connection, ack) =
          dispatch_registers lib auth (clock 1) id g told tx is_known told_listens in
        let r = (registered g).state in
        record {
          registration =
              ap (λ m. get id m) (update_heartbeat_lem id id (clock 2) r).2 ∙ registration;
          connection = one_beat id clock (clock 2) r (info_of id g (clock 1)) connection;
          answers =
              ack
              ∙ ap
                  (λ ms.
                    ms ++ (registration_ack id true (codes "Service registered successfully") ∷ []))
                  queued_told
              ∙ append_assoc c.queue (iam_auth_response (auth q) ∷ []) _;
          registrations =
              (update_heartbeat_lem id id (clock 2) r).2
              ∙ ap (λ i. i.state.registrations) (dispatch_acknowledges g);
          senders =
              (update_heartbeat_lem id id (clock 2) r).3
              ∙ ap (λ i. i.state.connection_senders) (dispatch_acknowledges g);
          router = ap (λ i. i.router) (dispatch_acknowledges g);
          opens = still-IsOpen g;
        }

-- If neither the connection nor a send of the agent fails up to its first turn, and the ingress,
-- where the agent's connection has an open channel, accepts its request and the agent reads that, then
-- the agent sends its request, its registration and a heartbeat first, and by them the ingress
-- stores the registration under the connection's id with the time of the heartbeat, queues for
-- the agent the answer and the acknowledgment, in this order, and changes no other registration,
-- no sender, not the router and closes no channel.
pub connect_and_handle_introduces :
    (lib : Libraries) (connect : Connect) (self : EcsAnywhereClient) (a : Attempt)
    (channels : Channels) (auth : AuthService) (clock : ℕ → SystemTime) (id : Uuid) (tx : Sender)
    (c : Channel IngressMessage) (w : Ingress DefaultRegistry)
    (is_known : get id w.state.connection_senders ≡ some tx) (is_found : get tx w.channels ≡ some c)
    (alive : c.receiver_alive ≡ true)
    → IsSmooth lib connect self a channels
    → IsTold lib connect self a channels auth
    → (auth (auth_request a.presigned_url)).success ≡ true
    → Extends
        (introduction lib connect self a channels)
        (connect_and_handle lib connect self a channels).sent
      × IsIntroduced lib auth clock id tx c
          (auth_request a.presigned_url)
          w
          is_known
          is_found
          alive
          (Identity.register_service self)
          (take_all lib auth clock id 0 (introduction lib connect self a channels) w)
unfolding heartbeat
connect_and_handle_introduces lib connect self a channels auth clock id tx c w known found alive
      smooth told success =
    let q = auth_request a.presigned_url in
    (
      connect_and_handle-introduction lib connect self a channels auth smooth told success,
      rw
          (take_all-beaten lib auth clock id tx c q w known found alive
            (Identity.register_service self) self.cluster_name self.client_id)
          (beaten-IsIntroduced lib auth clock id tx c q w known found alive
            (Identity.register_service self) self.cluster_name self.client_id),
    )
