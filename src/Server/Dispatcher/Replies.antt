-- ===== src/Server/Dispatcher/Replies.antt =====
-- What an agent is told.
use anywhere_mesh.Base.{
  codes, ◌≡◌, refl, ◌∙◌, ap, none, some, true, [], ◌∷◌, ◌++◌, get, get-insert_self, nat_eq, ==_refl,
  if◌then◌else◌,
}
use anywhere_mesh.Common.Types.{
  Uuid, SystemTime, ServiceRegistration, IngressMessage, registration_ack, service_registration,
}
use anywhere_mesh.Server.Error.{ok, err, registry_not_found}
use anywhere_mesh.Server.Channels.{Sender, Channels, IsOpen, send, send-IsOpen, queued, queued-send}
use anywhere_mesh.Server.Libraries.{Libraries}
use anywhere_mesh.Server.Registry.{
  Registry, DefaultRegistry, default_registry, get_connection_sender, register_service,
  put_registration, put_connection, info_of,
}
use anywhere_mesh.Server.Dispatcher.{
  Ingress, Handled, AuthService, send_response, handle_service_registration, dispatch,
  acknowledgment,
}

module _ {S : Type 0} (lib : Libraries) (registry : Registry S) where
  pub send_response-sent :
      (id : Uuid) (m : IngressMessage) (w : Ingress S) (sender : Sender) (after : Channels)
      → registry.get_connection_sender id w.state ≡ ok (some sender)
      → send sender m w.channels ≡ some after
      → send_response lib registry id m w ≡ (record w { channels = after }, ok tt)
  unfolding send_response
  send_response-sent id m w sender after found sent = rw (found, send_response) (rw sent)

  send_response-unknown :
      (id : Uuid) (m : IngressMessage) (w : Ingress S)
      → registry.get_connection_sender id w.state ≡ ok none
      → send_response lib registry id m w ≡ (w, err (registry_not_found id))
  unfolding send_response
  send_response-unknown id m w missing = rw (missing, send_response)

-- A send puts its message at the end of its channel.
queued-send_same :
    (tx : Sender) (message : IngressMessage) (channels after : Channels)
    → send tx message channels ≡ some after
    → queued tx after ≡ queued tx channels ++ message ∷ []
queued-send_same tx message channels after sent =
    queued-send tx tx message channels after sent
    ∙ ap (λ b. if b then queued tx channels ++ message ∷ [] else queued tx channels) (==_refl tx)

module _ (lib : Libraries) (auth : AuthService) (now : SystemTime) (id : Uuid)
    (g : ServiceRegistration) (w : Ingress DefaultRegistry) where
  abbrev registering : Handled DefaultRegistry
  registering = dispatch lib default_registry auth now id (service_registration g) w

  -- A registration from a connection with an open channel is stored under the connection's id, its
  -- heartbeat counts from now, and the last message in the channel is the acknowledgment.
  pub dispatch_registers :
      (sender : Sender)
      → get id w.state.connection_senders ≡ some sender
      → IsOpen sender w.channels
      → (registering.1 ≡ ok tt)
        × (get id registering.0.state.registrations ≡ some (record g { id = id }))
        × (get id registering.0.state.connections ≡ some (info_of id g now))
        × (queued sender registering.0.channels
            ≡ queued sender w.channels
              ++ (registration_ack id true (codes "Service registered successfully") ∷ []))
  unfolding dispatch handle_service_registration acknowledgment register_service put_registration
      put_connection get_connection_sender
  dispatch_registers sender found listens =
      let (after, sent) =
        send-IsOpen sender (registration_ack id true (codes "Service registered successfully"))
          w.channels listens in
      rw
        (send_response-sent lib default_registry id
          (registration_ack id true (codes "Service registered successfully"))
          (record w { state = (register_service id g now w.state).0 }) sender after
          (ap (λ o. ok o) found) sent)
        (
          refl,
          get-insert_self id (record g { id = id }) w.state.registrations,
          get-insert_self id (info_of id g now) w.state.connections,
          queued-send_same sender _ w.channels after sent,
        )

  -- A registration from a connection without a sender is answered with an error, and is stored all
  -- the same; no sender and no channel changes.
  pub dispatch_registers_unheard :
      get id w.state.connection_senders ≡ none
      → (registering.1 ≡ err (registry_not_found id))
        × (get id registering.0.state.registrations ≡ some (record g { id = id }))
        × (registering.0.state.connection_senders ≡ w.state.connection_senders)
        × (registering.0.channels ≡ w.channels)
  unfolding dispatch handle_service_registration acknowledgment register_service put_registration
      put_connection get_connection_sender
  dispatch_registers_unheard missing =
      rw
        (send_response-unknown lib default_registry id
          (registration_ack id true (codes "Service registered successfully"))
          (record w { state = (register_service id g now w.state).0 }) (ap (λ o. ok o) missing))
        (refl, get-insert_self id (record g { id = id }) w.state.registrations, refl, refl)
