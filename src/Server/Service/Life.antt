-- ===== src/Server/Service/Life.antt =====
-- The life of an agent's connection, from its registration to the clean-up.
use anywhere_mesh.Base.{
  Text, get, none, some, List, [], ◌∷◌, nat_eq, ◌≡◌, refl, get-remove_self, ◌∙◌, ap,
}
use anywhere_mesh.Common.Types.{Uuid, SystemTime, ServiceRegistration, service_registration}
use anywhere_mesh.Server.Error.{ok}
use anywhere_mesh.Server.Channels.{Sender}
use anywhere_mesh.Server.Libraries.{Libraries, parsed}
use anywhere_mesh.Server.Registry.{
  DefaultRegistry, default_registry, remove_connection, register_connection, drop_sender,
  drop_registration, drop_connection,
}
use anywhere_mesh.Server.Dispatcher.{AuthService, handle_message}
use anywhere_mesh.Server.Dispatcher.Replies.{dispatch_registers_unheard}
use anywhere_mesh.Server.Service.{
  Service, Incoming, text_item, read_incoming, with_state, handle_websocket_message,
  handle_websocket_stream,
}
use anywhere_mesh.Server.Service.Messages.{handle_websocket_message_dispatched}

-- The id of a connection that is in none of the maps.
abbrev pub IsGone : Uuid → DefaultRegistry → Type 0
IsGone id s =
    (get id s.registrations ≡ none)
    × (get id s.connections ≡ none)
    × (get id s.connection_senders ≡ none)

removed-IsGone : (id : Uuid) (s : DefaultRegistry) → IsGone id (remove_connection id s).0
unfolding remove_connection drop_sender drop_registration drop_connection
removed-IsGone id s = (
  get-remove_self id s.registrations,
  get-remove_self id s.connections,
  get-remove_self id s.connection_senders,
)

late_registration :
    (lib : Libraries) (auth : AuthService) (now : SystemTime) (id : Uuid) (message : Text)
    (g : ServiceRegistration) (sv : Service DefaultRegistry)
    → lib.from_str message ≡ parsed (service_registration g)
    → get id sv.ingress.state.connection_senders ≡ none
    → let out = handle_websocket_message lib default_registry auth now id message sv in
      (get id out.0.ingress.state.registrations ≡ some (record g { id = id }))
      × (get id out.0.ingress.state.connection_senders ≡ none)
unfolding handle_message
late_registration lib auth now id message g sv read missing =
    let (_, does, _) =
      handle_websocket_message_dispatched lib default_registry auth now id message sv
        (service_registration g) read refl in
    let (_, stored, kept, _) = dispatch_registers_unheard lib auth now id g sv.ingress missing in
    rw does (rw (read, handle_message) (stored, ap (get id) kept ∙ missing))

module _ (lib : Libraries) (auth : AuthService) (id : Uuid) (tx : Sender)
    (incoming : List (Incoming DefaultRegistry)) (sv : Service DefaultRegistry) where
  -- Whatever an agent sent and other tasks did, a connection whose reading task takes nothing
  -- behind the clean-up leaves no connection, no registration and no sender.
  pub handle_websocket_stream-IsGone :
      let out = handle_websocket_stream lib default_registry auth id tx incoming [] sv in
      IsGone id out.0.ingress.state × (out.1 ≡ ok tt)
  unfolding handle_websocket_stream register_connection with_state read_incoming
  handle_websocket_stream-IsGone = (removed-IsGone id _, refl)

  -- A registration that the reading task takes behind the clean-up is stored, while the connection
  -- has no sender.
  pub handle_websocket_stream_revives :
      (now : SystemTime) (message : Text) (g : ServiceRegistration)
      → lib.from_str message ≡ parsed (service_registration g)
      → let late : List (Incoming DefaultRegistry) =
          record { meanwhile = λ u. u; now = now; item = text_item message } ∷ [] in
        let out = handle_websocket_stream lib default_registry auth id tx incoming late sv in
        (get id out.0.ingress.state.registrations ≡ some (record g { id = id }))
        × (get id out.0.ingress.state.connection_senders ≡ none)
  unfolding handle_websocket_stream register_connection with_state read_incoming
  handle_websocket_stream_revives now message g read =
      late_registration lib auth now id message g _ read (removed-IsGone id _).2
