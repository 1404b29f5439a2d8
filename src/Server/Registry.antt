-- ===== src/Server/Registry.antt =====
-- mesh/src/server/registry.rs: connections, registrations and senders, each map behind a lock of
-- its own. An operation is the sequence of its locked sections, which are definitions too.
pub mod Consistency
pub mod Calls
pub mod Refinement
pub mod View
pub mod Interleaving
use anywhere_mesh.Base.{HashMap, get, insert, remove, Option, none, some, List, [], ◌∷◌, nat_eq}
use anywhere_mesh.Common.Types.{Uuid, SystemTime, ServiceRegistration, ConnectionInfo}
use anywhere_mesh.Server.Error.{IngressResult, ok, err, registry_not_found}
use anywhere_mesh.Server.Channels.{Sender}

pub record DefaultRegistry : Type 0 where
  pub connections : HashMap Uuid ConnectionInfo
  pub registrations : HashMap Uuid ServiceRegistration
  pub connection_senders : HashMap Uuid Sender

-- DefaultRegistry::new
unfoldable pub new : DefaultRegistry
new = record { connections = []; registrations = []; connection_senders = [] }

-- The trait, over the state that an implementation keeps behind its locks. Every call answers a
-- result beside the state that it leaves.
pub record Registry (S : Type 0) : Type 0 where
  pub register_connection : Uuid → Sender → S → S × IngressResult (Unit {0})
  pub remove_connection : Uuid → S → S × IngressResult (Unit {0})
  pub register_service : Uuid → ServiceRegistration → SystemTime → S → S × IngressResult (Unit {0})
  pub deregister_service : Uuid → S → S × IngressResult (Unit {0})
  pub update_heartbeat : Uuid → SystemTime → S → S × IngressResult (Unit {0})
  pub get_connection_sender : Uuid → S → IngressResult (Option Sender)
  pub get_all_connections : S → IngressResult (HashMap Uuid ConnectionInfo)
  pub get_all_registrations : S → IngressResult (HashMap Uuid ServiceRegistration)

-- The sections that hold a lock, one for each `write().await`.
unfoldable pub put_sender : Uuid → Sender → DefaultRegistry → DefaultRegistry
unfolding insert
put_sender id sender r = record r { connection_senders = insert id sender r.connection_senders }

unfoldable pub drop_connection : Uuid → DefaultRegistry → DefaultRegistry
unfolding remove
drop_connection id r = record r { connections = remove id r.connections }

unfoldable pub drop_registration : Uuid → DefaultRegistry → DefaultRegistry
unfolding remove
drop_registration id r = record r { registrations = remove id r.registrations }

unfoldable pub drop_sender : Uuid → DefaultRegistry → DefaultRegistry
unfolding remove
drop_sender id r = record r { connection_senders = remove id r.connection_senders }

abbrev pub info_of : Uuid → ServiceRegistration → SystemTime → ConnectionInfo
info_of connection_id registration now = record {
  id = connection_id;
  service_name = registration.service_name;
  host = registration.host;
  port = registration.port;
  last_heartbeat = now;
  attributes = registration.attributes;
}

unfoldable pub put_connection :
    Uuid → ServiceRegistration → SystemTime → DefaultRegistry → DefaultRegistry
unfolding insert
put_connection connection_id registration now r = record r {
  connections = insert connection_id (info_of connection_id registration now) r.connections;
}

unfoldable pub put_registration : Uuid → ServiceRegistration → DefaultRegistry → DefaultRegistry
unfolding insert
put_registration connection_id registration r = record r {
  registrations = insert connection_id (record registration { id = connection_id }) r.registrations;
}

unfoldable pub update_heartbeat :
    Uuid → SystemTime → DefaultRegistry → DefaultRegistry × IngressResult (Unit {0})
update_heartbeat connection_id now r = elim (get connection_id r.connections) [
  | some connection ↦ (
    record r {
      connections = insert connection_id (record connection { last_heartbeat = now }) r.connections;
    },
    ok tt,
  )
  | none ↦ (r, err (registry_not_found connection_id))
]

-- One section under a lock, as a value.
pub data Section : Type 0 where
  puts_sender : Uuid → Sender → Section
  puts_connection : Uuid → ServiceRegistration → SystemTime → Section
  puts_registration : Uuid → ServiceRegistration → Section
  drops_sender drops_connection drops_registration : Uuid → Section
  beats : Uuid → SystemTime → Section

abbrev pub enter : Section → DefaultRegistry → DefaultRegistry
enter (puts_sender id sender) r = put_sender id sender r
enter (puts_connection id g now) r = put_connection id g now r
enter (puts_registration id g) r = put_registration id g r
enter (drops_sender id) r = drop_sender id r
enter (drops_connection id) r = drop_connection id r
enter (drops_registration id) r = drop_registration id r
enter (beats id now) r = (update_heartbeat id now r).0

abbrev pub enter_all : List Section → DefaultRegistry → DefaultRegistry
enter_all [] r = r
enter_all (s ∷ ss) r = enter_all ss (enter s r)

unfoldable pub register_connection :
    Uuid → Sender → DefaultRegistry → DefaultRegistry × IngressResult (Unit {0})
register_connection connection_id sender r = (put_sender connection_id sender r, ok tt)

-- The sections of the calls that take more than one lock, in the order in which they are entered.
abbrev pub remove_sections : Uuid → List Section
remove_sections id = drops_connection id ∷ drops_registration id ∷ drops_sender id ∷ []

abbrev pub register_sections : Uuid → ServiceRegistration → SystemTime → List Section
register_sections connection_id registration now =
    puts_connection connection_id registration now
    ∷ puts_registration connection_id registration
    ∷ []

abbrev pub deregister_sections : Uuid → List Section
deregister_sections service_id = drops_registration service_id ∷ drops_connection service_id ∷ []

-- A call that nothing interrupts.
unfoldable pub remove_connection :
    Uuid → DefaultRegistry → DefaultRegistry × IngressResult (Unit {0})
remove_connection id r = (enter_all (remove_sections id) r, ok tt)

unfoldable pub register_service :
    Uuid
    → ServiceRegistration
    → SystemTime
    → DefaultRegistry
    → DefaultRegistry × IngressResult (Unit {0})
register_service connection_id registration now r =
    (enter_all (register_sections connection_id registration now) r, ok tt)

unfoldable pub deregister_service :
    Uuid → DefaultRegistry → DefaultRegistry × IngressResult (Unit {0})
deregister_service service_id r = (enter_all (deregister_sections service_id) r, ok tt)

unfoldable pub get_connection_sender : Uuid → DefaultRegistry → IngressResult (Option Sender)
get_connection_sender connection_id r = ok (get connection_id r.connection_senders)

unfoldable pub get_all_connections : DefaultRegistry → IngressResult (HashMap Uuid ConnectionInfo)
get_all_connections r = ok r.connections

unfoldable pub get_all_registrations :
    DefaultRegistry → IngressResult (HashMap Uuid ServiceRegistration)
get_all_registrations r = ok r.registrations

-- impl Registry for DefaultRegistry
abbrev pub default_registry : Registry DefaultRegistry
default_registry = record {
  register_connection = register_connection;
  remove_connection = remove_connection;
  register_service = register_service;
  deregister_service = deregister_service;
  update_heartbeat = update_heartbeat;
  get_connection_sender = get_connection_sender;
  get_all_connections = get_all_connections;
  get_all_registrations = get_all_registrations;
}
