-- ===== src/Server/Registry/Calls.antt =====
-- Whole calls of the registry, one at a time.
use anywhere_mesh.Base.{
  ◌≡◌, get, get-insert, Option, none, some, inl, inr, nat_eq, nat_beq_iff, ◌==◌, arith,
  Option-cases, if◌then◌else◌, List, [], ◌∷◌, refl,
}
use anywhere_mesh.Common.Types.{Uuid, SystemTime, ServiceRegistration, ConnectionInfo}
use anywhere_mesh.Server.Error.{IngressResult, ok, err, registry_not_found}
use anywhere_mesh.Server.Channels.{Sender}
use anywhere_mesh.Server.Registry.{
  DefaultRegistry, new, register_connection, remove_connection, register_service,
  deregister_service, update_heartbeat,
}
use anywhere_mesh.Server.Registry.Consistency.{
  IsConsistent, new-IsConsistent, register_service-IsConsistent, deregister_service-IsConsistent,
  remove_connection-IsConsistent, register_connection-IsConsistent, update_heartbeat-IsConsistent,
}

-- The calls of the trait that change state.
pub data Call : Type 0 where
  registers_connection : Uuid → Sender → Call
  removes_connection : Uuid → Call
  registers_service : Uuid → ServiceRegistration → SystemTime → Call
  deregisters_service : Uuid → Call
  updates_heartbeat : Uuid → SystemTime → Call

unfoldable pub perform : Call → DefaultRegistry → DefaultRegistry
perform (registers_connection id sender) r = (register_connection id sender r).0
perform (removes_connection id) r = (remove_connection id r).0
perform (registers_service id g now) r = (register_service id g now r).0
perform (deregisters_service id) r = (deregister_service id r).0
perform (updates_heartbeat id now) r = (update_heartbeat id now r).0

unfoldable pub perform_all : List Call → DefaultRegistry → DefaultRegistry
perform_all [] r = r
perform_all (c ∷ cs) r = perform_all cs (perform c r)

perform-IsConsistent :
    (c : Call) (r : DefaultRegistry) → IsConsistent r → IsConsistent (perform c r)
unfolding perform
perform-IsConsistent (registers_connection id sender) r v =
    register_connection-IsConsistent id r v sender
perform-IsConsistent (removes_connection id) r v = remove_connection-IsConsistent id r v
perform-IsConsistent (registers_service id g now) r v = register_service-IsConsistent id r v g now
perform-IsConsistent (deregisters_service id) r v = deregister_service-IsConsistent id r v
perform-IsConsistent (updates_heartbeat id now) r v = update_heartbeat-IsConsistent id r v now

keeps_IsConsistent :
    (cs : List Call) (r : DefaultRegistry) → IsConsistent r → IsConsistent (perform_all cs r)
unfolding perform_all
keeps_IsConsistent [] r v = v
keeps_IsConsistent (c ∷ cs) r v = keeps_IsConsistent cs (perform c r) (perform-IsConsistent c r v)

-- After any sequence of whole calls on a new registry, every id has a connection exactly when it
-- has a registration; both then carry that id and the same host, service name, port and attributes.
pub perform_all-IsConsistent : (cs : List Call) → IsConsistent (perform_all cs new)
perform_all-IsConsistent cs = keeps_IsConsistent cs new new-IsConsistent

-- What a heartbeat leaves at an id: the known connection with its time set, all else as it was.
abbrev pub beaten : Uuid → SystemTime → Uuid → Option ConnectionInfo → Option ConnectionInfo
beaten id now k none = none
beaten id now k (some c) = if id == k then some (record c { last_heartbeat = now }) else some c

-- The answer to a heartbeat: an error exactly when the connection is not known.
abbrev pub heartbeat_answer : Uuid → Option ConnectionInfo → IngressResult (Unit {0})
heartbeat_answer id none = err (registry_not_found id)
heartbeat_answer id (some c) = ok tt

-- A heartbeat is refused exactly when its connection is not known, and it changes nothing but the
-- time of that connection.
pub update_heartbeat_lem :
    (id k : Uuid) (now : SystemTime) (r : DefaultRegistry)
    → ((update_heartbeat id now r).1 ≡ heartbeat_answer id (get id r.connections))
      × (get k (update_heartbeat id now r).0.connections ≡ beaten id now k (get k r.connections))
      × ((update_heartbeat id now r).0.registrations ≡ r.registrations)
      × ((update_heartbeat id now r).0.connection_senders ≡ r.connection_senders)
unfolding update_heartbeat
update_heartbeat_lem id k now r = elim (Option-cases (get id r.connections)) [
  | inl e ↦ rw (e, update_heartbeat) (refl, ground (arith, nat_beq_iff id k), refl, refl)
  | inr (c, e) ↦
      rw (e, update_heartbeat)
        (refl, simp get-insert (ground (arith, nat_beq_iff id k)), refl, refl)
]
