-- ===== src/Server/Registry/Consistency.antt =====
-- The maps of the registry agree with one another, and every operation keeps them so.
use anywhere_mesh.Base.{
  ◌≡◌, get, remove, get-insert, get-remove, Option, none, some, inl, inr, nat_eq, nat_beq_iff,
  arith, Option-cases,
}
use anywhere_mesh.Common.Types.{Uuid, SystemTime, ServiceRegistration, ConnectionInfo}
use anywhere_mesh.Server.Channels.{Sender}
use anywhere_mesh.Server.Registry.{
  DefaultRegistry, new, put_sender, drop_connection, drop_registration, drop_sender, put_connection,
  put_registration, register_connection, remove_connection, register_service, deregister_service,
  update_heartbeat,
}

-- At one id: no entry in either map, or a connection and a registration that carry this id and
-- advertise the same service.
abbrev pub Agree : Uuid → Option ConnectionInfo → Option ServiceRegistration → Type 0
Agree k none none = Unit
Agree k none (some g) = ⊥
Agree k (some c) none = ⊥
Agree k (some c) (some g) =
    (c.id ≡ k)
    × (g.id ≡ k)
    × (c.host ≡ g.host)
    × (c.service_name ≡ g.service_name)
    × (c.port ≡ g.port)
    × (c.attributes ≡ g.attributes)

pub record IsConsistent (r : DefaultRegistry) : Type 0 where
  pub at_id : (k : Uuid) → Agree k (get k r.connections) (get k r.registrations)

pub new-IsConsistent : IsConsistent new
unfolding new get
new-IsConsistent = record { at_id = λ k. tt }

module _ (id : Uuid) (r : DefaultRegistry) (v : IsConsistent r) where
  pub register_service-IsConsistent :
      (g : ServiceRegistration) (now : SystemTime) → IsConsistent (register_service id g now r).0
  unfolding register_service put_registration put_connection
  register_service-IsConsistent g now = record {
    at_id = λ k. simp get-insert (ground (arith, v.at_id k));
  }

  both_removed :
      (k : Uuid) → Agree k (get k (remove id r.connections)) (get k (remove id r.registrations))
  both_removed k = simp get-remove (ground (arith, v.at_id k))

  pub deregister_service-IsConsistent : IsConsistent (deregister_service id r).0
  unfolding deregister_service drop_connection drop_registration
  deregister_service-IsConsistent = record { at_id = both_removed }

  pub remove_connection-IsConsistent : IsConsistent (remove_connection id r).0
  unfolding remove_connection drop_connection drop_registration drop_sender
  remove_connection-IsConsistent = record { at_id = both_removed }

  pub register_connection-IsConsistent :
      (sender : Sender) → IsConsistent (register_connection id sender r).0
  unfolding register_connection put_sender
  register_connection-IsConsistent sender = record { at_id = v.at_id }

  pub update_heartbeat-IsConsistent :
      (now : SystemTime) → IsConsistent (update_heartbeat id now r).0
  unfolding update_heartbeat
  update_heartbeat-IsConsistent now = elim (Option-cases (get id r.connections)) [
    | inl e ↦ rw (e, update_heartbeat) v
    | inr (c, e) ↦
        rw (e, update_heartbeat)
          (record { at_id = λ k. simp get-insert (ground (arith, v.at_id k, nat_beq_iff id k)) })
  ]
