-- ===== src/Server/Registry/Refinement.antt =====
-- What the registry promises, without its maps: at each id at most one service with the time of its
-- last heartbeat, and at most one sender. Whole calls keep the promise.
use anywhere_mesh.Base.{
  ◌≡◌, refl, get, get-insert, get-remove, Option, none, some, nat_eq, nat_beq_iff, ◌==◌, arith,
  Option-cases, inl, inr, if◌then◌else◌, List, [], ◌∷◌,
}
use anywhere_mesh.Common.Types.{Uuid, SystemTime, ServiceRegistration, ConnectionInfo}
use anywhere_mesh.Server.Error.{IngressResult, ok, err, registry_not_found}
use anywhere_mesh.Server.Channels.{Sender}
use anywhere_mesh.Server.Registry.{
  DefaultRegistry, new, info_of, put_sender, drop_connection, drop_registration, drop_sender,
  put_connection, put_registration, register_connection, remove_connection, register_service,
  deregister_service, update_heartbeat,
}
use anywhere_mesh.Server.Registry.Calls.{
  Call, registers_connection, removes_connection, registers_service, deregisters_service,
  updates_heartbeat, perform, perform_all,
}

-- A service and the time of its last heartbeat.
abbrev pub Alive : Type 0
Alive = ServiceRegistration × SystemTime

pub record Directory : Type 0 where
  pub service : Uuid → Option Alive
  pub sender : Uuid → Option Sender

abbrev pub empty : Directory
empty = record { service = λ id. none; sender = λ id. none }

-- A function changed at one id.
abbrev pub set {ℓ} : {A : Type ℓ} → Uuid → A → (Uuid → A) → Uuid → A
set id a f k = if id == k then a else f k

abbrev pub beat_at : SystemTime → Option Alive → Option Alive
beat_at now none = none
beat_at now (some (g, last)) = some (g, now)

abbrev pub known : Uuid → Option Alive → IngressResult (Unit {0})
known id none = err (registry_not_found id)
known id (some s) = ok tt

-- What a call does to the directory, and its answer.
unfoldable pub promised : Call → Directory → Directory × IngressResult (Unit {0})
promised (registers_connection id tx) d = (record d { sender = set id (some tx) d.sender }, ok tt)
promised (removes_connection id) d =
    (record { service = set id none d.service; sender = set id none d.sender }, ok tt)
promised (registers_service id g now) d =
    (record d { service = set id (some (record g { id = id }, now)) d.service }, ok tt)
promised (deregisters_service id) d = (record d { service = set id none d.service }, ok tt)
promised (updates_heartbeat id now) d =
    (record d { service = set id (beat_at now (d.service id)) d.service }, known id (d.service id))

unfoldable pub promised_all : List Call → Directory → Directory
promised_all [] d = d
promised_all (c ∷ cs) d = promised_all cs (promised c d).0

unfoldable pub promised_answers : List Call → Directory → List (IngressResult (Unit {0}))
promised_answers [] d = []
promised_answers (c ∷ cs) d = (promised c d).1 ∷ promised_answers cs (promised c d).0

-- What the registry's calls answer.
unfoldable pub answer : Call → DefaultRegistry → IngressResult (Unit {0})
answer (registers_connection id sender) r = (register_connection id sender r).1
answer (removes_connection id) r = (remove_connection id r).1
answer (registers_service id g now) r = (register_service id g now r).1
answer (deregisters_service id) r = (deregister_service id r).1
answer (updates_heartbeat id now) r = (update_heartbeat id now r).1

unfoldable pub answers : List Call → DefaultRegistry → List (IngressResult (Unit {0}))
unfolding answer
answers [] r = []
answers (c ∷ cs) r = answer c r ∷ answers cs (perform c r)

-- The entries of the two maps of services that a service of the directory stands for.
abbrev pub connection_of : Uuid → Option Alive → Option ConnectionInfo
connection_of id none = none
connection_of id (some (g, last)) = some (info_of id g last)

abbrev pub registration_of : Option Alive → Option ServiceRegistration
registration_of none = none
registration_of (some (g, last)) = some g

-- The maps of the registry hold what the directory says, at every id.
pub record Implements (r : DefaultRegistry) (d : Directory) : Type 0 where
  pub connection_at : (k : Uuid) → get k r.connections ≡ connection_of k (d.service k)
  pub registration_at : (k : Uuid) → get k r.registrations ≡ registration_of (d.service k)
  pub sender_at : (k : Uuid) → get k r.connection_senders ≡ d.sender k

new-Implements : Implements new empty
unfolding new get
new-Implements = record {
  connection_at = λ k. refl;
  registration_at = λ k. refl;
  sender_at = λ k. refl;
}

module _ (r : DefaultRegistry) (d : Directory) (v : Implements r d) (id : Uuid) where
  registers_service-Implements :
      (g : ServiceRegistration) (now : SystemTime)
      → Implements (register_service id g now r).0 (promised (registers_service id g now) d).0
  unfolding register_service put_registration put_connection promised
  registers_service-Implements g now = record {
    connection_at = λ k. simp get-insert (ground (arith, v.connection_at k, nat_beq_iff id k));
    registration_at = λ k. simp get-insert (ground (arith, v.registration_at k));
    sender_at = v.sender_at;
  }

  deregisters_service-Implements :
      Implements (deregister_service id r).0 (promised (deregisters_service id) d).0
  unfolding deregister_service drop_connection drop_registration promised
  deregisters_service-Implements = record {
    connection_at = λ k. simp get-remove (ground (arith, v.connection_at k));
    registration_at = λ k. simp get-remove (ground (arith, v.registration_at k));
    sender_at = v.sender_at;
  }

  removes_connection-Implements :
      Implements (remove_connection id r).0 (promised (removes_connection id) d).0
  unfolding remove_connection drop_connection drop_registration drop_sender promised
  removes_connection-Implements = record {
    connection_at = λ k. simp get-remove (ground (arith, v.connection_at k));
    registration_at = λ k. simp get-remove (ground (arith, v.registration_at k));
    sender_at = λ k. simp get-remove (ground (arith, v.sender_at k));
  }

  registers_connection-Implements :
      (tx : Sender)
      → Implements (register_connection id tx r).0 (promised (registers_connection id tx) d).0
  unfolding register_connection put_sender promised
  registers_connection-Implements tx = record {
    connection_at = v.connection_at;
    registration_at = v.registration_at;
    sender_at = λ k. simp get-insert (ground (arith, v.sender_at k));
  }

  updates_heartbeat-Implements :
      (now : SystemTime)
      → Implements (update_heartbeat id now r).0 (promised (updates_heartbeat id now) d).0
        × ((update_heartbeat id now r).1 ≡ (promised (updates_heartbeat id now) d).1)
  unfolding update_heartbeat promised
  updates_heartbeat-Implements now = elim (Option-cases (d.service id)) [
    | inl e ↦
        let unknown = rw e at (v.connection_at id) in
        rw (unknown, update_heartbeat)
          (rw e (
            record {
              connection_at = λ k. ground (arith, v.connection_at k, e, nat_beq_iff id k);
              registration_at = λ k. ground (arith, v.registration_at k, e, nat_beq_iff id k);
              sender_at = v.sender_at;
            },
            refl,
          ))
    | inr ((g, last), e) ↦
        let found = rw e at (v.connection_at id) in
        rw (found, update_heartbeat)
          (rw e (
            record {
              connection_at =
                  λ k. simp get-insert (ground (arith, v.connection_at k, nat_beq_iff id k));
              registration_at = λ k. ground (arith, v.registration_at k, e, nat_beq_iff id k);
              sender_at = v.sender_at;
            },
            refl,
          ))
  ]

perform-Implements :
    (c : Call) (r : DefaultRegistry) (d : Directory)
    → Implements r d
    → Implements (perform c r) (promised c d).0 × (answer c r ≡ (promised c d).1)
unfolding perform answer promised register_connection remove_connection register_service
    deregister_service
perform-Implements (registers_connection id tx) r d v =
    (registers_connection-Implements r d v id tx, refl)
perform-Implements (removes_connection id) r d v = (removes_connection-Implements r d v id, refl)
perform-Implements (registers_service id g now) r d v =
    (registers_service-Implements r d v id g now, refl)
perform-Implements (deregisters_service id) r d v = (deregisters_service-Implements r d v id, refl)
perform-Implements (updates_heartbeat id now) r d v = updates_heartbeat-Implements r d v id now

all-Implements :
    (cs : List Call) (r : DefaultRegistry) (d : Directory)
    → Implements r d
    → Implements (perform_all cs r) (promised_all cs d) × (answers cs r ≡ promised_answers cs d)
unfolding perform_all promised_all answers promised_answers
all-Implements [] r d v = (v, refl)
all-Implements (c ∷ cs) r d v =
    let (kept, same) = perform-Implements c r d v in
    let (later, others) = all-Implements cs (perform c r) (promised c d).0 kept in
    (later, rw (same, others) refl)

-- Any sequence of whole calls on a new registry answers what the directory promises, and leaves
-- maps that hold at every id just the service, with the time of its last heartbeat, and the sender
-- that the directory has there.
pub perform_all-Implements :
    (cs : List Call)
    → Implements (perform_all cs new) (promised_all cs empty)
      × (answers cs new ≡ promised_answers cs empty)
perform_all-Implements cs = all-Implements cs new empty new-Implements
