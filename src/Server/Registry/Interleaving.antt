-- ===== src/Server/Registry/Interleaving.antt =====
-- The registry's calls take their locks one after another, so the sections of two calls may
-- interleave. What survives every interleaving, and what does not.
use anywhere_mesh.Base.{
  ◌≡◌, ◌⊎◌, get, get-insert, insert, remove, get-remove, get-insert_self, get-remove_self, Option,
  none, some, inl, inr, nat_eq, nat_beq_iff, arith, Option-cases, List, [], ◌∷◌,
}
use anywhere_mesh.Common.Types.{Uuid, SystemTime, ServiceRegistration, ConnectionInfo}
use anywhere_mesh.Server.Registry.{
  DefaultRegistry, Section, puts_sender, puts_connection, puts_registration, drops_sender,
  drops_connection, drops_registration, beats, enter, enter_all, put_sender, drop_connection,
  drop_registration, drop_sender, info_of, put_connection, put_registration, update_heartbeat,
}

abbrev OwnsConnection : Uuid → Option ConnectionInfo → Type 0
OwnsConnection k none = Unit
OwnsConnection k (some c) = c.id ≡ k

abbrev OwnsRegistration : Uuid → Option ServiceRegistration → Type 0
OwnsRegistration k none = Unit
OwnsRegistration k (some g) = g.id ≡ k

-- Whatever is stored under an id carries that id.
pub record HasOwnIds (r : DefaultRegistry) : Type 0 where
  pub connection : (k : Uuid) → OwnsConnection k (get k r.connections)
  pub registration : (k : Uuid) → OwnsRegistration k (get k r.registrations)

beats-HasOwnIds :
    (id : Uuid) (now : SystemTime) (r : DefaultRegistry)
    → HasOwnIds r
    → HasOwnIds (update_heartbeat id now r).0
unfolding update_heartbeat
beats-HasOwnIds id now r v = elim (Option-cases (get id r.connections)) [
  | inl e ↦ rw (e, update_heartbeat) v
  | inr (c, e) ↦
      rw (e, update_heartbeat)
        (record {
          connection = λ k. simp get-insert (ground (arith, v.connection k, nat_beq_iff id k));
          registration = v.registration;
        })
]

enter-HasOwnIds : (s : Section) (r : DefaultRegistry) → HasOwnIds r → HasOwnIds (enter s r)
unfolding put_sender put_connection put_registration drop_sender drop_connection drop_registration
enter-HasOwnIds (puts_sender id sender) r v = record {
  connection = v.connection;
  registration = v.registration;
}
enter-HasOwnIds (puts_connection id g now) r v = record {
  connection = λ k. simp get-insert (ground (arith, v.connection k));
  registration = v.registration;
}
enter-HasOwnIds (puts_registration id g) r v = record {
  connection = v.connection;
  registration = λ k. simp get-insert (ground (arith, v.registration k));
}
enter-HasOwnIds (drops_sender id) r v = record {
  connection = v.connection;
  registration = v.registration;
}
enter-HasOwnIds (drops_connection id) r v = record {
  connection = λ k. simp get-remove (ground (arith, v.connection k));
  registration = v.registration;
}
enter-HasOwnIds (drops_registration id) r v = record {
  connection = v.connection;
  registration = λ k. simp get-remove (ground (arith, v.registration k));
}
enter-HasOwnIds (beats id now) r v = beats-HasOwnIds id now r v

-- If every entry carries the id that it stands under, then so it is after every interleaving of
-- the sections of any calls.
pub enter_all-HasOwnIds :
    (ss : List Section) (r : DefaultRegistry) → HasOwnIds r → HasOwnIds (enter_all ss r)
enter_all-HasOwnIds [] r v = v
enter_all-HasOwnIds (s ∷ ss) r v = enter_all-HasOwnIds ss (enter s r) (enter-HasOwnIds s r v)

-- An interleaving of two lists of sections, each in its own order.
pub data Merge : List Section → List Section → List Section → Type 0 where
  done : Merge [] [] []
  left : {s : Section} {xs ys zs : List Section} → Merge xs ys zs → Merge (s ∷ xs) ys (s ∷ zs)
  right : {s : Section} {xs ys zs : List Section} → Merge xs ys zs → Merge xs (s ∷ ys) (s ∷ zs)

-- What an id has then: both entries, none, or a registration without a connection.
abbrev pub IsSettled : Uuid → ServiceRegistration → SystemTime → DefaultRegistry → Type 0
IsSettled id g now r =
    ((get id r.connections ≡ some (info_of id g now))
      × (get id r.registrations ≡ some (record g { id = id })))
    ⊎ (((get id r.connections ≡ none) × (get id r.registrations ≡ none))
        ⊎ ((get id r.connections ≡ none) × (get id r.registrations ≡ some (record g { id = id }))))

module _ (id : Uuid) (g : ServiceRegistration) (now : SystemTime) (r : DefaultRegistry) where
  -- The connection is stored before it is dropped, and the registration dropped before it is stored.
  split :
      (get id (remove id (insert id (info_of id g now) r.connections)) ≡ none)
      × (get id (insert id (record g { id = id }) (remove id r.registrations))
          ≡ some (record g { id = id }))
  split = (
    get-remove_self id (insert id (info_of id g now) r.connections),
    get-insert_self id (record g { id = id }) (remove id r.registrations),
  )
