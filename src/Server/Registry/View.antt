-- ===== src/Server/Registry/View.antt =====
-- The registry up to the order of its maps: what calls leave at an id depends on the calls of that id
-- alone.
use mathlib.Core.Quot
use mathlib.Core.Quot.{Quot}
use anywhere_mesh.Base.{
  ◌≡◌, refl, ap, sym, ◌∙◌, get, get-insert, get-remove, Option, none, some, nat_eq, nat_beq_iff,
  ◌==◌, arith, Bool-cases, Option-cases, inl, inr, if◌then◌else◌, List, [], ◌∷◌, filter,
}
use anywhere_mesh.Common.Types.{Uuid, SystemTime, ServiceRegistration, ConnectionInfo}
use anywhere_mesh.Server.Error.{IngressResult, ok}
use anywhere_mesh.Server.Channels.{Sender}
use anywhere_mesh.Server.Registry.{
  DefaultRegistry, info_of, put_sender, drop_connection, drop_registration, drop_sender,
  put_connection, put_registration, register_connection, remove_connection, register_service,
  deregister_service,
}
use anywhere_mesh.Server.Registry.Calls.{
  Call, registers_connection, removes_connection, registers_service, deregisters_service,
  updates_heartbeat, perform, perform_all, heartbeat_answer, update_heartbeat_lem,
}
use anywhere_mesh.Server.Registry.Refinement.{answer}

-- What the three maps hold at an id.
pub record Entry : Type 0 where
  pub connection : Option ConnectionInfo
  pub registration : Option ServiceRegistration
  pub sender : Option Sender

abbrev pub entry : Uuid → DefaultRegistry → Entry
entry k r = record {
  connection = get k r.connections;
  registration = get k r.registrations;
  sender = get k r.connection_senders;
}

-- Two registries that differ at most in the order of their maps.
abbrev pub SameEntries : DefaultRegistry → DefaultRegistry → Type 0
SameEntries r s = (k : Uuid) → entry k r ≡ entry k s

abbrev pub View : Type 0
View = Quot SameEntries

abbrev pub view : DefaultRegistry → View
view r = Quot.mk r

abbrev pub id_of : Call → Uuid
id_of (registers_connection id tx) = id
id_of (removes_connection id) = id
id_of (registers_service id g now) = id
id_of (deregisters_service id) = id
id_of (updates_heartbeat id now) = id

abbrev beat : SystemTime → Option ConnectionInfo → Option ConnectionInfo
beat now none = none
beat now (some c) = some (record c { last_heartbeat = now })

-- What a call makes of the entry of its id, and its answer.
act : Call → Entry → Entry
act (registers_connection id tx) e = record e { sender = some tx }
act (removes_connection id) e = record { connection = none; registration = none; sender = none }
act (registers_service id g now) e = record e {
  connection = some (info_of id g now);
  registration = some (record g { id = id });
}
act (deregisters_service id) e = record e { connection = none; registration = none }
act (updates_heartbeat id now) e = record e { connection = beat now e.connection }

reply : Call → Entry → IngressResult (Unit {0})
reply (updates_heartbeat id now) e = heartbeat_answer id e.connection
reply _ e = ok tt

entry-perform :
    (c : Call) (k : Uuid) (r : DefaultRegistry)
    → entry k (perform c r) ≡ (if id_of c == k then act c (entry k r) else entry k r)
unfolding perform act register_connection remove_connection register_service deregister_service
    put_sender drop_connection drop_registration drop_sender put_connection put_registration
entry-perform (registers_connection id tx) k r =
    ground (arith, get-insert id k tx r.connection_senders)
entry-perform (removes_connection id) k r = ground (
  arith,
  get-remove id k r.connections,
  get-remove id k r.registrations,
  get-remove id k r.connection_senders,
)
entry-perform (registers_service id g now) k r = ground (
  arith,
  get-insert id k (info_of id g now) r.connections,
  get-insert id k (record g { id = id }) r.registrations,
)
entry-perform (deregisters_service id) k r =
    ground (arith, get-remove id k r.connections, get-remove id k r.registrations)
entry-perform (updates_heartbeat id now) k r =
    let (_, connection, registrations, senders) = update_heartbeat_lem id k now r in
    elim (Option-cases (get k r.connections)) [
      | inl e ↦ ground (arith, connection, registrations, senders, e)
      | inr (c, e) ↦ ground (arith, connection, registrations, senders, e)
    ]

answer-reply : (c : Call) (r : DefaultRegistry) → answer c r ≡ reply c (entry (id_of c) r)
unfolding answer reply register_connection remove_connection register_service deregister_service
answer-reply (registers_connection id tx) r = refl
answer-reply (removes_connection id) r = refl
answer-reply (registers_service id g now) r = refl
answer-reply (deregisters_service id) r = refl
answer-reply (updates_heartbeat id now) r = (update_heartbeat_lem id id now r).0

-- The calls of one id, in their order.
abbrev pub of_id : Uuid → List Call → List Call
of_id k = filter (λ c. id_of c == k)

act_all : List Call → Entry → Entry
act_all [] e = e
act_all (c ∷ cs) e = act_all cs (act c e)

replies : List Call → Entry → List (IngressResult (Unit {0}))
replies [] e = []
replies (c ∷ cs) e = reply c e ∷ replies cs (act c e)

-- What the calls of one id are answered when all are performed.
unfoldable pub answers_at : Uuid → List Call → DefaultRegistry → List (IngressResult (Unit {0}))
answers_at k [] r = []
answers_at k (c ∷ cs) r =
    let rest = answers_at k cs (perform c r) in if id_of c == k then answer c r ∷ rest else rest

entry-perform_all :
    (k : Uuid) (cs : List Call) (r : DefaultRegistry)
    → entry k (perform_all cs r) ≡ act_all (of_id k cs) (entry k r)
unfolding perform_all act_all
entry-perform_all k [] r = refl
entry-perform_all k (c ∷ cs) r = elim (Bool-cases (id_of c == k)) [
  | inl e ↦ rw e (
      entry-perform_all k cs (perform c r)
      ∙ ap (act_all (of_id k cs)) (entry-perform c k r ∙ rw e refl))
  | inr e ↦ rw e (
      entry-perform_all k cs (perform c r)
      ∙ ap (act_all (of_id k cs)) (entry-perform c k r ∙ rw e refl))
]

answers_at-replies :
    (k : Uuid) (cs : List Call) (r : DefaultRegistry)
    → answers_at k cs r ≡ replies (of_id k cs) (entry k r)
unfolding answers_at replies
answers_at-replies k [] r = refl
answers_at-replies k (c ∷ cs) r = elim (Bool-cases (id_of c == k)) [
  | inl e ↦
      let same : id_of c ≡ k = (nat_beq_iff (id_of c) k).0 e in
      let first : answer c r ≡ reply c (entry k r) =
        answer-reply c r ∙ ap (λ j. reply c (entry j r)) same in
      let rest : answers_at k cs (perform c r) ≡ replies (of_id k cs) (act c (entry k r)) =
        answers_at-replies k cs (perform c r)
        ∙ ap (replies (of_id k cs)) (entry-perform c k r ∙ rw e refl) in
      rw e (rw (first, rest) refl)
  | inr e ↦ rw e (
      answers_at-replies k cs (perform c r)
      ∙ ap (replies (of_id k cs)) (entry-perform c k r ∙ rw e refl))
]

-- Two sequences of whole calls that agree on the calls of each id and their order, as two
-- interleavings of the same tasks do, leave any registry the same but for the order of its maps, and
-- answer the calls of each id the same.
pub perform_all-view :
    (cs ds : List Call) (r : DefaultRegistry)
    → ((k : Uuid) → of_id k cs ≡ of_id k ds)
    → (view (perform_all cs r) ≡ view (perform_all ds r))
      × ((k : Uuid) → answers_at k cs r ≡ answers_at k ds r)
perform_all-view cs ds r agree = (
  Quot.sound λ k.
      entry-perform_all k cs r
      ∙ (ap (λ es. act_all es (entry k r)) (agree k) ∙ sym (entry-perform_all k ds r)),
  λ k.
      answers_at-replies k cs r
      ∙ (ap (λ es. replies es (entry k r)) (agree k) ∙ sym (answers_at-replies k ds r)),
)
