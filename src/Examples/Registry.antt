-- ===== src/Examples/Registry.antt =====
-- Calls of the registry.
use anywhere_mesh.Base.{ℕ, List, arith, ◌≡◌, [], ◌∷◌, nat_eq}
use anywhere_mesh.Server.Registry.{new}
use anywhere_mesh.Server.Registry.Consistency.{IsConsistent}
use anywhere_mesh.Server.Registry.View.{view, of_id, answers_at, perform_all-view}
use anywhere_mesh.Server.Registry.Calls.{
  Call, registers_connection, registers_service, deregisters_service, updates_heartbeat,
  perform_all, perform_all-IsConsistent,
}
use anywhere_mesh.Server.Registry.Refinement.{
  Implements, empty, promised_all, promised_answers, answers, perform_all-Implements,
}
use anywhere_mesh.Server.Registry.{
  Section, puts_connection, puts_registration, drops_connection, drops_registration,
}
use anywhere_mesh.Examples.{app}

perform_all-IsConsistent_example : IsConsistent (
    perform_all
      (registers_connection 7 1 ∷ registers_service 7 app 5 ∷ deregisters_service 7 ∷ [])
      new)
perform_all-IsConsistent_example =
    perform_all-IsConsistent
      (registers_connection 7 1 ∷ registers_service 7 app 5 ∷ deregisters_service 7 ∷ [])

-- The deregistration runs between the two sections of the registration.
abbrev crossing : List Section
crossing =
    puts_connection 7 app 5
    ∷ drops_registration 7
    ∷ drops_connection 7
    ∷ puts_registration 7 app
    ∷ []

perform_all-Implements_example :
    Implements
      (perform_all
        (registers_connection 7 1 ∷ registers_service 7 app 5 ∷ updates_heartbeat 8 9 ∷ [])
        new)
      (promised_all
        (registers_connection 7 1 ∷ registers_service 7 app 5 ∷ updates_heartbeat 8 9 ∷ [])
        empty)
    × (answers
          (registers_connection 7 1 ∷ registers_service 7 app 5 ∷ updates_heartbeat 8 9 ∷ [])
          new
        ≡ promised_answers
            (registers_connection 7 1 ∷ registers_service 7 app 5 ∷ updates_heartbeat 8 9 ∷ [])
            empty)
perform_all-Implements_example =
    perform_all-Implements
      (registers_connection 7 1 ∷ registers_service 7 app 5 ∷ updates_heartbeat 8 9 ∷ [])

-- Two tasks, each with calls of its own id, in two orders.
abbrev one_order : List Call
one_order = registers_service 7 app 5 ∷ registers_connection 8 2 ∷ updates_heartbeat 7 9 ∷ []

abbrev other_order : List Call
other_order = registers_connection 8 2 ∷ registers_service 7 app 5 ∷ updates_heartbeat 7 9 ∷ []

orders_agree : (k : ℕ) → of_id k one_order ≡ of_id k other_order
orders_agree k = ground arith

perform_all-view_example :
    (view (perform_all one_order new) ≡ view (perform_all other_order new))
    × ((k : ℕ) → answers_at k one_order new ≡ answers_at k other_order new)
perform_all-view_example = perform_all-view one_order other_order new orders_agree
