-- ===== src/Examples/Messages.antt =====
-- Messages of an agent.
use anywhere_mesh.Base.{codes, ◌≡◌, refl, nat_eq, get, some, none, List, [], ◌∷◌}
use anywhere_mesh.Server.Channels.{IsOpen}
use anywhere_mesh.Server.Registry.{default_registry}
use anywhere_mesh.Server.Auth.{refused, authenticate}
use anywhere_mesh.Server.Dispatcher.{AuthService}
use anywhere_mesh.Server.Dispatcher.Isolation.{Arrival, receive, receive_ignores_auth}
use anywhere_mesh.Examples.{lib, ingress, one_agent, open_channels, auth_service}

abbrev refuses : AuthService
refuses request = refused (codes "no")

known : get 7 one_agent.connection_senders ≡ some 1
unfolding get
known = refl

listens : IsOpen 1 open_channels
unfolding get
listens = (_, refl, refl)

unknown : get 8 one_agent.connection_senders ≡ none
unfolding get
unknown = refl

abbrev arrivals : List Arrival
arrivals = record { now = 9; connection_id = 8; message = codes "{}" } ∷ []

receive_ignores_auth_example :
    ((receive lib default_registry (authenticate auth_service) arrivals ingress).state
      ≡ (receive lib default_registry refuses arrivals ingress).state)
    × ((receive lib default_registry (authenticate auth_service) arrivals ingress).router
        ≡ (receive lib default_registry refuses arrivals ingress).router)
receive_ignores_auth_example =
    receive_ignores_auth lib default_registry (authenticate auth_service) refuses arrivals ingress
