-- ===== src/Examples/Services.antt =====
-- Messages of an agent to the whole ingress, and the end of its connection.
use anywhere_mesh.Base.{codes, List, [], ◌∷◌, ◌≡◌, nat_eq}
use anywhere_mesh.Common.Types.{IngressMessage, service_registration}
use anywhere_mesh.Server.Error.{ok}
use anywhere_mesh.Server.Libraries.{Libraries, parsed}
use anywhere_mesh.Server.Registry.{DefaultRegistry, default_registry}
use anywhere_mesh.Server.Auth.{authenticate}
use anywhere_mesh.Server.Tunnel.{no_tunnels}
use anywhere_mesh.Server.Service.{Service, Incoming, text_item, close_item, handle_websocket_stream}
use anywhere_mesh.Server.Service.Life.{IsGone, handle_websocket_stream-IsGone}
use anywhere_mesh.Examples.{lib, every, ingress, auth_service}

-- A parser that reads every text as one message.
abbrev reading : IngressMessage → Libraries
reading m = record lib { from_str = λ t. parsed m }

abbrev service : Service DefaultRegistry
service = record { ingress = ingress; tunnels = no_tunnels }

abbrev incoming : List (Incoming DefaultRegistry)
incoming =
    record { meanwhile = λ u. u; now = 9; item = text_item (codes "{}") }
    ∷ record { meanwhile = λ u. u; now = 10; item = close_item }
    ∷ []

handle_websocket_stream-IsGone_example :
    let out =
      handle_websocket_stream
        (reading (service_registration every))
        default_registry
        (authenticate auth_service)
        8
        2
        incoming
        []
        service in
    IsGone 8 out.0.ingress.state × (out.1 ≡ ok tt)
handle_websocket_stream-IsGone_example =
    handle_websocket_stream-IsGone (reading (service_registration every))
      (authenticate auth_service) 8 2 incoming service
