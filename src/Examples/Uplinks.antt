-- ===== src/Examples/Uplinks.antt =====
-- The loop of a connection with messages of a session waiting.
use anywhere_mesh.Base.{codes, none, some, List, [], ◌∷◌}
use anywhere_mesh.Common.Types.{web_socket_proxy_data, web_socket_proxy_close}
use anywhere_mesh.Client.Connection.{
  Connected, Turn, proxy_ready, heartbeat_ready, ingress_text, take_turns,
}
use anywhere_mesh.Client.Extends.{Extends}
use anywhere_mesh.Client.Uplink.{uplink}
use anywhere_mesh.Client.Uplink.Turns.{take_turns-uplink}
use anywhere_mesh.Examples.{lib}
use anywhere_mesh.Examples.Agents.{proxy}
use anywhere_mesh.Examples.Connections.{agent}
use anywhere_mesh.Base.{true}

abbrev waiting : Connected
waiting = record {
  proxy = proxy;
  channels =
      (
        8,
        record {
          receiver_alive = true;
          queue =
              web_socket_proxy_data 50 (codes "text") (some (codes "a"))
              ∷ web_socket_proxy_close 50 none none
              ∷ [];
        },
      )
      ∷ [];
  sent = [];
  ended = none;
}

abbrev turns : List Turn
turns =
    proxy_ready none ∷ heartbeat_ready none ∷ proxy_ready none ∷ ingress_text (codes "{}") none ∷ []

take_turns-uplink_example :
    Extends (uplink 8 waiting) (uplink 8 (take_turns lib (λ url. none) agent 8 turns waiting))
take_turns-uplink_example =
    take_turns-uplink lib (λ url. none) agent 8 turns waiting (tt, (tt, (tt, (tt, tt))))
