-- ===== src/Examples/Tasks.antt =====
-- The task of a tunnel.
use anywhere_mesh.Base.{
  List, [], ◌∷◌, codes, remove, get, insert, nat_eq, none, some, true, false, ◌≡◌, refl,
}
use anywhere_mesh.Server.Tunnel.{
  Tunnels, WsInitAck, acked, no_tunnels, open_session, open_waiter, handle_ws_proxy_init_ack,
  deliver_ack,
}
use anywhere_mesh.Server.Tunnel.Task.{TunnelTask, relay_is_over, run_tunnel}
use anywhere_mesh.Server.Tunnel.Relay.{AlbItem, text_item, close_item}
use anywhere_mesh.Client.Local.Closes.{IsOwn, taken, told_agent, run_tunnel_ends}
use anywhere_mesh.Examples.{lib, open_channels}
use anywhere_mesh.Examples.Upgrades.{open-IsIdle}
use anywhere_mesh.Examples.Tunnels.{opened, session, items}

abbrev task : TunnelTask
task = record { session_id = 50; ack_rx = 0; to_alb_rx = 0; agent_sender = 1 }

abbrev acknowledged : Tunnels → Tunnels
acknowledged t = handle_ws_proxy_init_ack 50 true none none t

abbrev success : WsInitAck
success = record { success = true; message = none; response_headers = none }

is_acked : get 0 (acknowledged opened).acks ≡ some (acked success)
unfolding handle_ws_proxy_init_ack deliver_ack open_waiter open_session no_tunnels get insert
is_acked = refl

still_stored : get 50 (acknowledged opened).ws_sessions ≡ some session
unfolding handle_ws_proxy_init_ack deliver_ack open_waiter open_session no_tunnels get insert
still_stored = refl

-- The local service sends a text and closes.
abbrev from_local : List AlbItem
from_local = text_item (codes "bye") ∷ close_item none ∷ []

stored_alone : IsOwn 50 0 (acknowledged opened).ws_sessions
unfolding handle_ws_proxy_init_ack deliver_ack open_waiter open_session no_tunnels get insert remove
stored_alone = (λ other. absurd (other refl), tt)

run_tunnel_ends_example :
    (ended : Tunnels) × (run_tunnel lib task true acknowledged
        (taken lib task 1 from_local open_channels)
        (record { items = items; ended = true })
        false
        opened
        open_channels
      ≡ some (ended, told_agent lib task items open_channels))
    × (get 50 ended.ws_sessions ≡ none)
    × (get 50 ended.ws_init_waiters ≡ none)
unfolding relay_is_over
run_tunnel_ends_example =
    run_tunnel_ends lib task 1 from_local open_channels acknowledged
      (record { items = items; ended = true }) false opened open_channels success session
      open-IsIdle is_acked refl still_stored refl stored_alone
