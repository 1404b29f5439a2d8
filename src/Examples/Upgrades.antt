-- ===== src/Examples/Upgrades.antt =====
-- An upgrade for the agent of app.example.com, whose local service is the sample service.
use anywhere_mesh.Base.{
  ℕ, codes, get, insert, values, none, some, true, false, ◌∷◌, nat_eq, ◌≡◌, refl,
}
use anywhere_mesh.Server.Channels.{IsIdle, queued, send}
use anywhere_mesh.Common.Types.{IngressMessage}
use anywhere_mesh.Server.Registry.{default_registry}
use anywhere_mesh.Server.Tunnel.{Tunnels, text, no_tunnels, acked, open_session, send_frame}
use anywhere_mesh.Server.Tunnel.Open.{Opened, start_ws_tunnel_from_alb}
use anywhere_mesh.Server.Tunnel.Handshake.{tunnel_reads}
use anywhere_mesh.Server.Tunnel.Task.{run_tunnel}
use anywhere_mesh.Server.Tunnel.Acks.{ack_of}
use anywhere_mesh.Client.Opening.{take_each, Keeps, IsConnected}
use anywhere_mesh.Client.Opening.Ends.{opening_connects, opening_fails}
use anywhere_mesh.Client.Sessions.{Connect}
use anywhere_mesh.Client.Local.Upward.{take_tunnelled}
use anywhere_mesh.TestApp.Socket.{welcome_msg}
use anywhere_mesh.TestApp.Echo.{echoes, app_sends, comes_back}
use anywhere_mesh.TestApp.Upgrade.{upgrade_echoes}
use anywhere_mesh.Examples.{app, lib, one_agent, open_channels, upgrade_request}
use anywhere_mesh.Examples.Agents.{handler, proxy}
use anywhere_mesh.Examples.Routing.{app-IsAlive}
use anywhere_mesh.Examples.Sample.{host}
use anywhere_mesh.Examples.Tunnels.{
  items, idle, agent_channel, enabled, is_upgrade, finds_app, known_sender,
}

pub open-IsIdle : IsIdle {M = IngressMessage} 1 open_channels
open-IsIdle = record { channel = idle; found = agent_channel; alive = refl; empty = refl }

-- Meanwhile another task opens a session, and sends it a frame.
abbrev meanwhile : Tunnels → Tunnels
meanwhile t = send_frame t.next_channel (text (codes "x")) (open_session 60 7 t)

alone :
    Keeps 51 no_tunnels.next_channel
      (open_session 51 7 no_tunnels)
      (meanwhile (open_session 51 7 no_tunnels))
unfolding send_frame open_session no_tunnels send get insert
alone = record { session = refl; frames = refl }

abbrev out : Opened
out =
    start_ws_tunnel_from_alb lib default_registry none (tunnel_reads one_agent 12) 51 (λ t. t)
      meanwhile upgrade_request no_tunnels open_channels

abbrev reaches : Connect
reaches = λ url. none

abbrev fails : Connect
fails = λ url. some (codes "refused")

opening_connects_example :
    let agent = take_each lib handler reaches 1 (queued 1 out.1) proxy open_channels in
    (get 51 agent.0.sessions ≡ some 4)
    × IsIdle 4 agent.0.frames
    × IsConnected 51 7 no_tunnels.next_channel out.0
        (take_tunnelled lib 51 (queued 1 agent.1) out.0)
unfolding values
opening_connects_example =
    opening_connects lib one_agent 12 none 51 (λ t. t) meanwhile upgrade_request app no_tunnels
      open_channels 1 handler reaches 1 proxy open_channels enabled is_upgrade finds_app app-IsAlive
      known_sender open-IsIdle open-IsIdle refl alone

opening_fails_example :
    let agent = take_each lib handler fails 1 (queued 1 out.1) proxy open_channels in
    (agent.0 ≡ proxy)
    × ((h : ℕ) × (get 51 out.0.ws_init_waiters ≡ some h)
        × (ended : Tunnels) × (get h ended.acks
            ≡ some (acked (ack_of 51 false (some (codes "refused")) none)))
        × (get 51 ended.ws_sessions ≡ none)
        × (get 51 ended.ws_init_waiters ≡ none)
        × (run_tunnel lib
              (record { session_id = 51; ack_rx = h; to_alb_rx = 0; agent_sender = 1 })
              true
              (take_tunnelled lib 51 (queued 1 agent.1))
              (λ t. t)
              (record { items = items; ended = true })
              false
              out.0
              out.1
            ≡ some (ended, out.1)))
unfolding values
opening_fails_example =
    opening_fails lib one_agent 12 none 51 (λ t. t) meanwhile upgrade_request app no_tunnels
      open_channels 1 handler fails 1 proxy open_channels enabled is_upgrade finds_app app-IsAlive
      known_sender open-IsIdle open-IsIdle (codes "refused") (λ t. t)
      (record { items = items; ended = true }) false 0 refl

upgrade_echoes_example :
    let agent = take_each lib handler reaches 1 (queued 1 out.1) proxy open_channels in
    queued no_tunnels.next_channel
      (comes_back lib 51 1
        (app_sends lib handler reaches host
          (λ n. n)
          51
          1
          1
          4
          items
          open_channels
          open_channels
          agent.0)
        open_channels
        (take_tunnelled lib 51 (queued 1 agent.1) out.0)).frames
    ≡ text (welcome_msg host 0) ∷ echoes host (λ n. n) 1 items
unfolding values
upgrade_echoes_example =
    upgrade_echoes lib one_agent 12 none 51 (λ t. t) meanwhile upgrade_request app no_tunnels
      open_channels 1 handler reaches 1 proxy open_channels host (λ n. n) items open_channels
      open_channels enabled is_upgrade finds_app app-IsAlive known_sender open-IsIdle open-IsIdle
      refl alone (λ b. refl) open-IsIdle open-IsIdle
