-- ===== src/TestApp/Upgrade.antt =====
-- From a load balancer's upgrade to the echoes of test-app/src/main.rs.
use anywhere_mesh.Base.{ℕ, Text, get, values, Option, none, some, true, List, ◌∷◌, nat_eq, ◌≡◌}
use anywhere_mesh.Common.Types.{Uuid, SystemTime, ServiceRegistration}
use anywhere_mesh.Common.Routing.{match_host_to_service}
use anywhere_mesh.Common.Routing.Health.{IsAlive}
use anywhere_mesh.Server.Channels.{Sender, Channels, IsIdle, queued}
use anywhere_mesh.Server.Libraries.{Libraries}
use anywhere_mesh.Server.Registry.{DefaultRegistry, default_registry}
use anywhere_mesh.Server.Http.{HttpRequest, request_host, request_path, upgrade_is_ws}
use anywhere_mesh.Server.Tunnel.{Tunnels, text, ws_proxy_enabled, open_session}
use anywhere_mesh.Server.Tunnel.Open.{start_ws_tunnel_from_alb}
use anywhere_mesh.Server.Tunnel.Relay.{AlbItem}
use anywhere_mesh.Server.Tunnel.Handshake.{tunnel_reads}
use anywhere_mesh.Server.Tunnel.Frames.{queued-extended}
use anywhere_mesh.Client.Proxy.{ProxyHandler}
use anywhere_mesh.Client.Sessions.{WebSocketReverseProxy, Connect, to_ws_url}
use anywhere_mesh.Client.Opening.{take_each, Keeps}
use anywhere_mesh.Client.Opening.Ends.{opening_connects}
use anywhere_mesh.Client.Local.Upward.{take_tunnelled}
use anywhere_mesh.TestApp.{Host}
use anywhere_mesh.TestApp.Socket.{welcome_msg}
use anywhere_mesh.TestApp.Echo.{echoes, app_sends, comes_back, echo_through_mesh}

-- An upgrade that finds a live registration, whose agent reaches the sample service: when the init
-- message and the acknowledgment have been taken, and the two channels between ingress and agent are
-- idle again, what the load balancer then sends is answered on its session with the welcome and the
-- echoes of its texts and bytes, in order and up to the end of its stream, if base64 decodes what it
-- encoded, the socket of the service takes every message, and other tasks leave this session and the
-- channel of its frames alone until its waiter is stored.
pub upgrade_echoes :
    (lib : Libraries) (s : DefaultRegistry) (now : SystemTime) (setting : Option Text) (id : Uuid)
    (after_send after_session : Tunnels → Tunnels) (req : HttpRequest) (g : ServiceRegistration)
    (t : Tunnels) (channels : Channels) (sender : Sender) (handler : ProxyHandler)
    (connect : Connect) (up_tx : Sender) (p : WebSocketReverseProxy) (from_agent : Channels)
    (host : Host) (clock : ℕ → SystemTime) (items : List AlbItem) (channels' from_agent' : Channels)
    → ws_proxy_enabled setting ≡ true
    → upgrade_is_ws req ≡ true
    → match_host_to_service (request_host req) (values s.registrations) ≡ some g
    → IsAlive now s.connections g
    → get g.id s.connection_senders ≡ some sender
    → IsIdle sender channels
    → IsIdle up_tx from_agent
    → connect (to_ws_url p (request_path req)) ≡ none
    → Keeps id
        (after_send t).next_channel
        (open_session id g.id (after_send t))
        (after_session (open_session id g.id (after_send t)))
    → ((b : List ℕ) → lib.decode (lib.encode b) ≡ some b)
    → IsIdle sender channels'
    → IsIdle up_tx from_agent'
    → let out =
        start_ws_tunnel_from_alb lib default_registry setting
          (tunnel_reads s now)
          id
          after_send
          after_session
          req
          t
          channels in
      let agent = take_each lib handler connect up_tx (queued sender out.1) p from_agent in
      let opened = take_tunnelled lib id (queued up_tx agent.1) out.0 in
      let answers =
        app_sends lib handler connect host clock id sender up_tx p.next_channel items channels'
          from_agent' agent.0 in
      queued (after_send t).next_channel (comes_back lib id up_tx answers from_agent' opened).frames
      ≡ text (welcome_msg host (clock 0)) ∷ echoes host clock 1 items
upgrade_echoes lib s now setting id after_send after_session req g t channels sender handler connect
      up_tx p from_agent host clock items channels' from_agent' enabled upgrade matched alive known
      down up reached keeps decodes down' up' =
    let (at_agent, inward, (at_ingress, outward, _)) =
      opening_connects lib s now setting id after_send after_session req g t channels sender handler
        connect up_tx p from_agent enabled upgrade matched alive known down up reached keeps in
    queued-extended (after_send t).next_channel _ outward.channel _
      (echo_through_mesh lib handler connect host clock id sender up_tx p.next_channel _ decodes
        items channels' from_agent' _ _ outward.channel down' at_agent inward up' at_ingress
        outward.found outward.alive)
      outward.empty
