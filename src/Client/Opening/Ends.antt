-- ===== src/Client/Opening/Ends.antt =====
-- A load balancer's upgrade, up to the local service and back: the tunnel is open at both ends, or the
-- ingress takes it down.
use anywhere_mesh.Base.{
  ℕ, Text, get, insert, values, get-insert_self, get-remove_self, Option, none, some, Bool, true,
  false, [], ◌∷◌, nat_eq, ◌≡◌, refl, ap, ◌∙◌,
}
use anywhere_mesh.Common.Types.{
  Uuid, SystemTime, ServiceRegistration, IngressMessage, web_socket_proxy_init_ack,
}
use anywhere_mesh.Common.Routing.{match_host_to_service}
use anywhere_mesh.Common.Routing.Health.{IsAlive}
use anywhere_mesh.Server.Channels.{Sender, ChannelsOf, Channels, IsIdle, queued}
use anywhere_mesh.Server.Libraries.{Libraries}
use anywhere_mesh.Server.Registry.{DefaultRegistry, default_registry}
use anywhere_mesh.Server.Http.{HttpRequest, request_host, request_path, upgrade_is_ws, switching}
use anywhere_mesh.Server.Tunnel.{
  Tunnels, acked, ws_proxy_enabled, open_session, open_waiter, clean_up,
}
use anywhere_mesh.Server.Tunnel.Open.{Opened, init_message, start_ws_tunnel_from_alb}
use anywhere_mesh.Server.Tunnel.Frames.{extended, queued-extended}
use anywhere_mesh.Server.Tunnel.Handshake.{tunnel_reads, start_ws_tunnel_from_alb_opened}
use anywhere_mesh.Server.Tunnel.Outward.{try_send_open}
use anywhere_mesh.Server.Tunnel.Acks.{ack_of}
use anywhere_mesh.Server.Tunnel.Relay.{try_send}
use anywhere_mesh.Server.Tunnel.Task.{AlbStream, run_tunnel, after_ack}
use anywhere_mesh.Client.Proxy.{ProxyHandler}
use anywhere_mesh.Client.Sessions.{WebSocketReverseProxy, Connect, to_ws_url, store_session}
use anywhere_mesh.Client.Local.Upward.{take_tunnelled}
use anywhere_mesh.Client.Opening.{
  take_each, takes_init, refuses_init, acknowledged, Keeps, IsConnected,
}

module _ (lib : Libraries) (s : DefaultRegistry) (now : SystemTime) (setting : Option Text)
    (id : Uuid) (after_send after_session : Tunnels → Tunnels) (req : HttpRequest)
    (g : ServiceRegistration) (t : Tunnels) (channels : Channels) (sender : Sender)
    (handler : ProxyHandler) (connect : Connect) (up_tx : Sender) (p : WebSocketReverseProxy)
    (from_agent : Channels) (enabled : ws_proxy_enabled setting ≡ true)
    (upgrade : upgrade_is_ws req ≡ true)
    (matched : match_host_to_service (request_host req) (values s.registrations) ≡ some g)
    (alive : IsAlive now s.connections g) (known : get g.id s.connection_senders ≡ some sender)
    (down : IsIdle sender channels) (up : IsIdle up_tx from_agent) where
  -- The call of the ingress, what the agent makes of what waits for it then, and what the ingress
  -- makes of what the agent sends.
  abbrev out : Opened
  out =
      start_ws_tunnel_from_alb lib default_registry setting (tunnel_reads s now) id after_send
        after_session req t channels

  abbrev agent : WebSocketReverseProxy × Channels
  agent = take_each lib handler connect up_tx (queued sender out.1) p from_agent

  abbrev before : Tunnels
  before = after_session (open_session id g.id (after_send t))

  out-eq : out ≡ (
    open_waiter id before,
    insert sender (extended down.channel (init_message id req ∷ [])) channels,
    switching lib req,
  )
  out-eq =
      start_ws_tunnel_from_alb_opened lib s now setting id after_send after_session req g t channels
        sender down.channel enabled upgrade matched alive known down.found down.alive

  waits_for_agent : queued sender out.1 ≡ init_message id req ∷ []
  waits_for_agent = rw out-eq (
      queued-extended sender
        (insert sender (extended down.channel (init_message id req ∷ [])) channels) down.channel
        (init_message id req ∷ [])
        (get-insert_self sender (extended down.channel (init_message id req ∷ [])) channels)
        down.empty)

  sent_up : (m : IngressMessage) → queued up_tx (try_send up_tx m from_agent) ≡ m ∷ []
  sent_up m = rw (try_send_open up_tx m from_agent up.channel up.found up.alive) (
      queued-extended up_tx (insert up_tx (extended up.channel (m ∷ [])) from_agent) up.channel
        (m ∷ []) (get-insert_self up_tx (extended up.channel (m ∷ [])) from_agent) up.empty)

  IsIdle-new :
      {M : Type 0} (tx : Sender) (channels' : ChannelsOf M)
      → IsIdle tx (insert tx (record { receiver_alive = true; queue = [] }) channels')
  IsIdle-new tx channels' = record {
    channel = record { receiver_alive = true; queue = [] };
    found = get-insert_self tx (record { receiver_alive = true; queue = [] }) channels';
    alive = refl;
    empty = refl;
  }

  connected :
      Keeps id
        (after_send t).next_channel
        (open_session id g.id (after_send t))
        (after_session (open_session id g.id (after_send t)))
      → IsConnected id g.id
          (after_send t).next_channel
          out.0
          (take_tunnelled lib id (web_socket_proxy_init_ack id true none none ∷ []) out.0)
  unfolding open_session open_waiter
  connected keeps =
      let stored =
        get-insert_self id
          (record { agent_connection_id = g.id; alb_out_tx = (after_send t).next_channel })
          (after_send t).ws_sessions in
      let out_waiting = get-insert_self id before.next_ack before.ws_init_waiters in
      let back_told =
        get-insert_self before.next_ack (acked (ack_of id true none none))
          (open_waiter id before).acks in
      rw out-eq (
        rw (acknowledged lib id true none before) (
          keeps.session ∙ stored,
          record {
            channel = record { receiver_alive = true; queue = [] };
            found =
                keeps.frames
                ∙ get-insert_self (after_send t).next_channel
                    (record { receiver_alive = true; queue = [] }) (after_send t).frames;
            alive = refl;
            empty = refl;
          },
          (before.next_ack, out_waiting, back_told),
        ))

  takes_back :
      (success : Bool) (message : Option Text) (p' : WebSocketReverseProxy)
      → agent ≡ (p', try_send up_tx (web_socket_proxy_init_ack id success message none) from_agent)
      → take_tunnelled lib id (queued up_tx agent.1) out.0
        ≡ take_tunnelled lib id (web_socket_proxy_init_ack id success message none ∷ []) out.0
  takes_back success message p' answered =
      rw answered (rw (sent_up (web_socket_proxy_init_ack id success message none)) refl)

  waiting : get id out.0.ws_init_waiters ≡ some before.next_ack
  unfolding open_waiter
  waiting = rw out-eq (get-insert_self id before.next_ack before.ws_init_waiters)

  told :
      (success : Bool) (message : Option Text)
      → get before.next_ack
          (take_tunnelled lib id
            (web_socket_proxy_init_ack id success message none ∷ [])
            out.0).acks
        ≡ some (acked (ack_of id success message none))
  told success message = rw out-eq (
      rw (acknowledged lib id success message before) (
        get-insert_self before.next_ack (acked (ack_of id success message none))
          (open_waiter id before).acks))

  -- Where a call that opens a tunnel finds a live registration with an idle channel, and the agent
  -- reaches the local service, then once the agent has taken what waits for it, and the ingress what
  -- the agent sent, the session is stored at both ends, each with an idle channel for its frames,
  -- and its waiter is told of success, if other tasks leave this session and the channel of its
  -- frames alone until its waiter is stored.
  pub opening_connects :
      connect (to_ws_url p (request_path req)) ≡ none
      → Keeps id
          (after_send t).next_channel
          (open_session id g.id (after_send t))
          (after_session (open_session id g.id (after_send t)))
      → (get id agent.0.sessions ≡ some p.next_channel)
        × IsIdle p.next_channel agent.0.frames
        × IsConnected id g.id
            (after_send t).next_channel
            out.0
            (take_tunnelled lib id (queued up_tx agent.1) out.0)
  unfolding store_session
  opening_connects reached keeps =
      let taken : agent ≡ (
        store_session id p,
        try_send up_tx (web_socket_proxy_init_ack id true none none) from_agent,
      ) =
        rw waits_for_agent (takes_init lib handler connect up_tx id req p from_agent reached) in
      (
        ap (λ a. get id a.0.sessions) taken ∙ get-insert_self id p.next_channel p.sessions,
        rw taken (IsIdle-new p.next_channel p.frames),
        rw (takes_back true none (store_session id p) taken) (connected keeps),
      )

  -- Where the agent does not reach the local service, it stores no session, and the task of the tunnel,
  -- if the load balancer's connection was upgraded, ends behind the acknowledgment, whatever its relays and other tasks would do then, with the error
  -- told to it and with neither the session nor a waiter left.
  pub opening_fails :
      (e : Text) (while_open : Tunnels → Tunnels) (stream : AlbStream) (sink_failed : Bool)
      (to_alb_rx : Sender)
      → connect (to_ws_url p (request_path req)) ≡ some e
      → (agent.0 ≡ p)
        × ((h : ℕ) × (get id out.0.ws_init_waiters ≡ some h)
            × (ended : Tunnels) × (get h ended.acks ≡ some (acked (ack_of id false (some e) none)))
            × (get id ended.ws_sessions ≡ none)
            × (get id ended.ws_init_waiters ≡ none)
            × (run_tunnel lib
                  (record {
                    session_id = id;
                    ack_rx = h;
                    to_alb_rx = to_alb_rx;
                    agent_sender = sender;
                  })
                  true
                  (take_tunnelled lib id (queued up_tx agent.1))
                  while_open
                  stream
                  sink_failed
                  out.0
                  out.1
                ≡ some (ended, out.1)))
  unfolding run_tunnel after_ack clean_up
  opening_fails e while_open stream sink_failed to_alb_rx unreached =
      let taken : agent
          ≡ (p, try_send up_tx (web_socket_proxy_init_ack id false (some e) none) from_agent) =
        rw waits_for_agent
          (refuses_init lib handler connect up_tx id req p from_agent e unreached) in
      let answered : get before.next_ack (take_tunnelled lib id (queued up_tx agent.1) out.0).acks
          ≡ some (acked (ack_of id false (some e) none)) =
        rw (takes_back false (some e) p taken) (told false (some e)) in
      (
        ap (λ a. a.0) taken,
        (
          before.next_ack,
          waiting,
          clean_up id (take_tunnelled lib id (queued up_tx agent.1) out.0),
          answered,
          get-remove_self id (take_tunnelled lib id (queued up_tx agent.1) out.0).ws_sessions,
          get-remove_self id (take_tunnelled lib id (queued up_tx agent.1) out.0).ws_init_waiters,
          rw (answered, run_tunnel) refl,
        ),
      )
