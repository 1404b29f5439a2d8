-- ===== src/Server/Tunnel/Handshake.antt =====
-- Opening a tunnel: the refusals, the init message, and the wait for its acknowledgment.
use anywhere_mesh.Base.{
  ℕ, Text, get, insert, values, get-insert_self, Option, some, true, [], ◌∷◌, nat_eq, ◌≡◌, ◌⊎◌,
  refl, arith, inl, inr, Bool-cases,
}
use anywhere_mesh.Common.Types.{Uuid, SystemTime, IngressMessage, ServiceRegistration}
use anywhere_mesh.Common.Routing.{match_host_to_service}
use anywhere_mesh.Common.Routing.Health.{IsAlive, select_healthy_instance-exists}
use anywhere_mesh.Server.Channels.{Sender, Channel, Channels}
use anywhere_mesh.Server.Libraries.{Libraries}
use anywhere_mesh.Server.Registry.{
  Registry, DefaultRegistry, default_registry, get_connection_sender, get_all_connections,
  get_all_registrations,
}
use anywhere_mesh.Server.Http.{HttpRequest, HttpResponse, request_host, upgrade_is_ws, switching}
use anywhere_mesh.Server.Tunnel.{Tunnels, unanswered, ws_proxy_enabled, open_session, open_waiter}
use anywhere_mesh.Server.Tunnel.Open.{
  TunnelReads, init_message, open_tunnel, choose_agent, tunnel_to, start_ws_tunnel_from_alb,
}
use anywhere_mesh.Server.Tunnel.Frames.{extended, send_open}

module _ {S : Type 0} (lib : Libraries) (registry : Registry S) (at : TunnelReads S)
    (session_id : Uuid) (after_send after_session : Tunnels → Tunnels) (req : HttpRequest)
    (t : Tunnels) (channels : Channels) where
  open_tunnel_refuses :
      (g : ServiceRegistration)
      → let out =
          open_tunnel lib registry at session_id after_send after_session req g t channels in
        (out.2.status ≡ 101) ⊎ ((out.0 ≡ t) × (out.1 ≡ channels))
  unfolding open_tunnel switching
  open_tunnel_refuses g = ground arith

  tunnel_to_refuses :
      (choice : HttpResponse ⊎ ServiceRegistration)
      → let out =
          tunnel_to lib registry at session_id after_send after_session req t channels choice in
        (out.2.status ≡ 101) ⊎ ((out.0 ≡ t) × (out.1 ≡ channels))
  unfolding tunnel_to
  tunnel_to_refuses (inl refusal) = inr (refl, refl)
  tunnel_to_refuses (inr g) = open_tunnel_refuses g

  -- A call that does not switch protocols leaves the tunnels and the agents' channels as they
  -- were.
  pub start_ws_tunnel_from_alb_refuses :
      (setting : Option Text)
      → let out =
          start_ws_tunnel_from_alb lib registry setting at session_id after_send after_session req t
            channels in
        (out.2.status ≡ 101) ⊎ ((out.0 ≡ t) × (out.1 ≡ channels))
  unfolding start_ws_tunnel_from_alb
  start_ws_tunnel_from_alb_refuses setting = elim (Bool-cases (ws_proxy_enabled setting)) [
    | inr e ↦ rw (e, start_ws_tunnel_from_alb) (inr (refl, refl))
    | inl e ↦ elim (Bool-cases (upgrade_is_ws req)) [
      | inr f ↦ rw (e, start_ws_tunnel_from_alb) (rw f (inr (refl, refl)))
      | inl f ↦
          rw (e, start_ws_tunnel_from_alb)
            (rw f (tunnel_to_refuses (choose_agent registry at (request_host req))))
    ]
  ]

-- One state of the registry for all the reads of a call.
abbrev pub tunnel_reads : DefaultRegistry → SystemTime → TunnelReads DefaultRegistry
tunnel_reads s now = record { registrations_at = s; connections_at = s; now = now; senders_at = s }

module _ (lib : Libraries) (s : DefaultRegistry) (now : SystemTime) where
  chooses :
      (host : Text) (g : ServiceRegistration)
      → match_host_to_service host (values s.registrations) ≡ some g
      → IsAlive now s.connections g
      → choose_agent default_registry (tunnel_reads s now) host ≡ inr g
  unfolding choose_agent get_all_registrations get_all_connections
  chooses host g matched alive =
      let (q, selected, _, _) =
        select_healthy_instance-exists now (g ∷ []) s.connections g (inl refl) alive in
      rw (matched, choose_agent) (rw selected)

  opens :
      (session_id : Uuid) (after_send after_session : Tunnels → Tunnels) (req : HttpRequest)
      (g : ServiceRegistration) (t : Tunnels) (channels : Channels) (sender : Sender)
      (c : Channel IngressMessage)
      → get g.id s.connection_senders ≡ some sender
      → get sender channels ≡ some c
      → c.receiver_alive ≡ true
      → open_tunnel lib default_registry
          (tunnel_reads s now)
          session_id
          after_send
          after_session
          req
          g
          t
          channels
        ≡ (
          open_waiter session_id (after_session (open_session session_id g.id (after_send t))),
          insert sender (extended c (init_message session_id req ∷ [])) channels,
          switching lib req,
        )
  unfolding open_tunnel get_connection_sender
  opens session_id after_send after_session req g t channels sender c known found alive =
      rw (known, open_tunnel)
        (rw (send_open sender (init_message session_id req) channels c found alive))

  pub start_ws_tunnel_from_alb_opened :
      (setting : Option Text) (session_id : Uuid) (after_send after_session : Tunnels → Tunnels)
      (req : HttpRequest) (g : ServiceRegistration) (t : Tunnels) (channels : Channels)
      (sender : Sender) (c : Channel IngressMessage)
      → ws_proxy_enabled setting ≡ true
      → upgrade_is_ws req ≡ true
      → match_host_to_service (request_host req) (values s.registrations) ≡ some g
      → IsAlive now s.connections g
      → get g.id s.connection_senders ≡ some sender
      → get sender channels ≡ some c
      → c.receiver_alive ≡ true
      → start_ws_tunnel_from_alb lib default_registry setting
          (tunnel_reads s now)
          session_id
          after_send
          after_session
          req
          t
          channels
        ≡ (
          open_waiter session_id (after_session (open_session session_id g.id (after_send t))),
          insert sender (extended c (init_message session_id req ∷ [])) channels,
          switching lib req,
        )
  unfolding start_ws_tunnel_from_alb tunnel_to
  start_ws_tunnel_from_alb_opened setting session_id after_send after_session req g t channels
        sender c enabled upgrade matched alive known found listens =
      rw (enabled, start_ws_tunnel_from_alb)
        (rw upgrade (
          rw (chooses (request_host req) g matched alive) (
            opens session_id after_send after_session req g t channels sender c known found
              listens)))

  -- With a registration matched for the host, its connection live and the channel of its sender
  -- open, an enabled upgrade switches protocols; the agent's last message is the init message of
  -- the session, and the session's waiter has no acknowledgment, whatever other tasks did
  -- meanwhile.
  pub start_ws_tunnel_from_alb_opens :
      (setting : Option Text) (session_id : Uuid) (after_send after_session : Tunnels → Tunnels)
      (req : HttpRequest) (g : ServiceRegistration) (t : Tunnels) (channels : Channels)
      (sender : Sender) (c : Channel IngressMessage)
      → ws_proxy_enabled setting ≡ true
      → upgrade_is_ws req ≡ true
      → match_host_to_service (request_host req) (values s.registrations) ≡ some g
      → IsAlive now s.connections g
      → get g.id s.connection_senders ≡ some sender
      → get sender channels ≡ some c
      → c.receiver_alive ≡ true
      → let out =
          start_ws_tunnel_from_alb lib default_registry setting
            (tunnel_reads s now)
            session_id
            after_send
            after_session
            req
            t
            channels in
        (out.2.status ≡ 101)
        × (get sender out.1 ≡ some (extended c (init_message session_id req ∷ [])))
        × ((h : ℕ) × (get session_id out.0.ws_init_waiters ≡ some h)
            × (get h out.0.acks ≡ some unanswered))
  unfolding open_waiter switching
  start_ws_tunnel_from_alb_opens setting session_id after_send after_session req g t channels sender
        c enabled upgrade matched alive known found listens =
      let before : Tunnels = after_session (open_session session_id g.id (after_send t)) in
      rw
        (start_ws_tunnel_from_alb_opened setting session_id after_send after_session req g t
          channels sender c enabled upgrade matched alive known found listens)
        (
          refl,
          get-insert_self sender (extended c (init_message session_id req ∷ [])) channels,
          (
            before.next_ack,
            get-insert_self session_id before.next_ack before.ws_init_waiters,
            get-insert_self before.next_ack unanswered before.acks,
          ),
        )
