-- ===== src/Server/Tunnel/Acks.antt =====
-- The acknowledgment of a tunnel: lost if it is early, taken once.
use anywhere_mesh.Base.{
  ℕ, Text, get, insert, remove, get-insert_self, get-remove_self, Option, none, some, Bool, nat_eq,
  ◌≡◌, ◌⊎◌, refl, ap, inl, inr,
}
use anywhere_mesh.Common.Types.{Uuid, TextMap, ServiceRegistration}
use anywhere_mesh.Server.Channels.{Channels}
use anywhere_mesh.Server.Libraries.{Libraries}
use anywhere_mesh.Server.Registry.{Registry}
use anywhere_mesh.Server.Http.{HttpRequest, HttpResponse, request_host}
use anywhere_mesh.Server.Tunnel.{
  WsInitAck, Tunnels, unanswered, acked, deliver_ack, handle_ws_proxy_init_ack,
}
use anywhere_mesh.Server.Tunnel.Open.{
  TunnelReads, open_tunnel, choose_agent, tunnel_to, start_ws_tunnel_from_alb,
}

no_waiter :
    (session_id : Uuid) (success : Bool) (message : Option Text) (headers : Option TextMap)
    (t : Tunnels)
    → get session_id t.ws_init_waiters ≡ none
    → handle_ws_proxy_init_ack session_id success message headers t ≡ t
unfolding handle_ws_proxy_init_ack
no_waiter session_id success message headers t missing = rw (missing, handle_ws_proxy_init_ack)

module _ (session_id : Uuid) (success : Bool) (message : Option Text)
    (headers : Option TextMap) where
  abbrev pub ack_of : WsInitAck
  ack_of = record { success = success; message = message; response_headers = headers }

  module _ {S : Type 0} (lib : Libraries) (registry : Registry S) (at : TunnelReads S)
      (after_session : Tunnels → Tunnels) (req : HttpRequest) (t : Tunnels)
      (channels : Channels) where
    same_tunnel :
        (choice : HttpResponse ⊎ ServiceRegistration)
        → get session_id t.ws_init_waiters ≡ none
        → tunnel_to lib registry at session_id
            (handle_ws_proxy_init_ack session_id success message headers)
            after_session
            req
            t
            channels
            choice
          ≡ tunnel_to lib registry at session_id (λ u. u) after_session req t channels choice
    unfolding tunnel_to open_tunnel
    same_tunnel (inl refusal) fresh = refl
    same_tunnel (inr g) fresh =
        ap (λ u. open_tunnel lib registry at session_id (λ _. u) after_session req g t channels)
          (no_waiter session_id success message headers t fresh)

    -- If no waiter is stored for the session, an acknowledgment that comes between the sending of
    -- the init message and the storing of the session is lost: the call ends as if it had never
    -- been sent.
    pub start_ws_tunnel_from_alb_loses_early_ack :
        (setting : Option Text)
        → get session_id t.ws_init_waiters ≡ none
        → start_ws_tunnel_from_alb lib registry setting at session_id
            (handle_ws_proxy_init_ack session_id success message headers)
            after_session
            req
            t
            channels
          ≡ start_ws_tunnel_from_alb lib registry setting at session_id
              (λ u. u)
              after_session
              req
              t
              channels
    unfolding start_ws_tunnel_from_alb
    start_ws_tunnel_from_alb_loses_early_ack setting fresh =
        rw (
          same_tunnel (choose_agent registry at (request_host req)) fresh,
          start_ws_tunnel_from_alb,
        )

  pub first_ack :
      (h : ℕ) (t : Tunnels)
      → get session_id t.ws_init_waiters ≡ some h
      → get h t.acks ≡ some unanswered
      → handle_ws_proxy_init_ack session_id success message headers t ≡ record t {
        ws_init_waiters = remove session_id t.ws_init_waiters;
        acks = insert h (acked ack_of) t.acks;
      }
  unfolding handle_ws_proxy_init_ack deliver_ack
  first_ack h t stored waits = rw (stored, handle_ws_proxy_init_ack) (rw (waits, deliver_ack))

  -- The first acknowledgment of a session whose waiter is stored and unanswered is what the tunnel
  -- is told, and ends the wait; a second one changes nothing.
  pub handle_ws_proxy_init_ack_once :
      (again : Bool) (message' : Option Text) (headers' : Option TextMap) (h : ℕ) (t : Tunnels)
      → get session_id t.ws_init_waiters ≡ some h
      → get h t.acks ≡ some unanswered
      → let after = handle_ws_proxy_init_ack session_id success message headers t in
        (get h after.acks ≡ some (acked ack_of))
        × (get session_id after.ws_init_waiters ≡ none)
        × (handle_ws_proxy_init_ack session_id again message' headers' after ≡ after)
  handle_ws_proxy_init_ack_once again message' headers' h t stored waits =
      let gone = get-remove_self session_id t.ws_init_waiters in
      rw (first_ack h t stored waits) (
        get-insert_self h (acked ack_of) t.acks,
        gone,
        no_waiter session_id again message' headers' _ gone,
      )
