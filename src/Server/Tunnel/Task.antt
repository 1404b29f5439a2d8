-- ===== src/Server/Tunnel/Task.antt =====
-- The task of a tunnel: the upgrade, the wait for the acknowledgment, the two relays, the clean-up.
use anywhere_mesh.Base.{
  ℕ, codes, HashMap, get, Option, none, some, Bool, true, false, not, ◌||◌, List, [], ◌∷◌, ◌==◌,
  nat_eq, nat_beq, ==_refl, ◌&&◌, if◌then◌else◌, ◌≡◌, ap, ◌∙◌, arith, inl, inr, Bool-cases,
}
use anywhere_mesh.Common.Types.{Uuid, web_socket_proxy_close}
use anywhere_mesh.Server.Channels.{Sender, Channels}
use anywhere_mesh.Server.Libraries.{Libraries}
use anywhere_mesh.Server.Tunnel.{Tunnels, WsSession, AckChannel, acked, unanswered, clean_up}
use anywhere_mesh.Server.Tunnel.Relay.{
  AlbItem, text_item, binary_item, ping_item, pong_item, raw_item, broken_item, close_item,
  try_send, alb_to_agent,
}

-- What the task owns: the two receivers by the names of their channels, and the agent's sender.
pub record TunnelTask : Type 0 where
  pub session_id : Uuid
  pub ack_rx : ℕ
  pub to_alb_rx : Sender
  pub agent_sender : Sender

-- Whether a session holds the sender of a channel.
unfoldable pub is_held : Sender → HashMap Uuid WsSession → Bool
is_held tx [] = false
is_held tx ((id, sess) ∷ sessions) = if sess.alb_out_tx == tx then true else is_held tx sessions

-- What the load balancer's stream has yielded, and whether it has ended.
pub record AlbStream : Type 0 where
  pub items : List AlbItem
  pub ended : Bool

-- Whether the loop of `alb_to_agent` is left.
unfoldable pub breaks_off : List AlbItem → Bool
breaks_off [] = false
breaks_off (broken_item ∷ items) = true
breaks_off (close_item reason ∷ items) = true
breaks_off (text_item payload ∷ items) = breaks_off items
breaks_off (binary_item bytes ∷ items) = breaks_off items
breaks_off (ping_item ∷ items) = breaks_off items
breaks_off (pong_item ∷ items) = breaks_off items
breaks_off (raw_item ∷ items) = breaks_off items

unfoldable pub relay_is_over : AlbStream → Bool
unfolding breaks_off
relay_is_over stream = stream.ended || breaks_off stream.items

pub held :
    (id : Uuid) (sess : WsSession) (tx : Sender) (sessions : HashMap Uuid WsSession)
    → get id sessions ≡ some sess
    → sess.alb_out_tx ≡ tx
    → is_held tx sessions ≡ true
unfolding get is_held
held id sess tx [] found own = absurd (ground arith)
held id sess tx ((j, other) ∷ sessions) found own = elim (Bool-cases (nat_beq j id)) [
  | inl e ↦
      let same : other ≡ sess = ground arith in
      let mine : other.alb_out_tx ≡ tx = ap (λ s. s.alb_out_tx) same ∙ own in
      rw (mine, is_held) (rw (==_refl tx))
  | inr e ↦ ground (arith, held id sess tx sessions)
]

-- The task waits for an acknowledgment or for a relay, or it has ended.
abbrev pub Ended : Type 0
Ended = Option (Tunnels × Channels)

module _ (lib : Libraries) (task : TunnelTask) where
  -- Both relays are joined. The one to the agent ends at a close frame, at an error, or at the end of
  -- the load balancer's stream, which yields `items` so far; the one from the agent when its sink
  -- has failed, or when no session holds its sender. Only then the agent is told, and the clean-up
  -- is made.
  unfoldable pub join_relays : AlbStream → Bool → Tunnels → Channels → Ended
  unfolding relay_is_over
  join_relays stream sink_failed t channels =
      if relay_is_over stream && (sink_failed || not (is_held task.to_alb_rx t.ws_sessions))
      then some (
        clean_up task.session_id t,
        try_send task.agent_sender
            (web_socket_proxy_close task.session_id none (some (codes "alb connection closed")))
            (alb_to_agent lib task.session_id task.agent_sender stream.items channels),
      )
      else none

  -- By what the wait for the acknowledgment came to: nothing but the task itself drops the sender of
  -- its waiter, so that the wait never ends by that. `while_open` is what other tasks do to the
  -- tunnels while the relays run.
  unfoldable pub after_ack :
      (Tunnels → Tunnels) → AlbStream → Bool → Option AckChannel → Tunnels → Channels → Ended
  unfolding join_relays
  after_ack while_open stream sink_failed (some (acked ack)) t channels =
      if ack.success
      then join_relays stream sink_failed (while_open t) channels
      else some (clean_up task.session_id t, channels)
  after_ack while_open stream sink_failed (some unanswered) t channels = none
  after_ack while_open stream sink_failed none t channels = none

  -- `before_ack` is what other tasks do to the tunnels until the wait is looked at. A failed upgrade
  -- is only logged.
  unfoldable pub run_tunnel :
      Bool
      → (Tunnels → Tunnels)
      → (Tunnels → Tunnels)
      → AlbStream
      → Bool
      → Tunnels
      → Channels
      → Ended
  run_tunnel upgraded before_ack while_open stream sink_failed t channels =
      if upgraded
      then after_ack while_open stream sink_failed (get task.ack_rx (before_ack t).acks)
          (before_ack t) channels
      else some (t, channels)
