-- ===== src/Client/Extends.antt =====
-- A turn of the loop only adds to what the agent has sent.
use anywhere_mesh.Base.{
  ◌≡◌, refl, ap, sym, ◌∙◌, Text, nat_eq, Option, none, some, Option-cases, true, false, List, [],
  ◌∷◌, ◌++◌, inl, inr,
}
use mathlib.Core.List.{append-nil, append_assoc}
use anywhere_mesh.Common.Types.{IngressMessage}
use anywhere_mesh.Server.Channels.{Sender}
use anywhere_mesh.Server.Libraries.{Libraries}
use anywhere_mesh.Client.Anyhow.{Anyhow}
use anywhere_mesh.Client.Sessions.{Connect}
use anywhere_mesh.Client.Identity.{EcsAnywhereClient}
use anywhere_mesh.Client.Agent.{Handled}
use anywhere_mesh.Client.Connection.{
  Connected, Turn, ingress_text, ingress_close, ingress_end, ingress_other, ingress_error,
  heartbeat_ready, heartbeat_closed, reconnect_changed, proxy_ready, proxy_closed, sessions_run,
  finish, send_or, send_replies, take_handled, send_first, take_turn, take_turns,
}

-- More messages behind those of before.
abbrev pub Extends : List IngressMessage → List IngressMessage → Type 0
Extends before after = (rest : List IngressMessage) × (after ≡ before ++ rest)

pub same-Extends : (ms : List IngressMessage) → Extends ms ms
same-Extends ms = ([], sym (append-nil ms))

module _ (lib : Libraries) (connect : Connect) (self : EcsAnywhereClient) (tx : Sender) where
  send_or-Extends :
      (r : Anyhow (Unit {0})) (e : Option Text) (m : IngressMessage) (c : Connected)
      → Extends c.sent (send_or r e m c).sent
  unfolding send_or finish
  send_or-Extends r none m c = (m ∷ [], refl)
  send_or-Extends r (some e) m c = same-Extends c.sent

  send_replies-Extends :
      (e : Option Text) (ms : List IngressMessage) (c : Connected)
      → Extends c.sent (send_replies e ms c).sent
  unfolding send_replies finish
  send_replies-Extends e [] c = same-Extends c.sent
  send_replies-Extends none (m ∷ ms) c = (m ∷ ms, refl)
  send_replies-Extends (some e) (m ∷ ms) c = same-Extends c.sent

  take_handled-Extends :
      (e : Option Text) (h : Anyhow Handled) (c : Connected)
      → Extends c.sent (take_handled lib connect self tx e h c).sent
  unfolding take_handled finish
  take_handled-Extends e (inl error) c = same-Extends c.sent
  take_handled-Extends e (inr (p, channels, replies)) c =
      send_replies-Extends e replies (record c { proxy = p; channels = channels })

  send_first-Extends :
      (e : Option Text) (ms : List IngressMessage) (c : Connected)
      → Extends c.sent (send_first lib connect self tx e ms c).sent
  unfolding send_first
  send_first-Extends e [] c = same-Extends c.sent
  send_first-Extends e (m ∷ rest) c = send_or-Extends _ e m _

  take_turn-Extends :
      (t : Turn) (c : Connected) → Extends c.sent (take_turn lib connect self tx t c).sent
  unfolding take_turn finish
  take_turn-Extends (ingress_text text error) c = take_handled-Extends error _ c
  take_turn-Extends ingress_close c = same-Extends c.sent
  take_turn-Extends ingress_end c = same-Extends c.sent
  take_turn-Extends ingress_other c = same-Extends c.sent
  take_turn-Extends (ingress_error e) c = same-Extends c.sent
  take_turn-Extends (heartbeat_ready error) c = send_or-Extends _ error _ c
  take_turn-Extends heartbeat_closed c = same-Extends c.sent
  take_turn-Extends (reconnect_changed true true) c = same-Extends c.sent
  take_turn-Extends (reconnect_changed true false) c = same-Extends c.sent
  take_turn-Extends (reconnect_changed false value) c = same-Extends c.sent
  take_turn-Extends (proxy_ready error) c = send_first-Extends error _ c
  take_turn-Extends proxy_closed c = same-Extends c.sent
  take_turn-Extends (sessions_run act) c = same-Extends c.sent

  pub take_turns-Extends :
      (ts : List Turn) (c : Connected) → Extends c.sent (take_turns lib connect self tx ts c).sent
  unfolding take_turns
  take_turns-Extends [] c = same-Extends c.sent
  take_turns-Extends (t ∷ ts) c = elim (Option-cases c.ended) [
    | inr (result, e) ↦ rw (e, take_turns) (same-Extends c.sent)
    | inl e ↦
        let (first, one) = take_turn-Extends t c in
        let (rest, others) = take_turns-Extends ts (take_turn lib connect self tx t c) in
        rw (e, take_turns)
          (first ++ rest, others ∙ ap (λ ms. ms ++ rest) one ∙ append_assoc c.sent first rest)
  ]
