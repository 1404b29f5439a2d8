-- ===== src/Client/Uplink/Turns.antt =====
-- What a connection's loop sends for the sessions of the agent.
use anywhere_mesh.Base.{
  ◌≡◌, refl, ap, sym, ◌∙◌, get-insert_self, nat_eq, filter, Option, none, some, Option-cases, true,
  false, List, [], ◌∷◌, ◌++◌, All, inl, inr, Text, ◌⊎◌,
}
use mathlib.Core.List.{append-nil, append_assoc}
use anywhere_mesh.Common.Types.{IngressMessage}
use anywhere_mesh.Server.Channels.{Sender, Channels, queued}
use anywhere_mesh.Server.Libraries.{Libraries, Parsed, parsed, malformed}
use anywhere_mesh.Client.Anyhow.{Anyhow}
use anywhere_mesh.Client.Sessions.{WebSocketReverseProxy, Connect}
use anywhere_mesh.Client.Identity.{EcsAnywhereClient, heartbeat}
use anywhere_mesh.Client.Agent.{Handled, handle_ingress_message}
use anywhere_mesh.Client.Connection.{
  Connected, Turn, ingress_text, ingress_close, ingress_end, ingress_other, ingress_error,
  heartbeat_ready, heartbeat_closed, reconnect_changed, proxy_ready, proxy_closed, sessions_run,
  finish, send_or, send_replies, set_queue, take_handled, send_first, take_turn, take_turns,
}
use anywhere_mesh.Client.Extends.{Extends, same-Extends}
use anywhere_mesh.Client.Uplink.{
  is_tunnel, uplink, more_waits, sent_beside, ended_same, Keeps, message-Keeps,
}

-- The same for what a text of the ingress comes to, if it can be read.
abbrev KeepsIfRead : Sender → Channels → Anyhow Handled → Type 0
KeepsIfRead tx channels (inl e) = Unit
KeepsIfRead tx channels (inr h) = Keeps tx channels h

Parsed-cases :
    (p : Parsed) → ((e : Text) × (p ≡ malformed e)) ⊎ ((m : IngressMessage) × (p ≡ parsed m))
Parsed-cases (malformed e) = inl (e, refl)
Parsed-cases (parsed m) = inr (m, refl)

by_same :
    (tx : Sender) (c d : Connected)
    → uplink tx d ≡ uplink tx c
    → Extends (uplink tx c) (uplink tx d)
by_same tx c d same = ([], same ∙ sym (append-nil (uplink tx c)))

ended_Extends :
    (tx : Sender) (c : Connected) (result : Anyhow (Unit {0}))
    → Extends (uplink tx c) (uplink tx (record c { ended = some result }))
ended_Extends tx c result = by_same tx c _ (ended_same tx c result)

module _ (lib : Libraries) (connect : Connect) (self : EcsAnywhereClient) (tx : Sender) where
  queued_now :
      (rest : List IngressMessage) (channels : Channels)
      → queued tx (set_queue tx rest channels) ≡ rest
  unfolding queued set_queue
  queued_now rest channels =
      rw (get-insert_self tx (record { receiver_alive = true; queue = rest }) channels, queued) refl

  send_replies-uplink :
      (e : Option Text) (ms : List IngressMessage) (c : Connected)
      → filter is_tunnel ms ≡ []
      → uplink tx (send_replies e ms c) ≡ uplink tx c
  unfolding send_replies finish
  send_replies-uplink e [] c beside = refl
  send_replies-uplink none (m ∷ ms) c beside = sent_beside tx c (m ∷ ms) beside
  send_replies-uplink (some error) (m ∷ ms) c beside = ended_same tx c (inl error)

  ingress_text-Keeps :
      (text : Text) (p : WebSocketReverseProxy) (channels : Channels)
      → KeepsIfRead tx channels
          (handle_ingress_message lib self.proxy_handler connect tx text p channels)
  unfolding handle_ingress_message
  ingress_text-Keeps text p channels = elim (Parsed-cases (lib.from_str text)) [
    | inl (e, is) ↦ rw (is, handle_ingress_message) tt
    | inr (m, is) ↦
        rw (is, handle_ingress_message)
          (message-Keeps lib self.proxy_handler connect tx m p channels)
  ]

  take_handled-uplink :
      (e : Option Text) (h : Anyhow Handled) (c : Connected)
      → KeepsIfRead tx c.channels h
      → Extends (uplink tx c) (uplink tx (take_handled lib connect self tx e h c))
  unfolding take_handled
  take_handled-uplink e (inl error) c keeps = ended_Extends tx c (inl error)
  take_handled-uplink e (inr (p, channels, replies)) c (waits, beside) =
      let d = record c { proxy = p; channels = channels } in
      let (more, longer) = more_waits tx c d refl waits in
      (more, send_replies-uplink e replies d beside ∙ longer)

  -- The turn is no failure to send a message of a session, and what the sessions do leaves in front
  -- what waits.
  abbrev pub IsOrderly : Turn → Type 0
  IsOrderly (proxy_ready (some e)) = ⊥
  IsOrderly (sessions_run act) =
      (p : WebSocketReverseProxy) (channels : Channels)
      → Extends (queued tx channels) (queued tx (act p channels).1)
  IsOrderly _ = Unit

  send_first-uplink :
      (ms : List IngressMessage) (c : Connected)
      → queued tx c.channels ≡ ms
      → uplink tx (send_first lib connect self tx none ms c) ≡ uplink tx c
  unfolding send_first send_or set_queue uplink queued
  send_first-uplink [] c waits = refl
  send_first-uplink (m ∷ rest) c waits =
      ap (λ q. filter is_tunnel ((c.sent ++ m ∷ []) ++ q)) (queued_now rest c.channels)
      ∙ ap (filter is_tunnel) (append_assoc c.sent (m ∷ []) rest)
      ∙ ap (λ q. filter is_tunnel (c.sent ++ q)) (sym waits)

  send_or-uplink :
      (result : Anyhow (Unit {0})) (e : Option Text) (c : Connected)
      → Extends (uplink tx c) (uplink tx (send_or result e (heartbeat self) c))
  unfolding send_or finish heartbeat
  send_or-uplink result none c = by_same tx _ _ (sent_beside tx c (heartbeat self ∷ []) refl)
  send_or-uplink result (some e) c = ended_Extends tx c result

  take_turn-uplink :
      (t : Turn) (c : Connected)
      → IsOrderly t
      → Extends (uplink tx c) (uplink tx (take_turn lib connect self tx t c))
  unfolding take_turn finish
  take_turn-uplink (ingress_text text error) c orderly =
      take_handled-uplink error _ c (ingress_text-Keeps text c.proxy c.channels)
  take_turn-uplink ingress_close c orderly = ended_Extends tx c (inr tt)
  take_turn-uplink ingress_end c orderly = ended_Extends tx c (inr tt)
  take_turn-uplink ingress_other c orderly = same-Extends (uplink tx c)
  take_turn-uplink (ingress_error e) c orderly = ended_Extends tx c (inl e)
  take_turn-uplink (heartbeat_ready error) c orderly = send_or-uplink (inr tt) error c
  take_turn-uplink heartbeat_closed c orderly = ended_Extends tx c (inr tt)
  take_turn-uplink (reconnect_changed true true) c orderly = ended_Extends tx c (inr tt)
  take_turn-uplink (reconnect_changed true false) c orderly = same-Extends (uplink tx c)
  take_turn-uplink (reconnect_changed false value) c orderly = same-Extends (uplink tx c)
  take_turn-uplink (proxy_ready none) c orderly =
      by_same tx _ _ (send_first-uplink (queued tx c.channels) c refl)
  take_turn-uplink (proxy_ready (some e)) c orderly = absurd orderly
  take_turn-uplink proxy_closed c orderly = ended_Extends tx c (inr tt)
  take_turn-uplink (sessions_run act) c orderly =
      more_waits tx c _ refl (orderly c.proxy c.channels)

  -- Whatever turns the loop takes, if no send of a session's message fails and the sessions only add
  -- behind what waits: the messages that were sent for tunnels, followed by those that wait, only
  -- grow at their end.
  pub take_turns-uplink :
      (ts : List Turn) (c : Connected)
      → All IsOrderly ts
      → Extends (uplink tx c) (uplink tx (take_turns lib connect self tx ts c))
  unfolding take_turns uplink
  take_turns-uplink [] c orderly = same-Extends (uplink tx c)
  take_turns-uplink (t ∷ ts) c (one, others) = elim (Option-cases c.ended) [
    | inr (result, e) ↦ rw (e, take_turns) (same-Extends (uplink tx c))
    | inl e ↦
        let (first, grows) = take_turn-uplink t c one in
        let (rest, later) = take_turns-uplink ts (take_turn lib connect self tx t c) others in
        rw (e, take_turns)
          (
            first ++ rest,
            later ∙ ap (λ ms. ms ++ rest) grows ∙ append_assoc (uplink tx c) first rest,
          )
  ]
