-- ===== src/Client/Local/Ends.antt =====
-- The end of a session that the ingress closes.
use anywhere_mesh.Base.{
  ℕ, ◌<◌, HashMap, get, insert, remove, get-insert_self, get-remove_self, nat_eq, nat_beq, ==_refl,
  ap, ◌∙◌, Option, none, some, true, false, ◌≡◌, refl, [], ◌∷◌, All, arith, inl, inr, Bool-cases,
  Option-cases, Text,
}
use anywhere_mesh.Common.Types.{Uuid}
use anywhere_mesh.Server.Channels.{Sender, Channels, send}
use anywhere_mesh.Client.Sessions.{
  WebSocketReverseProxy, Connect, to_ws_url, store_session, handle_init, send_local, local_close,
  OutboundToLocal, handle_close_from_server,
}
use anywhere_mesh.Client.Local.{has_sender, join_session}

-- The names of the channels count up.
abbrev pub IsFresh : WebSocketReverseProxy → Type 0
IsFresh p = All (λ (id, tx). tx < p.next_channel) p.sessions

fresh-has_sender :
    (n : Sender) (id : Uuid) (sessions : HashMap Uuid Sender)
    → All (λ (k, tx). tx < n) sessions
    → has_sender n (remove id sessions) ≡ false
unfolding has_sender remove
fresh-has_sender n id [] fresh = refl
fresh-has_sender n id ((k, tx) ∷ sessions) (below, others) =
    ground (arith, fresh-has_sender n id sessions others)

remove_fresh :
    (n : Sender) (id : Uuid) (sessions : HashMap Uuid Sender)
    → All (λ (k, tx). tx < n) sessions
    → All (λ (k, tx). tx < n) (remove id sessions)
unfolding remove
remove_fresh n id [] fresh = tt
remove_fresh n id ((k, tx) ∷ sessions) (below, others) = elim (Bool-cases (nat_beq k id)) [
  | inl e ↦ rw (e, remove) (remove_fresh n id sessions others)
  | inr e ↦ rw (e, remove) (below, remove_fresh n id sessions others)
]

stored_gone :
    (n : Sender) (id : Uuid) (sessions : HashMap Uuid Sender)
    → All (λ (k, tx). tx < n) sessions
    → has_sender n (remove id (insert id n sessions)) ≡ false
unfolding insert remove
stored_gone n id sessions fresh =
    rw (==_refl id) (fresh-has_sender n id (remove id sessions) (remove_fresh n id sessions fresh))

send_local-sessions :
    (tx : Sender) (frame : OutboundToLocal) (p : WebSocketReverseProxy)
    → (send_local tx frame p).sessions ≡ p.sessions
unfolding send_local
send_local-sessions tx frame p = elim (Option-cases (send tx frame p.frames)) [
  | inl e ↦ rw (e, send_local) refl
  | inr (frames, e) ↦ rw (e, send_local) refl
]

close-sessions :
    (id : Uuid) (code : Option ℕ) (reason : Option Text) (p : WebSocketReverseProxy) (tx : Sender)
    → get id p.sessions ≡ some tx
    → (handle_close_from_server id code reason p).sessions ≡ remove id p.sessions
unfolding handle_close_from_server
close-sessions id code reason p tx found =
    rw (found, handle_close_from_server)
      (send_local-sessions tx (local_close code reason)
        (record p { sessions = remove id p.sessions }))

join_ends :
    (id : Uuid) (tx : Sender) (p : WebSocketReverseProxy)
    → has_sender tx p.sessions ≡ false
    → join_session id tx true false p ≡ some (record p { sessions = remove id p.sessions })
unfolding join_session
join_ends id tx p gone = rw gone refl

-- If the names of the channels count up, a session whose local service was reached, which the
-- ingress then closes, and whose local stream has ended, ends: its tasks are joined, also if its
-- sink has not failed, and it is not stored any more.
pub handle_close_from_server_ends :
    (connect : Connect) (id : Uuid) (path : Text) (upstream : Sender) (p : WebSocketReverseProxy)
    (channels : Channels) (code : Option ℕ) (reason : Option Text)
    → IsFresh p
    → connect (to_ws_url p path) ≡ none
    → let opened = (handle_init connect id path upstream p channels).0 in
      let closed = handle_close_from_server id code reason opened in
      (after : WebSocketReverseProxy) × (join_session id p.next_channel true false closed
        ≡ some after)
      × (get id after.sessions ≡ none)
unfolding handle_init store_session
handle_close_from_server_ends connect id path upstream p channels code reason fresh reached =
    rw (reached, handle_init) (ended (store_session id p) refl)
  where
    ended :
        (opened : WebSocketReverseProxy)
        → opened.sessions ≡ insert id p.next_channel p.sessions
        → (after : WebSocketReverseProxy) × (join_session id p.next_channel true false
              (handle_close_from_server id code reason opened)
            ≡ some after)
          × (get id after.sessions ≡ none)
    ended opened stored =
        let found : get id opened.sessions ≡ some p.next_channel =
          rw stored (get-insert_self id p.next_channel p.sessions) in
        let closed = handle_close_from_server id code reason opened in
        let left : closed.sessions ≡ remove id (insert id p.next_channel p.sessions) =
          close-sessions id code reason opened p.next_channel found ∙ ap (remove id) stored in
        (
          record closed { sessions = remove id closed.sessions },
          join_ends id p.next_channel closed
              (rw left (stored_gone p.next_channel id p.sessions fresh)),
          get-remove_self id closed.sessions,
        )
