-- ===== src/Client/Handshake.antt =====
-- The start of a connection on both sides: what the agent sends, and what the ingress makes of it.
use anywhere_mesh.Base.{
  ◌<◌, ◌≡◌, refl, Text, codes, nat_eq, length, none, some, Option-cases, true, false, List, [], ◌∷◌,
  Member, inl, inr, arith,
}
use anywhere_mesh.Common.Types.{IngressMessage, iam_auth, iam_auth_response, service_registration}
use anywhere_mesh.Server.Channels.{Channels}
use anywhere_mesh.Server.Libraries.{Libraries, parsed}
use anywhere_mesh.Server.Dispatcher.{AuthService}
use anywhere_mesh.Client.Sessions.{Connect}
use anywhere_mesh.Client.Identity.{EcsAnywhereClient, register_service, auth_request, heartbeat}
use anywhere_mesh.Client.Agent.{
  AuthItem, text_item, close_item, other_item, error_item, auth_answer, await_auth,
}
use anywhere_mesh.Client.Connection.{
  finish, Attempt, starting, first_heartbeat, register, authenticate, connect_and_handle,
}
use anywhere_mesh.Client.Extends.{Extends, take_turns-Extends}

-- The wait ends well only behind a text that is a successful answer.
await_auth-accepted :
    (lib : Libraries) (items : List AuthItem)
    → await_auth lib items ≡ none
    → (text : Text) × Member (text_item text) items × (auth_answer lib text ≡ some true)
unfolding await_auth
await_auth-accepted lib [] h = absurd (ground arith)
await_auth-accepted lib (close_item ∷ items) h = absurd (ground arith)
await_auth-accepted lib (error_item e ∷ items) h = absurd (ground arith)
await_auth-accepted lib (other_item ∷ items) h =
    let (text, m, accepted) = await_auth-accepted lib items h in (text, inr m, accepted)
await_auth-accepted lib (text_item text ∷ items) h = elim (Option-cases (auth_answer lib text)) [
  | inl e ↦
      let (later, m, accepted) = await_auth-accepted lib items (rw (e, await_auth) at h) in
      (later, inr m, accepted)
  | inr (true, e) ↦ (text, inl refl, e)
  | inr (false, e) ↦ absurd (ground (arith, (rw (e, await_auth) at h)))
]

module _ (lib : Libraries) (connect : Connect) (self : EcsAnywhereClient) (a : Attempt)
    (channels : Channels) where
  abbrev pub asking : List IngressMessage
  asking = iam_auth (auth_request a.presigned_url) ∷ []

  -- An agent that has sent a second message on a connection was told before, by a text of the
  -- ingress, that its authentication had succeeded.
  pub connect_and_handle_guarded :
      1 < length (connect_and_handle lib connect self a channels).sent
      → (text : Text) × Member (text_item text) a.auth_items × (auth_answer lib text ≡ some true)
  unfolding connect_and_handle authenticate finish starting
  connect_and_handle_guarded sent = elim (Option-cases a.connect_error) [
    | inr (e, h) ↦ absurd (ground (arith, (rw (h, connect_and_handle) at sent)))
    | inl h ↦ elim (Option-cases a.auth_error) [
      | inr (e, g) ↦
          absurd (ground (arith, (rw (g, authenticate) at (rw (h, connect_and_handle) at sent))))
      | inl g ↦ elim (Option-cases (await_auth lib a.auth_items)) [
        | inr (e, f) ↦ absurd (
            ground
              (arith, (rw f at (rw (g, authenticate) at (rw (h, connect_and_handle) at sent)))))
        | inl f ↦ await_auth-accepted lib a.auth_items f
      ]
    ]
  ]

  -- The connection and the agent's own sends succeed up to the first turn.
  pub record IsSmooth : Type 0 where
    pub connects : a.connect_error ≡ none
    pub asks : a.auth_error ≡ none
    pub registers : a.registration_error ≡ none
    pub beats : a.heartbeat_error ≡ none

  -- The first item of the stream is the text of the response to the agent's request.
  pub record IsTold (auth : AuthService) : Type 0 where
    pub text : Text
    pub later : List AuthItem
    pub items : a.auth_items ≡ text_item text ∷ later
    pub read : lib.from_str text ≡ parsed (iam_auth_response (auth (auth_request a.presigned_url)))

  abbrev pub introduction : List IngressMessage
  introduction =
      iam_auth (auth_request a.presigned_url)
      ∷ service_registration (register_service self)
      ∷ heartbeat self
      ∷ []

  told-answer :
      (auth : AuthService) (told : IsTold auth)
      → auth_answer lib told.text ≡ some (auth (auth_request a.presigned_url)).success
  unfolding auth_answer
  told-answer auth told = rw (told.read, auth_answer) refl

  told-accepted :
      (auth : AuthService)
      → IsTold auth
      → (auth (auth_request a.presigned_url)).success ≡ true
      → await_auth lib a.auth_items ≡ none
  unfolding await_auth
  told-accepted auth told success =
      rw told.items (rw (told-answer auth told, await_auth) (rw success refl))

  pub connect_and_handle-introduction :
      (auth : AuthService)
      → IsSmooth
      → IsTold auth
      → (auth (auth_request a.presigned_url)).success ≡ true
      → Extends introduction (connect_and_handle lib connect self a channels).sent
  unfolding connect_and_handle authenticate register first_heartbeat starting
  connect_and_handle-introduction auth s told success =
      rw (s.connects, connect_and_handle)
        (rw (s.asks, authenticate)
          (rw (told-accepted auth told success) (
            rw (s.registers, register)
              (rw (s.beats, first_heartbeat)
                (take_turns-Extends lib connect self a.proxy_tx a.turns _)))))

  -- An agent whose request was sent and whose first answer is a refusal ends the connection with an
  -- error, and has sent nothing but the request.
  pub connect_and_handle_refused :
      (auth : AuthService)
      → IsSmooth
      → IsTold auth
      → (auth (auth_request a.presigned_url)).success ≡ false
      → ((connect_and_handle lib connect self a channels).sent ≡ asking)
        × ((connect_and_handle lib connect self a channels).ended
            ≡ some (inl (codes "IAM auth failed")))
  unfolding connect_and_handle authenticate starting finish await_auth
  connect_and_handle_refused auth s told failure =
      rw (s.connects, connect_and_handle)
        (rw (s.asks, authenticate)
          (rw told.items (rw (told-answer auth told, await_auth) (rw failure (refl, refl)))))
