-- ===== src/Server/Router/Answers.antt =====
-- A routed request ends with the response to it, or with an error response, and leaves nothing
-- pending.
use anywhere_mesh.Base.{
  ◌≡◌, refl, ap, codes, get, get-insert, get-remove, get-insert_self, get-remove_self, Option, none,
  some, List, [], ◌∷◌, nat_eq, nat_beq_iff, arith, inl, inr, Option-cases, All, Text,
}
use anywhere_mesh.Common.Types.{
  Uuid, ServiceRegistration, ProxyRequest, ProxyResponse, proxy_request_forward,
}
use anywhere_mesh.Server.Error.{ok}
use anywhere_mesh.Server.Channels.{Channels, Sender, send}
use anywhere_mesh.Server.Registry.{Registry}
use anywhere_mesh.Server.Router.{
  DefaultRouter, Handle, Outcome, arrived, expired, waiting, open_pending, close_pending,
  handle_response, end_wait, put_cache, wait_for_response, create_error_response,
}
use anywhere_mesh.Server.Router.Oneshots.{deliver-pending}
use anywhere_mesh.Server.Router.Route.{forward_request, respond, dispatch_to}
use anywhere_mesh.Server.Router.Pending.{
  Step, opens, closes, responds, ends, caches, take_step, take_steps, IsAllocated, IsForeign,
  first_answer, answer_after, Tracks, step-Tracks,
}

pub open_pending-Tracks :
    (id : Uuid) (r : DefaultRouter)
    → IsAllocated r
    → Tracks id r.next_handle none (open_pending id r)
unfolding open_pending
open_pending-Tracks id r v = record {
  stored = get-insert_self id r.next_handle r.pending_requests;
  channel = get-insert_self r.next_handle waiting _;
  alone = λ k e. ground (
    arith,
    get-insert id k r.next_handle r.pending_requests,
    nat_beq_iff id k,
    v.below k r.next_handle,
  );
  below = omega arith;
}

steps-Tracks :
    (id : Uuid) (h : Handle) (known : Option ProxyResponse) (ss : List Step) (r : DefaultRouter)
    → All (IsForeign id h) ss
    → Tracks id h known r
    → Tracks id h (first_answer id known ss) (take_steps ss r)
unfolding first_answer take_steps
steps-Tracks id h known [] r f t = t
steps-Tracks id h known (s ∷ ss) r f t =
    steps-Tracks id h (answer_after id known s) ss (take_step s r) f.1
      (step-Tracks id h r known s f.0 t)

response_absent :
    (id : Uuid) (response : ProxyResponse) (r : DefaultRouter)
    → get id r.pending_requests ≡ none
    → get id (handle_response response r).0.pending_requests ≡ none
unfolding handle_response
response_absent id response r e = elim (Option-cases (get response.id r.pending_requests)) [
  | inl missing ↦ rw (missing, handle_response) e
  | inr (j, found) ↦
      rw (found, handle_response) (rw deliver-pending (simp get-remove (ground arith)))
]

-- A request that is not pending stays so while other tasks work on other requests.
step_absent :
    (id : Uuid) (h : Handle) (s : Step) (r : DefaultRouter)
    → IsForeign id h s
    → get id r.pending_requests ≡ none
    → get id (take_step s r).pending_requests ≡ none
unfolding take_step open_pending close_pending end_wait put_cache
step_absent id h (opens k) r f e = simp get-insert (ground (arith, nat_beq_iff k id))
step_absent id h (closes k) r f e = simp get-remove (ground arith)
step_absent id h (ends j) r f e = e
step_absent id h (caches host services instant) r f e = e
step_absent id h (responds response) r f e = response_absent id response r e

steps_absent :
    (id : Uuid) (h : Handle) (ss : List Step) (r : DefaultRouter)
    → All (IsForeign id h) ss
    → get id r.pending_requests ≡ none
    → get id (take_steps ss r).pending_requests ≡ none
unfolding take_steps
steps_absent id h [] r f e = e
steps_absent id h (s ∷ ss) r f e =
    steps_absent id h ss (take_step s r) f.1 (step_absent id h s r f.0 e)

-- What the waiting request is told: the response, or that the time is up.
abbrev pub reply : Uuid → Option ProxyResponse → ProxyResponse
reply id (some response) = response
reply id none = create_error_response id 504 (codes "Gateway Timeout")

abbrev outcome_as : Option ProxyResponse → Outcome
outcome_as none = expired
outcome_as (some response) = arrived response

-- The end of a wait that `known` describes.
finished :
    (id : Uuid) (h : Handle) (known : Option ProxyResponse) (late : List Step) (r : DefaultRouter)
    → All (IsForeign id h) late
    → Tracks id h known r
    → (respond id (wait_for_response id (end_wait h r).1 (take_steps late (end_wait h r).0)).1
        ≡ reply id known)
      × (get id
            (wait_for_response id
              (end_wait h r).1
              (take_steps late (end_wait h r).0)).0.pending_requests
          ≡ none)
unfolding end_wait wait_for_response respond close_pending
finished id h none late r f t = rw t.channel (refl, get-remove_self id _)
finished id h (some response) late r f t = rw t.channel (refl, steps_absent id h late _ f t.stored)

module _ {S : Type 0} (registry : Registry S) (send_error : Text) where
  forward_request-sent :
      (request : ProxyRequest) (service : ServiceRegistration) (s : S) (r : DefaultRouter)
      (channels channels' : Channels) (sender : Sender)
      → registry.get_connection_sender service.id s ≡ ok (some sender)
      → send sender (proxy_request_forward request) channels ≡ some channels'
      → forward_request registry send_error request service s r channels
        ≡ (open_pending request.id r, channels', ok r.next_handle)
  unfolding forward_request
  forward_request-sent request service s r channels channels' sender found sent =
      rw (found, sent, forward_request)

  -- In a router whose pending requests have allocated channels, a request that was handed to an
  -- open connection is answered with the first response that carries its id among what other tasks
  -- did while it waited, and with 504 if there was none, where these tasks work on other requests
  -- and channels. Afterwards it is not pending, and no other message was sent.
  pub dispatch_to-reply :
      (request : ProxyRequest) (service : ServiceRegistration) (s : S) (r : DefaultRouter)
      (channels channels' : Channels) (sender : Sender) (during late : List Step)
      → IsAllocated r
      → registry.get_connection_sender service.id s ≡ ok (some sender)
      → send sender (proxy_request_forward request) channels ≡ some channels'
      → All (IsForeign request.id r.next_handle) during
      → All (IsForeign request.id r.next_handle) late
      → let out =
          dispatch_to registry send_error
            (take_steps during)
            (take_steps late)
            request
            service
            s
            r
            channels in
        (out.2 ≡ ok (reply request.id (first_answer request.id none during)))
        × (get request.id out.0.pending_requests ≡ none)
        × (out.1 ≡ channels')
  unfolding dispatch_to
  dispatch_to-reply request service s r channels channels' sender during late v found sent fd fl =
      let waits =
        steps-Tracks request.id r.next_handle none during (open_pending request.id r) fd
          (open_pending-Tracks request.id r v) in
      let (answer, cleaned) =
        finished request.id r.next_handle (first_answer request.id none during) late
          (take_steps during (open_pending request.id r)) fl waits in
      rw (forward_request-sent request service s r channels channels' sender found sent)
        (ap ok answer, cleaned, refl)
