-- ===== src/Server/Router/Pending.antt =====
-- The table of pending requests while other tasks work on it: a request that waits is answered by
-- the first response with its id, and by nothing else.
use anywhere_mesh.Base.{
  ◌<◌, ◌≡◌, ◌≢◌, ◌∙◌, ap, Text, get, remove, get-insert, get-remove, get-remove_self, Option, none,
  some, List, [], ◌∷◌, nat_eq, nat_beq_iff, ◌==◌, if◌then◌else◌, arith, inl, inr, Option-cases,
  Bool-cases,
}
use anywhere_mesh.Common.Types.{Uuid, SystemTime, ServiceRegistration, ProxyResponse}
use anywhere_mesh.Server.Router.{
  DefaultRouter, Handle, Oneshot, waiting, delivered, put_cache, open_pending, close_pending,
  handle_response, end_wait,
}
use anywhere_mesh.Server.Router.Oneshots.{
  drop_sender-oneshots, drop_sender-next, deliver-pending, deliver-next, deliver-oneshots,
  deliver_self,
}

-- What another task does to the router in one section.
pub data Step : Type 0 where
  opens closes : Uuid → Step
  responds : ProxyResponse → Step
  ends : Handle → Step
  caches : Text → List ServiceRegistration → SystemTime → Step

unfoldable pub take_step : Step → DefaultRouter → DefaultRouter
take_step (opens id) r = open_pending id r
take_step (closes id) r = close_pending id r
take_step (responds response) r = (handle_response response r).0
take_step (ends h) r = (end_wait h r).0
take_step (caches host services instant) r = put_cache host services instant r

unfoldable pub take_steps : List Step → DefaultRouter → DefaultRouter
take_steps [] r = r
take_steps (s ∷ ss) r = take_steps ss (take_step s r)

-- Every pending request has a channel that was opened.
pub record IsAllocated (r : DefaultRouter) : Type 0 where
  pub below : (k : Uuid) (h : Handle) → get k r.pending_requests ≡ some h → h < r.next_handle

-- The other task works on another request and another channel: request ids are UUIDs.
abbrev pub IsForeign : Uuid → Handle → Step → Type 0
IsForeign id h (opens k) = k ≢ id
IsForeign id h (closes k) = k ≢ id
IsForeign id h (ends j) = j ≢ h
IsForeign id h _ = Unit

-- The first response for the request among what other tasks did.
abbrev pub answer_after : Uuid → Option ProxyResponse → Step → Option ProxyResponse
answer_after id (some response) s = some response
answer_after id none (responds response) = if response.id == id then some response else none
answer_after id none (opens _) = none
answer_after id none (closes _) = none
answer_after id none (ends _) = none
answer_after id none (caches _ _ _) = none

unfoldable pub first_answer : Uuid → Option ProxyResponse → List Step → Option ProxyResponse
first_answer id known [] = known
first_answer id known (s ∷ ss) = first_answer id (answer_after id known s) ss

-- The request is in the table under its channel, or its response is in the channel.
abbrev pub stored_as : Handle → Option ProxyResponse → Option Handle
stored_as h none = some h
stored_as h (some _) = none

abbrev pub channel_as : Option ProxyResponse → Oneshot
channel_as none = waiting
channel_as (some response) = delivered response

pub record Tracks (id : Uuid) (h : Handle) (known : Option ProxyResponse) (r : DefaultRouter)
    : Type 0 where
  pub stored : get id r.pending_requests ≡ stored_as h known
  pub channel : get h r.oneshots ≡ some (channel_as known)
  pub alone : (k : Uuid) → get k r.pending_requests ≡ some h → k ≡ id
  pub below : h < r.next_handle

module _ (id : Uuid) (h : Handle) (r : DefaultRouter) where
  opens-Tracks :
      (known : Option ProxyResponse) (k : Uuid)
      → k ≢ id
      → Tracks id h known r
      → Tracks id h known (open_pending k r)
  unfolding open_pending
  opens-Tracks known k other t = record {
    stored = simp get-insert (ground (arith, t.stored, nat_beq_iff k id));
    channel = simp get-insert (
        ground (
          arith,
          t.channel,
          nat_beq_iff r.next_handle h,
          drop_sender-oneshots (get k r.pending_requests) h r (λ e. other (t.alone k e)),
          t.below,
        ));
    alone =
        λ j e. ground (arith, get-insert k j r.next_handle r.pending_requests, t.alone j, t.below);
    below = omega arith;
  }

  closes-Tracks :
      (known : Option ProxyResponse) (k : Uuid)
      → k ≢ id
      → Tracks id h known r
      → Tracks id h known (close_pending k r)
  unfolding close_pending
  closes-Tracks known k other t = record {
    stored = simp get-remove (ground (arith, t.stored, nat_beq_iff k id));
    channel =
        simp (drop_sender-oneshots (get k r.pending_requests) h r (λ e. other (t.alone k e)))
          t.channel;
    alone = λ j e. ground (arith, get-remove k j r.pending_requests, t.alone j);
    below = rw drop_sender-next t.below;
  }

  ends-Tracks :
      (known : Option ProxyResponse) (j : Handle)
      → j ≢ h
      → Tracks id h known r
      → Tracks id h known (end_wait j r).0
  unfolding end_wait
  ends-Tracks known j other t = record {
    stored = t.stored;
    channel = simp get-insert (ground (arith, t.channel, nat_beq_iff j h));
    alone = t.alone;
    below = t.below;
  }

  -- The response for this request.
  own-Tracks :
      (response : ProxyResponse)
      → response.id ≡ id
      → Tracks id h none r
      → Tracks id h (some response) (handle_response response r).0
  unfolding handle_response
  own-Tracks response mine t =
      let at : get response.id r.pending_requests ≡ some h = rw mine t.stored in
      rw (at, handle_response)
        (record {
          stored = rw deliver-pending (rw mine (get-remove_self id r.pending_requests));
          channel = deliver_self h response _ t.channel;
          alone = λ k g.
              let g' : get k (remove response.id r.pending_requests) ≡ some h =
                rw deliver-pending at g in
              ground (arith, get-remove response.id k r.pending_requests, t.alone k);
          below = rw deliver-next t.below;
        })

  -- A second response finds no pending request.
  again-Tracks :
      (answer response : ProxyResponse)
      → response.id ≡ id
      → Tracks id h (some answer) r
      → Tracks id h (some answer) (handle_response response r).0
  unfolding handle_response
  again-Tracks answer response mine t =
      let at : get response.id r.pending_requests ≡ none = rw mine t.stored in
      rw (at, handle_response) t

  -- A response for another request.
  other-Tracks :
      (known : Option ProxyResponse) (response : ProxyResponse)
      → response.id ≢ id
      → Tracks id h known r
      → Tracks id h known (handle_response response r).0
  unfolding handle_response
  other-Tracks known response other t = elim (Option-cases (get response.id r.pending_requests)) [
    | inl e ↦ rw (e, handle_response) t
    | inr (j, e) ↦
        rw (e, handle_response)
          (record {
            stored =
                rw deliver-pending
                  (simp get-remove (ground (arith, t.stored, nat_beq_iff response.id id)));
            channel =
                deliver-oneshots j response _ h
                  (λ same. other (t.alone response.id (e ∙ ap some same)))
                ∙ t.channel;
            alone = λ k g.
                let g' : get k (remove response.id r.pending_requests) ≡ some h =
                  rw deliver-pending at g in
                ground (arith, get-remove response.id k r.pending_requests, t.alone k);
            below = rw deliver-next t.below;
          })
  ]

  pub step-Tracks :
      (known : Option ProxyResponse) (s : Step)
      → IsForeign id h s
      → Tracks id h known r
      → Tracks id h (answer_after id known s) (take_step s r)
  unfolding take_step
  step-Tracks none (opens k) f t = opens-Tracks none k f t
  step-Tracks none (closes k) f t = closes-Tracks none k f t
  step-Tracks none (ends j) f t = ends-Tracks none j f t
  step-Tracks none (caches host services instant) f t =
      unfold put_cache in
      record { stored = t.stored; channel = t.channel; alone = t.alone; below = t.below }
  step-Tracks none (responds response) f t = elim (Bool-cases (response.id == id)) [
    | inl e ↦ rw e (own-Tracks response ((nat_beq_iff response.id id).0 e) t)
    | inr e ↦
        rw e (other-Tracks none response (λ same. cc (e, (nat_beq_iff response.id id).1 same)) t)
  ]
  step-Tracks (some a) (opens k) f t = opens-Tracks (some a) k f t
  step-Tracks (some a) (closes k) f t = closes-Tracks (some a) k f t
  step-Tracks (some a) (ends j) f t = ends-Tracks (some a) j f t
  step-Tracks (some a) (caches host services instant) f t =
      unfold put_cache in
      record { stored = t.stored; channel = t.channel; alone = t.alone; below = t.below }
  step-Tracks (some a) (responds response) f t = elim (Bool-cases (response.id == id)) [
    | inl e ↦ again-Tracks a response ((nat_beq_iff response.id id).0 e) t
    | inr e ↦ other-Tracks (some a) response (λ same. cc (e, (nat_beq_iff response.id id).1 same)) t
  ]
