-- ===== src/Server/Router/Allocated.antt =====
-- The channels of pending requests.
use anywhere_mesh.Base.{
  ◌≡◌, get, get-insert, get-remove, some, List, [], ◌∷◌, nat_eq, arith, ℕ, inl, inr, Option-cases,
  remove,
}
use anywhere_mesh.Common.Types.{ProxyResponse}
use anywhere_mesh.Server.Router.{
  DefaultRouter, new, put_cache, open_pending, close_pending, end_wait, handle_response,
}
use anywhere_mesh.Server.Router.Oneshots.{drop_sender-next, deliver-pending, deliver-next}
use anywhere_mesh.Server.Router.Pending.{
  Step, opens, closes, responds, ends, caches, take_step, take_steps, IsAllocated,
}

response-IsAllocated :
    (response : ProxyResponse) (r : DefaultRouter)
    → IsAllocated r
    → IsAllocated (handle_response response r).0
unfolding handle_response
response-IsAllocated response r v = elim (Option-cases (get response.id r.pending_requests)) [
  | inl e ↦ rw (e, handle_response) v
  | inr (j, e) ↦
      rw (e, handle_response)
        (record {
          below = λ k h g.
              let g' : get k (remove response.id r.pending_requests) ≡ some h =
                rw deliver-pending at g in
              rw deliver-next
                (ground (arith, get-remove response.id k r.pending_requests, v.below k h));
        })
]

step-IsAllocated : (s : Step) (r : DefaultRouter) → IsAllocated r → IsAllocated (take_step s r)
unfolding take_step open_pending close_pending end_wait put_cache
step-IsAllocated (opens id) r v = record {
  below = λ k h g. ground (arith, get-insert id k r.next_handle r.pending_requests, v.below k h);
}
step-IsAllocated (closes id) r v = record {
  below = λ k h g.
      rw drop_sender-next (ground (arith, get-remove id k r.pending_requests, v.below k h));
}
step-IsAllocated (responds response) r v = response-IsAllocated response r v
step-IsAllocated (ends h) r v = record { below = v.below }
step-IsAllocated (caches host services instant) r v = record { below = v.below }

pub keeps_IsAllocated :
    (ss : List Step) (r : DefaultRouter) → IsAllocated r → IsAllocated (take_steps ss r)
unfolding take_steps
keeps_IsAllocated [] r v = v
keeps_IsAllocated (s ∷ ss) r v = keeps_IsAllocated ss (take_step s r) (step-IsAllocated s r v)

-- Whatever tasks do to a new router, every pending request has a channel that was opened.
pub take_steps-IsAllocated : (t : ℕ) (ss : List Step) → IsAllocated (take_steps ss (new t))
unfolding new get
take_steps-IsAllocated t ss = keeps_IsAllocated ss (new t) (record { below = λ k h g. cc })
