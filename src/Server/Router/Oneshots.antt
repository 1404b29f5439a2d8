-- ===== src/Server/Router/Oneshots.antt =====
-- What dropping a sender and delivering a response do to the router's tables.
use anywhere_mesh.Base.{
  ◌≡◌, ◌≢◌, refl, ap, get, get-insert, get-insert_self, Option, none, some, nat_eq, nat_beq_iff,
  arith, inl, inr, Option-cases,
}
use anywhere_mesh.Common.Types.{ProxyResponse}
use anywhere_mesh.Server.Router.{DefaultRouter, Handle, waiting, delivered, drop_sender, deliver}

pub drop_sender-pending :
    (o : Option Handle) (r : DefaultRouter)
    → (drop_sender o r).pending_requests ≡ r.pending_requests
unfolding drop_sender
drop_sender-pending none r = refl
drop_sender-pending (some h) r = ground arith

pub drop_sender-oneshots :
    (o : Option Handle) (h : Handle) (r : DefaultRouter)
    → o ≢ some h
    → get h (drop_sender o r).oneshots ≡ get h r.oneshots
unfolding drop_sender
drop_sender-oneshots none h r other = refl
drop_sender-oneshots (some j) h r other = elim (Option-cases (get j r.oneshots)) [
  | inl e ↦ rw (e, drop_sender)
  | inr (o, e) ↦
      rw (e, drop_sender)
        (simp get-insert (ground (arith, nat_beq_iff j h, λ (same : j ≡ h). other (ap some same))))
]

pub drop_sender-next :
    (o : Option Handle) (r : DefaultRouter) → (drop_sender o r).next_handle ≡ r.next_handle
unfolding drop_sender
drop_sender-next none r = refl
drop_sender-next (some h) r = ground arith

module _ (j : Handle) (response : ProxyResponse) (r : DefaultRouter) where
  pub deliver-pending : (deliver j response r).pending_requests ≡ r.pending_requests
  unfolding deliver
  deliver-pending = ground arith

  pub deliver-next : (deliver j response r).next_handle ≡ r.next_handle
  unfolding deliver
  deliver-next = ground arith

  pub deliver-oneshots :
      (h : Handle) → j ≢ h → get h (deliver j response r).oneshots ≡ get h r.oneshots
  unfolding deliver
  deliver-oneshots h other =
      ground (arith, get-insert j h (delivered response) r.oneshots, nat_beq_iff j h)

  pub deliver_self :
      get j r.oneshots ≡ some waiting
      → get j (deliver j response r).oneshots ≡ some (delivered response)
  unfolding deliver
  deliver_self e = rw (e, deliver) (get-insert_self j (delivered response) r.oneshots)
