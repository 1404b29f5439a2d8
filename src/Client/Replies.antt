-- ===== src/Client/Replies.antt =====
-- What the agent answers is what the waiting request is told.
use anywhere_mesh.Base.{
  Text, none, some, List, [], ◌∷◌, ◌⊎◌, inl, inr, ◌≡◌, refl, ap, nat_eq, nat_beq_iff, arith,
}
use anywhere_mesh.Common.Types.{Uuid, ProxyRequest, ProxyResponse}
use anywhere_mesh.Server.Http.{bytes, broken}
use anywhere_mesh.Server.Router.Pending.{Step, responds, first_answer}
use anywhere_mesh.Server.Router.Answers.{reply}
use anywhere_mesh.Client.Proxy.{
  ProxyHandler, LocalAnswer, failed, answered, response_of, forward_request, local_request,
  response_or_error, handle_request,
}

-- A response for the request, if it is one.
abbrev Answers : ProxyRequest → Text ⊎ ProxyResponse → Type 0
Answers q (inl e) = Unit
Answers q (inr response) = response.id ≡ q.id

response_of-Answers : (q : ProxyRequest) (a : LocalAnswer) → Answers q (response_of q a)
unfolding response_of
response_of-Answers q (failed e) = tt
response_of-Answers q (answered status headers (broken e)) = tt
response_of-Answers q (answered status headers (bytes b)) = refl

forward_request-Answers : (h : ProxyHandler) (q : ProxyRequest) → Answers q (forward_request h q)
unfolding forward_request
forward_request-Answers h q =
    let given = response_of-Answers q (h.http_client (local_request h q)) in ground arith

response_or_error-id :
    (q : ProxyRequest) (r : Text ⊎ ProxyResponse) → Answers q r → (response_or_error q r).id ≡ q.id
unfolding response_or_error
response_or_error-id q (inl e) a = refl
response_or_error-id q (inr response) a = a

handle_request-id : (h : ProxyHandler) (q : ProxyRequest) → (handle_request h q).id ≡ q.id
unfolding handle_request
handle_request-id h q = response_or_error-id q (forward_request h q) (forward_request-Answers h q)

answer_stays :
    (id : Uuid) (response : ProxyResponse) (ss : List Step)
    → first_answer id (some response) ss ≡ some response
unfolding first_answer
answer_stays id response [] = refl
answer_stays id response (s ∷ ss) = answer_stays id response ss

-- Whatever the local service does, a failure included, the agent's response is what the waiting
-- request is told if its arrival is the next step, whatever follows.
pub handle_request-reply :
    (h : ProxyHandler) (q : ProxyRequest) (later : List Step)
    → reply q.id (first_answer q.id none (responds (handle_request h q) ∷ later))
      ≡ handle_request h q
unfolding first_answer
handle_request-reply h q later =
    let same = (nat_beq_iff (handle_request h q).id q.id).1 (handle_request-id h q) in
    rw (same, first_answer) (ap (reply q.id) (answer_stays q.id (handle_request h q) later))
