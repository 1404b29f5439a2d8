-- ===== src/Examples/Reach.antt =====
-- A request that reaches an agent behind its introduction.
use anywhere_mesh.Base.{get, nat_eq, none, refl, inl, ◌≡◌, arith, [], ◌∷◌}
use anywhere_mesh.Common.Types.{iam_auth, service_registration, heart_beat}
use anywhere_mesh.Server.Error.{ok}
use anywhere_mesh.Server.Registry.{default_registry}
use anywhere_mesh.Server.Router.Route.{route_request}
use anywhere_mesh.Server.Router.Pending.{closes, take_steps, first_answer}
use anywhere_mesh.Server.Router.Answers.{reply}
use anywhere_mesh.Server.Router.Reach.{reads_of}
use anywhere_mesh.Client.Introduction.{take_all}
use anywhere_mesh.Client.Reach.{take_all-reply}
use anywhere_mesh.Examples.{lib, app, request, ingress, auth_request}
use anywhere_mesh.Examples.Routing.{
  during, fresh-IsAllocated, during-IsForeign, fresh_misses, only_app,
}
use anywhere_mesh.Examples.Connections.{accepts, clock, idle, is_known, is_found}

take_all-reply_example :
    let after =
      take_all lib accepts clock 7 0
        (iam_auth auth_request ∷ service_registration app ∷ heart_beat [] 9 ∷ [])
        ingress in
    let out =
      route_request default_registry lib.send_error
        (reads_of 10 11 110 after.state)
        (take_steps during)
        (take_steps (closes 41 ∷ []))
        request
        after.router
        after.channels in
    (out.2 ≡ ok (reply 40 (first_answer 40 none during))) × (get 40 out.0.pending_requests ≡ none)
take_all-reply_example =
    take_all-reply lib accepts clock 7 1 idle auth_request ingress is_known is_found refl app [] 9
      10 11 110 request during (closes 41 ∷ []) fresh-IsAllocated fresh_misses (inl refl)
      (omega arith) (omega arith) only_app during-IsForeign (λ e. omega arith, tt)
