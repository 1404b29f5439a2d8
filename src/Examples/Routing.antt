-- ===== src/Examples/Routing.antt =====
-- A request on its way through the router.
use anywhere_mesh.Base.{
  ◌≡◌, ◌↔◌, refl, nat_eq, get, some, none, List, [], ◌∷◌, inl, inr, arith, All, Member, values,
  filter, codes, ◌≢◌, true,
}
use anywhere_mesh.Common.Types.{ServiceRegistration, proxy_request_forward}
use anywhere_mesh.Common.Routing.{match_host_to_service, select_healthy_instance}
use anywhere_mesh.Common.Routing.Hosts.{Serves}
use anywhere_mesh.Common.Routing.Health.{IsAlive}
use anywhere_mesh.Server.Error.{ok}
use anywhere_mesh.Server.Channels.{Channels, send}
use anywhere_mesh.Server.Registry.{
  default_registry, get_all_registrations, get_connection_sender, info_of,
}
use anywhere_mesh.Server.Router.{new, cache_hit, put_cache, serves_alone}
use anywhere_mesh.Server.Router.Route.{find_matching_services, route_request}
use anywhere_mesh.Server.Router.Cache.{
  find_matching_services-Serves, find_matching_services_cached, wildcard_shadows_exact,
}
use anywhere_mesh.Server.Router.Pending.{
  Step, opens, responds, closes, take_steps, IsAllocated, IsForeign, first_answer,
}
use anywhere_mesh.Server.Router.Allocated.{take_steps-IsAllocated}
use anywhere_mesh.Server.Router.Answers.{reply}
use anywhere_mesh.Server.Router.Reach.{HasOpenSender, reads_of, route_request-reply}
use anywhere_mesh.Examples.{
  app, every, app_host, one_agent, open_channels, fresh_router, request, response, foreign_response,
}

abbrev pub during : List Step
during = opens 41 ∷ responds foreign_response ∷ responds response ∷ []

pub fresh-IsAllocated : IsAllocated fresh_router
unfolding take_steps
fresh-IsAllocated = take_steps-IsAllocated 30_000_000_000 []

pub during-IsForeign : All (IsForeign 40 fresh_router.next_handle) during
during-IsForeign = (λ e. omega arith, (tt, (tt, tt)))

pub fresh_misses : cache_hit 10 app_host fresh_router ≡ none
unfolding cache_hit new get
fresh_misses = refl

pub app-IsAlive : IsAlive 12 one_agent.connections app
unfolding get
app-IsAlive = (_, refl, omega arith, omega arith)

pub only_app :
    (q : ServiceRegistration)
    → Member q (values one_agent.registrations)
    → HasOpenSender one_agent open_channels q
unfolding values get
only_app q (inl same) = rw same (1, refl, (_, refl, refl))
only_app q (inr none_left) = absurd none_left

pub app_registered : Member app (values one_agent.registrations)
unfolding values
app_registered = inl refl

route_request-reply_example :
    let out =
      route_request default_registry []
        (reads_of 10 11 12 one_agent)
        (take_steps during)
        (take_steps (closes 41 ∷ []))
        request
        fresh_router
        open_channels in
    (out.2 ≡ ok (reply 40 (first_answer 40 none during))) × (get 40 out.0.pending_requests ≡ none)
route_request-reply_example =
    route_request-reply [] one_agent 10 11 12 request fresh_router open_channels app during
      (closes 41 ∷ []) fresh-IsAllocated fresh_misses app_registered (inl refl) app-IsAlive only_app
      during-IsForeign (λ e. omega arith, tt)

forwarded : Channels
forwarded = (1, record { receiver_alive = true; queue = proxy_request_forward request ∷ [] }) ∷ []

has : get_connection_sender 7 one_agent ≡ ok (some 1)
unfolding get_connection_sender get
has = refl

sent : send 1 (proxy_request_forward request) open_channels ≡ some forwarded
unfolding send forwarded
sent = refl

all_registrations : get_all_registrations one_agent ≡ ok one_agent.registrations
unfolding get_all_registrations
all_registrations = refl

find_matching_services-Serves_example :
    (found : List ServiceRegistration) × (find_matching_services default_registry 10 11 app_host
        one_agent fresh_router
      ≡ (put_cache app_host found 11 fresh_router, ok found))
    × ((g : ServiceRegistration)
        → Member g found ↔ (Member g (values one_agent.registrations) × Serves app_host g))
find_matching_services-Serves_example =
    find_matching_services-Serves default_registry 10 11 app_host one_agent fresh_router
      one_agent.registrations fresh_misses all_registrations

find_matching_services_cached_example :
    let first = find_matching_services default_registry 10 11 app_host one_agent fresh_router in
    find_matching_services default_registry 100 101 app_host
      (record one_agent { registrations = [] })
      first.0
    ≡ first
unfolding new
find_matching_services_cached_example =
    find_matching_services_cached default_registry 10 11 app_host one_agent fresh_router
      one_agent.registrations fresh_misses all_registrations 100 101
      (record one_agent { registrations = [] }) (omega arith) (omega arith)

differs : every.host ≢ app_host
differs e = cc

alive : IsAlive 12 ((8, info_of 8 every 5) ∷ []) every
unfolding get
alive = (_, refl, omega arith, omega arith)

-- A registration of another host before them.
abbrev elsewhere : ServiceRegistration
elsewhere = record app { id = 6; host = codes "elsewhere" }

wildcard_shadows_exact_example :
    (select_healthy_instance 12
        (filter (serves_alone app_host) (elsewhere ∷ every ∷ app ∷ []))
        ((8, info_of 8 every 5) ∷ [])
      ≡ some every)
    × ((q : ServiceRegistration) × (match_host_to_service app_host (elsewhere ∷ every ∷ app ∷ [])
          ≡ some q)
        × (q.host ≡ app_host)
        × (q.host ≢ every.host))
unfolding serves_alone match_host_to_service select_healthy_instance
wildcard_shadows_exact_example =
    wildcard_shadows_exact 12 app_host every app (elsewhere ∷ []) (app ∷ [])
      ((8, info_of 8 every 5) ∷ []) (codes "app", codes ".example.com", refl, refl) differs refl
      (inr (inr (inl refl))) alive refl
