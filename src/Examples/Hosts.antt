-- ===== src/Examples/Hosts.antt =====
-- Lookups of a host and of a live instance.
use anywhere_mesh.Base.{◌≡◌, refl, some, none, List, [], ◌∷◌, codes}
use anywhere_mesh.Common.Types.{ServiceRegistration}
use anywhere_mesh.Common.Routing.{match_host_to_service, select_healthy_instance, wildcard_matches}
use anywhere_mesh.Examples.{app, every, app_host, one_agent}

abbrev services : List ServiceRegistration
services = every ∷ app ∷ []

exact_first : match_host_to_service app_host services ≡ some app
unfolding match_host_to_service
exact_first = refl

unknown_host : match_host_to_service (codes "other.org") services ≡ none
unfolding match_host_to_service wildcard_matches
unknown_host = refl

alive_app : select_healthy_instance 6 services one_agent.connections ≡ some app
unfolding select_healthy_instance
alive_app = refl
