-- ===== src/Examples/Sample.antt =====
-- The sample service: alone, and behind an agent.
use anywhere_mesh.Base.{
  codes, get, show_nat, ltb, none, some, true, [], ◌∷◌, ◌++◌, ◌+◌, nat_eq, text_eq, ◌≡◌, ◌↔◌, refl,
  if◌then◌else◌,
}
use anywhere_mesh.TestApp.{Host}
use anywhere_mesh.TestApp.Routes.{get_environment, get_stress, matched, AppRequest, Axum, app}
use anywhere_mesh.TestApp.Environment.{IsSensitive, last_of, environment_of, app-shows_iff}
use anywhere_mesh.TestApp.Start.{main, served, panicked, main_serves}

abbrev pub host : Host
host = record {
  hostname = none;
  vars =
      (codes "PATH", codes "/bin") ∷ (codes "API_KEY", codes "1") ∷ (codes "PORT", codes "80") ∷ [];
  index_html = none;
  utc = 5;
  instant = 7;
  since_epoch = some 5;
  to_string_lossy = λ t. t;
  to_uppercase = λ t. t;
  to_json = λ p. [];
  show_time = λ t. [];
  format_time = λ t. [];
}

abbrev axum : Axum
axum = record {
  match_route = λ table method path. matched get_environment [];
  query_map = λ q. some [];
  path_u64 = λ captured. some 20;
  upgrade_error = λ r. none;
}

abbrev app_request : AppRequest
app_request = record {
  method = codes "GET";
  path = codes "/api/environment";
  query = none;
  headers = [];
}

app-shows_iff_example :
    (get (codes "API_KEY") (
        environment_of
          (app axum (λ d at. at + d) (record { start_time = 0 }) app_request host host))
      ≡ some (codes "1"))
    ↔ ((true ≡ true)
        × (last_of (codes "API_KEY") host.vars ≡ some (codes "1"))
        × (¬ IsSensitive host (codes "API_KEY")))
app-shows_iff_example =
    app-shows_iff axum (λ d at. at + d) (record { start_time = 0 }) app_request host host
      (codes "API_KEY") (codes "1")

abbrev waits : Axum
waits = record axum { match_route = λ table method path. matched get_stress (codes "20" ∷ []) }

main_serves_example :
    (main none (λ addr. none) (λ addr. none) ≡ served (codes "0.0.0.0:3000"))
    × (main (some (show_nat 80)) (λ addr. none) (λ addr. none)
        ≡ (if ltb 65535 80 then panicked else served (codes "0.0.0.0:" ++ show_nat 80)))
main_serves_example = main_serves 80 (λ addr. none) (λ addr. none) (λ addr. refl) (λ addr. refl)
