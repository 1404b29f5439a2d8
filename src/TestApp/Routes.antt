-- ===== src/TestApp/Routes.antt =====
-- test-app/src/main.rs: the table of routes, and what a request is answered. axum's router and its
-- extractors are parameters.
use anywhere_mesh.Base.{ℕ, Text, codes, Option, none, some, List, [], ◌∷◌, ◌≡◌, refl, ◌⊎◌, inl, inr}
use anywhere_mesh.Common.Types.{TextMap}
use anywhere_mesh.Server.Http.{HeaderValue}
use anywhere_mesh.TestApp.{AppState, Host}
use anywhere_mesh.TestApp.Pages.{
  Answer, Sleep, index, health_check, service_info, echo, current_time, request_headers,
  environment_page, stress_test, not_found,
}

pub data Handler : Type 0 where
  get_index get_health get_info get_echo get_time get_headers get_environment get_stress : Handler
  get_websocket : Handler

abbrev pub routes : List (Text × Handler)
routes =
    (codes "/", get_index)
    ∷ (codes "/health", get_health)
    ∷ (codes "/api/health", get_health)
    ∷ (codes "/api/info", get_info)
    ∷ (codes "/api/echo", get_echo)
    ∷ (codes "/api/time", get_time)
    ∷ (codes "/api/headers", get_headers)
    ∷ (codes "/api/environment", get_environment)
    ∷ (codes "/api/stress/:delay", get_stress)
    ∷ (codes "/ws", get_websocket)
    ∷ (codes "/api/ws", get_websocket)
    ∷ []

pub record AppRequest : Type 0 where
  pub method : Text
  pub path : Text
  pub query : Option Text
  pub headers : List (Text × HeaderValue)

-- What the router finds for a method and a path: a handler with the captured parts of the path,
-- a path without that method, or no path.
pub data Matched : Type 0 where
  matched : Handler → List Text → Matched
  method_not_allowed no_route : Matched

pub Matched-cases :
    (m : Matched)
    → ((h : Handler) × (captured : List Text) × (m ≡ matched h captured))
      ⊎ ((m ≡ method_not_allowed) ⊎ (m ≡ no_route))
Matched-cases (matched h captured) = inl (h, captured, refl)
Matched-cases method_not_allowed = inr (inl refl)
Matched-cases no_route = inr (inr refl)

-- An answer of a handler, one of axum itself by its status, or the switch to a WebSocket.
pub data Outcome : Type 0 where
  page : Answer → Outcome
  rejected : ℕ → Outcome
  upgraded : Outcome

-- The router over a table of GET routes, and the extractors: Query, Path of a u64, and whether
-- WebSocketUpgrade takes the request, or the status of its rejection.
pub record Axum : Type 0 where
  pub match_route : List (Text × Handler) → Text → Text → Matched
  pub query_map : Option Text → Option TextMap
  pub path_u64 : List Text → Option ℕ
  pub upgrade_error : AppRequest → Option ℕ

module _ (axum : Axum) (sleep : Sleep) (state : AppState) where
  -- A handler behind its extractors. `later` is the host behind a wait.
  unfoldable pub call : Handler → List Text → AppRequest → Host → Host → Outcome
  unfolding index health_check service_info echo current_time request_headers environment_page
      stress_test
  call get_index captured req host later = page (index host)
  call get_health captured req host later = page (health_check state host)
  call get_info captured req host later = page (service_info state host)
  call get_echo captured req host later = elim (axum.query_map req.query) [
    | some params ↦ page (echo req.method params req.headers host)
    | none ↦ rejected 400
  ]
  call get_time captured req host later = page (current_time host)
  call get_headers captured req host later = page (request_headers req.method req.headers host)
  call get_environment captured req host later = page (environment_page host)
  call get_stress captured req host later = elim (axum.path_u64 captured) [
    | some delay ↦ page (stress_test sleep delay host later)
    | none ↦ rejected 400
  ]
  call get_websocket captured req host later = elim (axum.upgrade_error req) [
    | none ↦ upgraded
    | some status ↦ rejected status
  ]

  -- The router with its fallback. The layer for CORS, which is around it, is tower-http's.
  unfoldable pub app : AppRequest → Host → Host → Outcome
  unfolding call not_found
  app req host later = elim (axum.match_route routes req.method req.path) [
    | matched handler captured ↦ call handler captured req host later
    | method_not_allowed ↦ rejected 405
    | no_route ↦ page (not_found host)
  ]
