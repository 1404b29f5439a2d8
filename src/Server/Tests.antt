-- ===== src/Server/Tests.antt =====
-- The unit tests of registry.rs, router.rs, dispatcher.rs and auth.rs in mesh/src/server: each is true
-- if its assertions hold. The UUIDs and the readings of the clocks that a run draws are arguments.
-- Those of the JSON parser alone are left out.
pub mod Passing
use anywhere_mesh.Base.{
  ℕ, Text, codes, contains_key, values, length, Option, some, none, Bool, true, false, not, ◌&&◌,
  List, [], ◌∷◌, ◌++◌, ◌==◌, nat_eq, text_eq,
}
use anywhere_mesh.Common.Types.{
  Uuid, SystemTime, ServiceRegistration, ProxyRequest, ProxyResponse, registration_ack,
}
use anywhere_mesh.Server.Error.{IngressResult, ok, err}
use anywhere_mesh.Server.Channels.{Sender, Channels}
use anywhere_mesh.Server.Libraries.{Libraries}
use anywhere_mesh.Server.Registry
use anywhere_mesh.Server.Registry.{
  DefaultRegistry, default_registry, register_connection, remove_connection, register_service,
  deregister_service, get_connection_sender, get_all_registrations,
}
use anywhere_mesh.Server.Router
use anywhere_mesh.Server.Router.{DefaultRouter, open_pending, handle_response}
use anywhere_mesh.Server.Router.Route.{Reads, route_request}
use anywhere_mesh.Server.Dispatcher.{
  Ingress, handle_heartbeat, handle_service_registration, handle_service_deregistration,
  send_response,
}
use anywhere_mesh.Server.Auth.{DefaultAuthService, StsAnswer, matches_arn_pattern, is_role_allowed}

-- result.is_ok()
abbrev pub is_ok : {A : Type 0} → IngressResult A → Bool
is_ok (ok a) = true
is_ok (err e) = false

abbrev pub is_some : {A : Type 0} → IngressResult (Option A) → Bool
is_some (ok (some a)) = true
is_some _ = false

-- The service that the tests register, under a host.
unfoldable pub test_registration : Uuid → Text → ServiceRegistration
test_registration id host = record {
  id = id;
  service_name = codes "test-service";
  host = host;
  port = 8080;
  cluster_name = codes "test-cluster";
  task_arn = codes "arn:aws:ecs:us-east-1:123456789012:task/test-cluster/test-task";
  health_check_path = some (codes "/health");
  attributes = [];
}

abbrev pub localhost : Text
localhost = codes "localhost"

-- How many registrations there are, and whether all have the name of the tests' service.
abbrev pub counts : IngressResult (List (Uuid × ServiceRegistration)) → ℕ → Bool
counts (ok all) n = length all == n
counts (err e) n = false

abbrev pub first_named : List (Uuid × ServiceRegistration) → Bool
first_named [] = false
first_named ((id, g) ∷ all) = g.service_name == codes "test-service"

unfoldable pub test_connection_lifecycle : Uuid → Sender → Bool
test_connection_lifecycle connection_id sender =
    let registered = register_connection connection_id sender Registry.new in
    let removed = remove_connection connection_id registered.0 in
    is_ok registered.1
    && is_some (get_connection_sender connection_id registered.0)
    && is_ok removed.1
    && not (is_some (get_connection_sender connection_id removed.0))

unfoldable pub test_service_registration : Uuid → SystemTime → Bool
unfolding test_registration
test_service_registration connection_id now =
    let registered =
      register_service connection_id (test_registration connection_id localhost) now Registry.new in
    let deregistered = deregister_service connection_id registered.0 in
    is_ok registered.1
    && counts (get_all_registrations registered.0) 1
    && first_named registered.0.registrations
    && is_ok deregistered.1
    && counts (get_all_registrations deregistered.0) 0

-- The request of the router's tests, and the response of theirs.
unfoldable pub test_request : Uuid → Text → ProxyRequest
test_request id target_host = record {
  id = id;
  method = codes "GET";
  path = codes "/test";
  headers = [];
  body = none;
  target_host = target_host;
}

unfoldable pub test_response : Uuid → ProxyResponse
test_response id = record {
  id = id;
  status_code = 200;
  headers = [];
  body = some (codes "test response");
}

-- Duration::from_secs(1)
abbrev pub one_second : DefaultRouter
one_second = Router.new 1_000_000_000

-- The reads of a call while no other task runs.
abbrev pub reads_of : DefaultRegistry → SystemTime → SystemTime → SystemTime → Reads DefaultRegistry
reads_of s asked stored now = record {
  asked = asked;
  stored = stored;
  registrations_at = s;
  now = now;
  connections_at = s;
  senders_at = s;
}

abbrev pub has_status : ℕ → IngressResult ProxyResponse → Bool
has_status status (ok response) = response.status_code == status
has_status status (err e) = false

module _ (lib : Libraries) (channels : Channels) (asked stored now : SystemTime) where
  unfoldable pub test_route_request_no_services : Uuid → Bool
  unfolding test_request
  test_route_request_no_services id =
      has_status 404
        (route_request default_registry lib.send_error (reads_of Registry.new asked stored now)
          (λ r. r) (λ r. r) (test_request id (codes "nonexistent.example.com")) one_second
          channels).2

  unfoldable pub test_route_request_no_healthy_services : Uuid → Uuid → SystemTime → Bool
  unfolding test_request test_registration
  test_route_request_no_healthy_services id connection_id registered_at =
      let host : Text = codes "test.example.com" in
      let registered =
        register_service connection_id (test_registration connection_id host) registered_at
          Registry.new in
      is_ok registered.1
      && has_status 503
          (route_request default_registry lib.send_error (reads_of registered.0 asked stored now)
            (λ r. r) (λ r. r) (test_request id host) one_second channels).2

unfoldable pub test_handle_response : Uuid → Bool
unfolding test_response
test_handle_response request_id =
    let handled = handle_response (test_response request_id) (open_pending request_id one_second) in
    is_ok handled.1 && not (contains_key request_id handled.0.pending_requests)

unfoldable pub test_handle_response_unknown_request : Uuid → Bool
unfolding test_response
test_handle_response_unknown_request request_id =
    not (is_ok (handle_response (test_response request_id) one_second).1)

module _ (lib : Libraries) (channels : Channels) (router : DefaultRouter) where
  -- The dispatcher's tests give it a registry only.
  abbrev pub ingress_of : DefaultRegistry → Ingress DefaultRegistry
  ingress_of s = record { state = s; router = router; channels = channels }

  unfoldable pub test_handle_heartbeat : Uuid → SystemTime → SystemTime → Bool
  unfolding test_registration
  test_handle_heartbeat connection_id registered_at now =
      let registered =
        register_service connection_id (test_registration connection_id localhost) registered_at
          Registry.new in
      is_ok registered.1
      && is_ok (handle_heartbeat lib default_registry now connection_id (ingress_of registered.0)).1

  unfoldable pub test_handle_service_registration : Uuid → Sender → SystemTime → Bool
  unfolding test_registration
  test_handle_service_registration connection_id sender now =
      let connected = register_connection connection_id sender Registry.new in
      let handled =
        handle_service_registration lib default_registry now connection_id
          (test_registration connection_id localhost) (ingress_of connected.0) in
      is_ok connected.1 && is_ok handled.1 && counts (get_all_registrations handled.0.state) 1

  unfoldable pub test_handle_service_deregistration : Uuid → SystemTime → Bool
  unfolding test_registration
  test_handle_service_deregistration connection_id now =
      let registered =
        register_service connection_id (test_registration connection_id localhost) now
          Registry.new in
      let handled =
        handle_service_deregistration lib default_registry connection_id
          (ingress_of registered.0) in
      is_ok registered.1 && is_ok handled.1 && counts (get_all_registrations handled.0.state) 0

  unfoldable pub test_send_response_no_connection : Uuid → Bool
  test_send_response_no_connection connection_id = not (
      is_ok
        (send_response lib default_registry connection_id
          (registration_ack connection_id true (codes "test")) (ingress_of Registry.new)).1)

abbrev pub my_role : Text
my_role = codes "arn:aws:iam::123456789012:role/MyRole"

abbrev pub other_role : Text
other_role = codes "arn:aws:iam::123456789012:role/OtherRole"

module _ (http_get : Text → StsAnswer) (show_status : ℕ → Text) where
  -- DefaultAuthService::new
  unfoldable pub auth_service_of : Text → DefaultAuthService
  auth_service_of pattern = record {
    http_get = http_get;
    show_status = show_status;
    allowed_role_patterns = pattern ∷ [];
    skip_validation = false;
  }

  unfoldable pub test_role_allowed : Bool
  unfolding auth_service_of
  test_role_allowed =
      let service = auth_service_of (codes "arn:aws:iam::*:role/MyRole") in
      is_role_allowed service my_role && not (is_role_allowed service other_role)

  unfoldable pub test_wildcard_all_allowed : Bool
  unfolding auth_service_of
  test_wildcard_all_allowed =
      is_role_allowed (auth_service_of (codes "*")) (codes "arn:aws:iam::123456789012:role/AnyRole")

unfoldable pub test_arn_pattern_matching : Bool
test_arn_pattern_matching =
    matches_arn_pattern my_role my_role
    && matches_arn_pattern my_role (codes "arn:aws:iam::*:role/MyRole")
    && not (matches_arn_pattern my_role other_role)
