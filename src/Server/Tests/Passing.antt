-- ===== src/Server/Tests/Passing.antt =====
-- The unit tests of mesh/src/server hold for whatever a run draws.
use anywhere_mesh.Base.{
  ℕ, Text, get, insert, remove, values, contains_key, contains, starts_with, ends_with, find, split,
  text_beq, true, nat_eq, text_eq, ==_refl, ◌≡◌, refl, arith,
}
use anywhere_mesh.Common.Types.{Uuid, SystemTime}
use anywhere_mesh.Common.Routing.{
  match_host_to_service, select_healthy_instance, is_healthy, heartbeat_fresh,
}
use anywhere_mesh.Server.Channels.{Sender, Channels, IsOpen, send}
use anywhere_mesh.Server.Libraries.{Libraries}
use anywhere_mesh.Server.Registry
use anywhere_mesh.Server.Registry.{
  register_connection, remove_connection, register_service, deregister_service, update_heartbeat,
  get_connection_sender, get_all_registrations, get_all_connections, put_sender, drop_connection,
  drop_registration, put_connection, put_registration,
}
use anywhere_mesh.Server.Router
use anywhere_mesh.Server.Router.{
  DefaultRouter, handle_response, open_pending, close_pending, deliver, cache_hit, put_cache,
  serves_alone, create_error_response,
}
use anywhere_mesh.Server.Router.Route.{
  route_request, find_matching_services, route_found, select_healthy_service, dispatch_to,
  forward_request, await_forwarded,
}
use anywhere_mesh.Server.Dispatcher.{
  handle_heartbeat, handle_service_registration, handle_service_deregistration, send_response,
  acknowledgment,
}
use anywhere_mesh.Server.Auth.{
  StsAnswer, matches_arn_pattern, match_parts, cut_part, is_role_allowed,
}
use anywhere_mesh.Server.Tests.{
  test_registration, test_connection_lifecycle, test_service_registration,
  test_route_request_no_services, test_route_request_no_healthy_services, test_handle_response,
  test_handle_response_unknown_request, test_handle_heartbeat, test_handle_service_registration,
  test_handle_service_deregistration, test_send_response_no_connection, test_arn_pattern_matching,
  test_role_allowed, test_wildcard_all_allowed,
}

connection_lifecycle : (id : Uuid) (tx : Sender) → test_connection_lifecycle id tx ≡ true
unfolding test_connection_lifecycle register_connection remove_connection get_connection_sender
    Registry.new put_sender Registry.drop_sender drop_connection drop_registration get insert remove
connection_lifecycle id tx = ground (arith, ==_refl id)

service_registration : (id : Uuid) (now : SystemTime) → test_service_registration id now ≡ true
unfolding test_service_registration test_registration text_beq register_service deregister_service
    get_all_registrations Registry.new put_connection put_registration drop_connection
    drop_registration get insert remove
service_registration id now = ground (arith, ==_refl id)

handles_response : (id : Uuid) → test_handle_response id ≡ true
unfolding test_handle_response handle_response open_pending Router.new deliver Router.drop_sender
    get insert remove contains_key
handles_response id = ground (arith, ==_refl id)

unknown_request : (id : Uuid) → test_handle_response_unknown_request id ≡ true
unfolding test_handle_response_unknown_request handle_response Router.new get
unknown_request id = refl

module _ (lib : Libraries) (channels : Channels) where
  no_services :
      (asked stored now : SystemTime) (id : Uuid)
      → test_route_request_no_services lib channels asked stored now id ≡ true
  unfolding test_route_request_no_services route_request find_matching_services route_found
      cache_hit get_all_registrations Registry.new Router.new put_cache get insert
      create_error_response values
  no_services asked stored now id = refl

  no_healthy_services :
      (asked stored now : SystemTime) (id connection_id : Uuid) (at : SystemTime)
      → test_route_request_no_healthy_services lib channels asked stored now id connection_id at
        ≡ true
  unfolding test_route_request_no_healthy_services route_request find_matching_services route_found
      cache_hit get_all_registrations Registry.new Router.new put_cache get insert remove
      create_error_response serves_alone match_host_to_service select_healthy_service
      get_all_connections select_healthy_instance is_healthy heartbeat_fresh dispatch_to
      forward_request await_forwarded open_pending close_pending get_connection_sender
      register_service put_connection put_registration Router.drop_sender values
  no_healthy_services asked stored now id connection_id at = ground (arith, ==_refl connection_id)

  module _ (router : DefaultRouter) where
    heartbeat_taken :
        (id : Uuid) (at now : SystemTime)
        → test_handle_heartbeat lib channels router id at now ≡ true
    unfolding test_handle_heartbeat handle_heartbeat update_heartbeat Registry.new get insert remove
        register_service put_registration put_connection
    heartbeat_taken id at now = ground (arith, ==_refl id)

    takes_registration :
        (id : Uuid) (tx : Sender) (now : SystemTime)
        → IsOpen tx channels
        → test_handle_service_registration lib channels router id tx now ≡ true
    unfolding test_handle_service_registration handle_service_registration send_response
        acknowledgment get_connection_sender get insert remove register_service put_registration
        put_connection register_connection put_sender send get_all_registrations Registry.new
    takes_registration id tx now (c, found, alive) = ground (arith, ==_refl id, found, alive)

    takes_deregistration :
        (id : Uuid) (now : SystemTime)
        → test_handle_service_deregistration lib channels router id now ≡ true
    unfolding test_handle_service_deregistration handle_service_deregistration deregister_service
        drop_connection drop_registration get_all_registrations register_service put_registration
        put_connection Registry.new get insert remove
    takes_deregistration id now = ground (arith, ==_refl id)

    no_connection : (id : Uuid) → test_send_response_no_connection lib channels router id ≡ true
    unfolding test_send_response_no_connection send_response get_connection_sender Registry.new get
    no_connection id = refl

arn_pattern_matching : test_arn_pattern_matching ≡ true
unfolding test_arn_pattern_matching matches_arn_pattern match_parts cut_part text_beq contains split
    starts_with find ends_with
arn_pattern_matching = refl

module _ (http_get : Text → StsAnswer) (show_status : ℕ → Text) where
  role_allowed : test_role_allowed http_get show_status ≡ true
  unfolding test_role_allowed is_role_allowed matches_arn_pattern match_parts cut_part text_beq
      contains split starts_with find ends_with
  role_allowed = refl

  wildcard_all_allowed : test_wildcard_all_allowed http_get show_status ≡ true
  unfolding test_wildcard_all_allowed is_role_allowed text_beq
  wildcard_all_allowed = refl
