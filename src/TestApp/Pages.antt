-- ===== src/TestApp/Pages.antt =====
-- test-app/src/main.rs: the handlers of plain requests.
use anywhere_mesh.Base.{
  ℕ, ◌-◌, ◌*◌, Text, codes, ltb, none, some, List, [], ◌∷◌, ◌++◌, if◌then◌else◌,
}
use anywhere_mesh.Common.Types.{SystemTime, TextMap, nanos_per_sec}
use anywhere_mesh.Server.Http.{HeaderValue}
use anywhere_mesh.TestApp.{
  AppState, Payload, health, info, echoed, time, headers, environment, stress, error, object, Host,
  service_name, service_version, service_port, get_hostname, get_uptime, get_unix_timestamp,
  headers_to_hashmap, get_filtered_environment,
}

-- A status with a page of HTML or with JSON.
pub data Answer : Type 0 where
  html : Text → Answer
  json : ℕ → Payload → Answer

unfoldable pub index : Host → Answer
index host = elim host.index_html [
  | some content ↦ html content
  | none ↦ html (codes "<h1>Test App</h1><p>Static file not found</p>")
]

unfoldable pub health_check : AppState → Host → Answer
health_check state host = json 200 (
    health (record {
      status = codes "healthy";
      service = service_name;
      timestamp = host.utc;
      uptime_seconds = get_uptime state.start_time host;
    }))

unfoldable pub service_info : AppState → Host → Answer
service_info state host = json 200 (
    info (record {
      service = service_name;
      version = service_version;
      port = service_port;
      hostname = get_hostname host;
      timestamp = host.utc;
      uptime = get_uptime state.start_time host;
      environment = get_filtered_environment host;
    }))

unfoldable pub echo : Text → TextMap → List (Text × HeaderValue) → Host → Answer
echo method params hs host = json 200 (
    echoed (record {
      method = method;
      url = codes "http://" ++ (get_hostname host ++ codes "unknown");
      args = params;
      headers = headers_to_hashmap hs;
      timestamp = host.utc;
      service = service_name;
    }))

unfoldable pub current_time : Host → Answer
current_time host = json 200 (
    time (record {
      timestamp = host.utc;
      unix_timestamp = get_unix_timestamp host;
      formatted = host.format_time host.utc;
      service = service_name;
    }))

unfoldable pub request_headers : Text → List (Text × HeaderValue) → Host → Answer
request_headers method hs host = json 200 (
    headers (record {
      headers = headers_to_hashmap hs;
      method = method;
      path = codes "unknown";
      query_string = [];
      remote_addr = none;
      service = service_name;
      timestamp = host.utc;
    }))

unfoldable pub environment_page : Host → Answer
environment_page host = json 200 (
    environment (record {
      environment = get_filtered_environment host;
      service = service_name;
      timestamp = host.utc;
    }))

-- The runtime's `sleep`: the reading of the clock behind a wait of so many nanoseconds that starts
-- at a reading.
abbrev pub Sleep : Type 0
Sleep = ℕ → SystemTime → SystemTime

-- `host` is read at the start of the call, and `later` behind the wait.
unfoldable pub stress_test : Sleep → ℕ → Host → Host → Answer
stress_test sleep delay host later =
    if ltb 30 delay
    then json 400 (object ((codes "error", codes "Delay too long, max 30 seconds") ∷ []))
    else json 200 (
        stress (record {
          requested_delay = delay;
          actual_delay = sleep (delay * nanos_per_sec) host.instant - host.instant;
          service = service_name;
          timestamp = later.utc;
        }))

unfoldable pub not_found : Host → Answer
not_found host = json 404 (
    error (record {
      error = codes "Not Found";
      message = codes "The requested URL was not found";
      service = service_name;
      available_endpoints =
          codes "/"
          ∷ codes "/api/health"
          ∷ codes "/api/info"
          ∷ codes "/api/echo"
          ∷ codes "/api/time"
          ∷ codes "/api/headers"
          ∷ codes "/api/environment"
          ∷ codes "/api/stress/<delay>"
          ∷ codes "/ws"
          ∷ codes "/api/ws"
          ∷ [];
      timestamp = host.utc;
    }))
