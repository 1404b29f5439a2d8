-- ===== src/Common/Types.antt =====
-- mesh/src/common/types.rs: registrations, proxied requests and the messages of the protocol.
use anywhere_mesh.Base.{Text, HashMap, ℕ, Option, Bool, List}
use anywhere_mesh.Common.Auth.{IamAuthRequest, IamAuthResponse}

-- A UUID, as the number that its 128 bits write.
abbrev pub Uuid : Type 0
Uuid = ℕ

-- A reading of `SystemTime` or `Instant`, in nanoseconds.
abbrev pub SystemTime : Type 0
SystemTime = ℕ

abbrev pub nanos_per_sec : ℕ
nanos_per_sec = 1_000_000_000

-- Attributes and header maps.
abbrev pub TextMap : Type 0
TextMap = HashMap Text Text

pub record RouteConfig : Type 0 where
  pub host : Text
  pub target_service : Text
  pub ecs_cluster : Text
  pub ecs_service : Text
  pub attributes : TextMap

pub record ServiceRegistration : Type 0 where
  pub id : Uuid
  pub host : Text
  pub port : ℕ
  pub service_name : Text
  pub cluster_name : Text
  pub task_arn : Text
  pub attributes : TextMap
  pub health_check_path : Option Text

pub record ProxyRequest : Type 0 where
  pub id : Uuid
  pub method : Text
  pub path : Text
  pub headers : TextMap
  pub body : Option (List ℕ)
  pub target_host : Text

pub record ProxyResponse : Type 0 where
  pub id : Uuid
  pub status_code : ℕ
  pub headers : List (Text × Text)
  pub body : Option (List ℕ)

pub data IngressMessage : Type 0 where
  -- cluster_name, client_id
  heart_beat : Text → Uuid → IngressMessage
  proxy_response : ProxyResponse → IngressMessage
  proxy_request : ProxyRequest → IngressMessage
  proxy_request_forward : ProxyRequest → IngressMessage
  -- session_id, target_host, path, headers, subprotocols
  web_socket_proxy_init : Uuid → Text → Text → TextMap → Option (List Text) → IngressMessage
  -- session_id, success, message, response_headers
  web_socket_proxy_init_ack : Uuid → Bool → Option Text → Option TextMap → IngressMessage
  -- session_id, frame_type, payload
  web_socket_proxy_data : Uuid → Text → Option Text → IngressMessage
  -- session_id, code, reason
  web_socket_proxy_close : Uuid → Option ℕ → Option Text → IngressMessage
  iam_auth : IamAuthRequest → IngressMessage
  service_registration : ServiceRegistration → IngressMessage
  service_deregistration : Uuid → IngressMessage
  iam_auth_response : IamAuthResponse → IngressMessage
  -- id, success, message
  registration_ack : Uuid → Bool → Text → IngressMessage

pub record ConnectionInfo : Type 0 where
  pub id : Uuid
  pub service_name : Text
  pub host : Text
  pub port : ℕ
  pub last_heartbeat : SystemTime
  pub attributes : TextMap
