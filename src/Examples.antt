-- ===== src/Examples.antt =====
-- Runs at concrete inputs: one agent that serves app.example.com, and one for all of example.com.
mod Hosts
mod Registry
mod Sample
mod Upgrades
mod Routing
mod Auth
mod Messages
mod Handlers
mod Tunnels
mod Services
mod Agents
mod Tasks
mod Connections
mod Local
mod Exchange
mod Delivery
mod Uplinks
mod Reach
mod Presigned
use anywhere_mesh.Base.{Text, codes, none, some, true, false, [], ◌∷◌, ◌++◌, HashMap, ℕ}
use anywhere_mesh.Common.Types.{
  Uuid, SystemTime, ServiceRegistration, ProxyRequest, ProxyResponse, ConnectionInfo,
}
use anywhere_mesh.Common.Auth.{IamAuthRequest, IamAuthResponse}
use anywhere_mesh.Server.Channels.{Channels}
use anywhere_mesh.Server.Registry.{DefaultRegistry, info_of}
use anywhere_mesh.Server.Router.{DefaultRouter, new}
use anywhere_mesh.Server.Auth.{DefaultAuthService, StsAnswer, answered}
use anywhere_mesh.Server.Libraries.{Libraries, malformed, parsed}
use anywhere_mesh.Server.Dispatcher.{Ingress}
use anywhere_mesh.Server.Http.{HttpRequest, bytes}

abbrev pub a_minute : SystemTime
a_minute = 60_000_000_000

abbrev service : Uuid → Text → ServiceRegistration
service id host = record {
  id = id;
  host = host;
  port = 8080;
  service_name = codes "app";
  cluster_name = codes "cluster";
  task_arn = codes "arn";
  attributes = [];
  health_check_path = none;
}

abbrev pub app_host : Text
app_host = codes "app.example.com"

abbrev pub app : ServiceRegistration
app = service 7 app_host

abbrev pub every : ServiceRegistration
every = service 8 (codes "*.example.com")

-- The agent of `app` is connected, registered, and has its channel 1.
abbrev pub one_agent : DefaultRegistry
one_agent = record {
  connections = (7, info_of 7 app 5) ∷ [];
  registrations = (7, app) ∷ [];
  connection_senders = (7, 1) ∷ [];
}

abbrev pub open_channels : Channels
open_channels = (1, record { receiver_alive = true; queue = [] }) ∷ []

abbrev pub fresh_router : DefaultRouter
fresh_router = new 30_000_000_000

abbrev pub request : ProxyRequest
request = record {
  id = 40;
  method = codes "GET";
  path = codes "/";
  headers = [];
  body = none;
  target_host = app_host;
}

abbrev pub response : ProxyResponse
response = record { id = 40; status_code = 200; headers = []; body = some (codes "hello") }

abbrev pub foreign_response : ProxyResponse
foreign_response = record { id = 41; status_code = 500; headers = []; body = none }

abbrev pub lib : Libraries
lib = record {
  from_str = λ t. malformed t;
  send_error = codes "channel closed";
  show_uuid = λ id. id ∷ [];
  encode = λ t. t;
  decode = λ t. some t;
  derive_accept_key = λ key. key;
  valid_header = λ name value. true;
  builder_error = codes "invalid";
}

abbrev pub ingress : Ingress DefaultRegistry
ingress = record { state = one_agent; router = fresh_router; channels = open_channels }

abbrev pub role : Text
role = codes "arn:aws:iam::1:role/mesh"

abbrev pub identity_document : Text
identity_document =
    codes "<Arn>arn:aws:iam::1:role/mesh</Arn><UserId>u</UserId><Account>1</Account>"

abbrev pub auth_service : DefaultAuthService
auth_service = record {
  http_get = λ url. answered 200 identity_document;
  show_status = λ n. n ∷ [];
  allowed_role_patterns = codes "arn:aws:iam::1:role/*" ∷ [];
  skip_validation = false;
}

abbrev pub auth_request : IamAuthRequest
auth_request = record {
  presigned_url = some (codes "https://sts");
  region = codes "us-east-1";
  arn = none;
  account_id = none;
  user_id = none;
}

abbrev pub http_request : HttpRequest
http_request = record {
  method = codes "GET";
  path = codes "/";
  path_and_query = some (codes "/?q");
  authority = none;
  headers = (codes "host", some (codes "app.example.com:80")) ∷ (codes "te", some []) ∷ [];
  body = bytes [];
}

abbrev pub upgrade_request : HttpRequest
upgrade_request = record http_request {
  headers =
      (codes "upgrade", some (codes "WebSocket"))
      ∷ (codes "host", some (codes "app.example.com:80"))
      ∷ [];
}
