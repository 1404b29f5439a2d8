-- ===== src/Server/Start.antt =====
-- mesh/src/server/mod.rs and the constructor of mesh/src/server/service.rs: the start of the ingress.
pub mod Serve
use anywhere_mesh.Base.{
  ℕ, ◌≤◌, ◌<◌, ◌≡◌, refl, Text, codes, text_beq, Option, none, some, List, [], ◌∷◌, ◌*◌, text_eq,
}
use anywhere_mesh.Common.Types.{Uuid, SystemTime, nanos_per_sec}
use anywhere_mesh.Common.Auth.{IamAuthRequest, IamIdentity}
use anywhere_mesh.Common.Config.{given_or}
use anywhere_mesh.Server.Auth.{
  DefaultAuthService, StsAnswer, answered, extract_xml_field, is_role_allowed, authenticate,
  accepted,
}
use anywhere_mesh.Server.Auth.Identity.{authenticate-accepts}
use anywhere_mesh.Server.Registry
use anywhere_mesh.Server.Registry.{DefaultRegistry}
use anywhere_mesh.Server.Router
use anywhere_mesh.Server.Tunnel.{no_tunnels}
use anywhere_mesh.Server.Service.{Service, skip_iam_validation, allowed_role_patterns_of}
use anywhere_mesh.Server.Handlers.Pages.{Instance}

-- ServerCommand of mesh/src/commands.rs.
pub record ServerCommand : Type 0 where
  pub alb_port : ℕ
  pub websocket_port : ℕ
  pub request_timeout : ℕ

-- By what the command line gives.
unfoldable pub server_command : Option ℕ → Option ℕ → Option ℕ → ServerCommand
server_command alb_port websocket_port request_timeout = record {
  alb_port = given_or 8080 alb_port;
  websocket_port = given_or 8082 websocket_port;
  request_timeout = given_or 30 request_timeout;
}

-- The two variables that the constructor reads, and what it is given: the HTTP client, the text of a
-- status, a fresh UUID and the clock.
pub record ServiceEnv : Type 0 where
  pub skip_iam_validation : Option Text
  pub allowed_role_arns : Option Text
  pub http_get : Text → StsAnswer
  pub show_status : ℕ → Text
  pub new_v4 : Uuid
  pub now : SystemTime

pub record Started : Type 0 where
  pub instance_info : Instance
  pub auth_service : DefaultAuthService
  pub service : Service DefaultRegistry

-- CombinedIngressService::new
unfoldable pub new_service : ServiceEnv → Started
unfolding skip_iam_validation allowed_role_patterns_of
new_service env = record {
  instance_info = record { server_instance_id = env.new_v4; started_at = env.now };
  auth_service = record {
    http_get = env.http_get;
    show_status = env.show_status;
    allowed_role_patterns = allowed_role_patterns_of env.allowed_role_arns;
    skip_validation = skip_iam_validation env.skip_iam_validation;
  };
  service = record {
    ingress = record {
      state = Registry.new;
      router = Router.new (30 * nanos_per_sec);
      channels = [];
    };
    tunnels = no_tunnels;
  };
}

-- The three servers that `run` spawns, with the handlers that they call.
pub data ServerTask : Type 0 where
  alb_server internal_server websocket_server : ServerTask

unfoldable pub port_of : ServerCommand → ServerTask → ℕ
port_of args alb_server = args.alb_port
port_of args internal_server = 8081
port_of args websocket_server = args.websocket_port

-- The status with which the process exits, by the servers that have ended, the first one first.
unfoldable pub exit_status : List ServerTask → Option ℕ
exit_status [] = none
exit_status (ended ∷ later) = some 1

-- A service that is started without both variables accepts any identity: for whatever request with
-- a URL whose answer has a 2xx status and the three fields, the response names what was answered.
pub new_service_accepts :
    (env : ServiceEnv) (request : IamAuthRequest) (url : Text) (status : ℕ) (body : Text)
    (identity : IamIdentity)
    → env.skip_iam_validation ≡ none
    → env.allowed_role_arns ≡ none
    → request.presigned_url ≡ some url
    → env.http_get url ≡ answered status body
    → 200 ≤ status
    → status < 300
    → extract_xml_field body (codes "Arn") ≡ some identity.arn
    → extract_xml_field body (codes "Account") ≡ some identity.account_id
    → extract_xml_field body (codes "UserId") ≡ some identity.user_id
    → authenticate (new_service env).auth_service request
      ≡ accepted identity.arn identity.account_id identity.user_id
unfolding new_service skip_iam_validation allowed_role_patterns_of is_role_allowed text_beq
new_service_accepts env request url status body identity no_skip no_roles carries is_answered low
      high arn account user =
    rw no_skip (
      rw no_roles (
        authenticate-accepts _ request url identity refl carries (record {
          status = status;
          body = body;
          answer = is_answered;
          success_status = (low, high);
          arn = arn;
          account = account;
          user = user;
          allowed = refl;
        })))
