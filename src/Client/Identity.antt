-- ===== src/Client/Identity.antt =====
-- mesh/src/client/client_impl.rs: the agent's own data and what it tells the ingress of itself.
use anywhere_mesh.Base.{ℕ, Text, codes, insert, text_eq, none, some, [], inl, inr}
use anywhere_mesh.Common.Types.{Uuid, TextMap, ServiceRegistration, IngressMessage, heart_beat}
use anywhere_mesh.Common.Auth.{IamAuthRequest}
use anywhere_mesh.Client.Anyhow.{Anyhow, unwrap_or}
use anywhere_mesh.Client.Aws.{AwsService}
use anywhere_mesh.Client.Proxy.{ProxyHandler}
use anywhere_mesh.Client.Sessions.{WebSocketReverseProxy}

-- The struct; its HTTP client is the proxy handler's.
pub record EcsAnywhereClient : Type 0 where
  pub client_id : Uuid
  pub cluster_name : Text
  pub service_name : Text
  pub host : Text
  pub port : ℕ
  pub health_check_path : Text
  pub local_endpoint : Text
  pub aws_service : AwsService
  pub proxy_handler : ProxyHandler
  pub ws_proxy : WebSocketReverseProxy

unfoldable pub get_service_attributes : EcsAnywhereClient → Anyhow TextMap
unfolding insert
get_service_attributes self = elim self.aws_service.task_arn [
  | some task_arn ↦ inr (
      insert (codes "task_arn") task_arn (
        insert (codes "version") (codes "1.0.0")
          (insert (codes "environment") (codes "production") [])))
  | none ↦ inr []
]

unfoldable pub register_service : EcsAnywhereClient → ServiceRegistration
unfolding get_service_attributes
register_service self = record {
  id = self.client_id;
  service_name = self.service_name;
  host = self.host;
  port = self.port;
  cluster_name = self.cluster_name;
  task_arn = unwrap_or [] self.aws_service.task_arn;
  attributes = elim (get_service_attributes self) [ inr attributes ↦ attributes | inl e ↦ [] ];
  health_check_path = some self.health_check_path;
}

-- The request with the presigned URL, or without one if it could not be made.
unfoldable pub auth_request : Anyhow Text → IamAuthRequest
auth_request url = record {
  presigned_url = elim url [ inr u ↦ some u | inl e ↦ none ];
  region = codes "us-east-1";
  arn = none;
  account_id = none;
  user_id = none;
}

unfoldable pub heartbeat : EcsAnywhereClient → IngressMessage
heartbeat self = heart_beat self.cluster_name self.client_id
