-- ===== src/Client/Start.antt =====
-- mesh/src/client/mod.rs and the constructor of mesh/src/client/client_impl.rs: the agent's start.
use anywhere_mesh.Base.{
  ℕ, Text, codes, ltb, Option, none, some, Bool, true, false, List, [], ◌++◌, ◌&&◌, ◌≡◌, refl, ap,
  inl, inr,
}
use anywhere_mesh.Common.Types.{Uuid}
use anywhere_mesh.Common.Config.{given_or}
use anywhere_mesh.Client.Anyhow.{Anyhow, ◌>>=◌, Anyhow-cases}
use anywhere_mesh.Client.Aws
use anywhere_mesh.Client.Aws.{AwsService, check_ecs_cluster_access}
use anywhere_mesh.Client.Proxy.{ProxyHandler, LocalRequest, LocalAnswer, failed, answered}
use anywhere_mesh.Client.Identity.{EcsAnywhereClient}

-- ClientCommand of mesh/src/commands.rs.
pub record ClientCommand : Type 0 where
  pub ingress_endpoint : Text
  pub local_endpoint : Text
  pub host : Text
  pub port : ℕ
  pub service_name : Text
  pub cluster_name : Text
  pub health_check_path : Text
  pub skip_iam_validation : Bool

-- An option of the command line: what is given there, else the variable, else the default.
abbrev pub option {ℓ} : {A : Type ℓ} → A → Option A → Option A → A
option default variable given = given_or (given_or default variable) given

-- The values that are given for the options: on the command line, or by the variables.
pub record GivenOptions : Type 0 where
  pub ingress_endpoint : Option Text
  pub local_endpoint : Option Text
  pub host : Option Text
  pub port : Option ℕ
  pub service_name : Option Text
  pub cluster_name : Option Text
  pub health_check_path : Option Text
  pub skip_iam_validation : Option Bool

-- The path of the health check has no variable.
unfoldable pub client_command : GivenOptions → GivenOptions → ClientCommand
client_command vars given = record {
  ingress_endpoint =
      option (codes "ws://localhost:8082") vars.ingress_endpoint given.ingress_endpoint;
  local_endpoint = option (codes "http://localhost:3000") vars.local_endpoint given.local_endpoint;
  host = option (codes "localhost") vars.host given.host;
  port = option 3000 vars.port given.port;
  service_name = option (codes "my-service") vars.service_name given.service_name;
  cluster_name = option (codes "my-cluster") vars.cluster_name given.cluster_name;
  health_check_path = given_or (codes "/health") given.health_check_path;
  skip_iam_validation = option false vars.skip_iam_validation given.skip_iam_validation;
}

-- What the surroundings give the start: the clients of the SDK, the variable with the task's metadata,
-- hyper's functions, a fresh UUID and a name for the first channel.
pub record Surroundings : Type 0 where
  pub ecs_client : Text → Anyhow (List Text)
  pub sts_client : Anyhow (Option Text)
  pub metadata_uri : Option Text
  pub uri_error : Text → Option Text
  pub method_error : Text → Option Text
  pub request_error : LocalRequest → Option Text
  pub http_client : LocalRequest → LocalAnswer
  pub new_v4 : Uuid
  pub first_channel : ℕ

-- EcsAnywhereClient::new
unfoldable pub new_client : Surroundings → ClientCommand → Anyhow EcsAnywhereClient
unfolding Aws.new
new_client env args = do
  aws_service ← Aws.new env.ecs_client env.sts_client env.metadata_uri
  inr (record {
    client_id = env.new_v4;
    cluster_name = args.cluster_name;
    service_name = args.service_name;
    host = args.host;
    port = args.port;
    health_check_path = args.health_check_path;
    local_endpoint = args.local_endpoint;
    aws_service = aws_service;
    proxy_handler = record {
      uri_error = env.uri_error;
      method_error = env.method_error;
      request_error = env.request_error;
      http_client = env.http_client;
      local_endpoint = args.local_endpoint;
    };
    ws_proxy = record {
      local_endpoint = args.local_endpoint;
      sessions = [];
      frames = [];
      next_channel = env.first_channel;
    };
  })

-- The check of the cluster, unless it is skipped.
unfoldable pub validated : EcsAnywhereClient → Bool → Anyhow EcsAnywhereClient
unfolding check_ecs_cluster_access
validated client true = inr client
validated client false =
    check_ecs_cluster_access client.aws_service client.cluster_name >>= λ reachable. inr client

-- What `run` does before the loop that connects: the client with which it goes on, or an error.
unfoldable pub start : Surroundings → ClientCommand → Anyhow EcsAnywhereClient
unfolding new_client validated
start env args = do client ← new_client env args; validated client (args.skip_iam_validation)

-- ProxyHandler::health_check, of mesh/src/client/proxy/mod.rs: an error only for a bad URL.
unfoldable pub health_check : ProxyHandler → Text → Anyhow Bool
health_check handler health_check_path =
    let url : Text = handler.local_endpoint ++ health_check_path in
    elim (handler.uri_error url) [
      | some e ↦ inl e
      | none ↦
          elim (handler.http_client
            (record { method = codes "GET"; uri = url; headers = []; body = none })) [
              | failed e ↦ inr false
              | answered status headers body ↦ inr (ltb 199 status && ltb status 300)
            ]
    ]

validated_anyway : (client : EcsAnywhereClient) (skip : Bool) → validated client skip ≡ inr client
unfolding validated check_ecs_cluster_access
validated_anyway client true = refl
validated_anyway client false =
    elim (Anyhow-cases (client.aws_service.ecs_client client.cluster_name)) [
      | inl (e, h) ↦ rw (h, validated, check_ecs_cluster_access) refl
      | inr (clusters, h) ↦ rw (h, validated, check_ecs_cluster_access) refl
    ]

-- The check of the cluster stops no agent: whatever the SDK answers, `run` goes on as if the check
-- had been skipped.
pub start_unchecked :
    (env : Surroundings) (args : ClientCommand)
    → start env args ≡ start env (record args { skip_iam_validation = true })
unfolding start new_client
start_unchecked env args =
    ap (λ next. new_client env args >>= next)
      (λ i client. validated_anyway client args.skip_iam_validation i)
