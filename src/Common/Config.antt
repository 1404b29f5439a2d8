-- ===== src/Common/Config.antt =====
-- mesh/src/common/config.rs: the configuration and its defaults. Neither the server nor the agent
-- reads it. A constructor takes, for each field with a default, the value that the text gives, if any;
-- an f64 is the number that its bits write.
use anywhere_mesh.Base.{ℕ, Text, HashMap, codes, Option, none, some, Bool, false, List, []}

pub data LoadBalancingStrategy : Type 0 where
  round_robin random least_connections : LoadBalancingStrategy

pub record ServerConfig : Type 0 where
  pub alb_port : ℕ
  pub health_port : ℕ
  pub websocket_port : ℕ
  pub request_timeout : ℕ
  pub max_connections : ℕ

pub record EcsConfig : Type 0 where
  pub allowed_clusters : List Text
  pub region : Text
  pub skip_validation : Bool
  pub discovery_interval : ℕ
  pub required_labels : List Text

pub record RoutingConfig : Type 0 where
  pub health_check_interval : ℕ
  pub unhealthy_threshold : ℕ
  pub load_balancing : LoadBalancingStrategy

pub record LoggingConfig : Type 0 where
  pub level : Text
  pub json_format : Bool
  pub log_bodies : Bool

pub record IngressConfig : Type 0 where
  pub server : ServerConfig
  pub ecs : EcsConfig
  pub routing : RoutingConfig
  pub logging : LoggingConfig

pub record RetryConfig : Type 0 where
  pub max_attempts : ℕ
  pub initial_delay_ms : ℕ
  pub max_delay_ms : ℕ
  pub backoff_multiplier : ℕ

pub record ConnectionConfig : Type 0 where
  pub ingress_endpoint : Text
  pub local_endpoint : Text
  pub retry : RetryConfig
  pub heartbeat_interval : ℕ

pub record ClusterConfig : Type 0 where
  pub cluster_name : Text
  pub discovery_interval : ℕ
  pub default_local_port : ℕ
  pub local_host : Text
  pub label_filters : HashMap Text Text

pub record AwsConfig : Type 0 where
  pub region : Text
  pub skip_iam_validation : Bool
  pub profile : Option Text

pub record ClientConfig : Type 0 where
  pub connection : ConnectionConfig
  pub cluster : ClusterConfig
  pub aws : AwsConfig
  pub logging : LoggingConfig

abbrev pub default_alb_port : ℕ
default_alb_port = 8080

abbrev pub default_health_port : ℕ
default_health_port = 8081

abbrev pub default_websocket_port : ℕ
default_websocket_port = 8082

abbrev pub default_request_timeout : ℕ
default_request_timeout = 30

abbrev pub default_max_connections : ℕ
default_max_connections = 1000

abbrev pub default_aws_region : Text
default_aws_region = codes "us-east-1"

abbrev pub default_discovery_interval : ℕ
default_discovery_interval = 30

abbrev pub default_health_check_interval : ℕ
default_health_check_interval = 30

abbrev pub default_unhealthy_threshold : ℕ
default_unhealthy_threshold = 90

abbrev pub default_log_level : Text
default_log_level = codes "info"

abbrev pub default_heartbeat_interval : ℕ
default_heartbeat_interval = 10

abbrev pub default_max_retries : ℕ
default_max_retries = 5

abbrev pub default_initial_delay : ℕ
default_initial_delay = 1000

abbrev pub default_max_delay : ℕ
default_max_delay = 30000

-- The bits of 2.0.
abbrev pub default_backoff_multiplier : ℕ
default_backoff_multiplier = 4_611_686_018_427_387_904

abbrev pub default_local_port : ℕ
default_local_port = 3000

abbrev pub default_local_host : Text
default_local_host = codes "localhost"

-- The value that is given, or the default.
abbrev pub given_or {ℓ} : {A : Type ℓ} → A → Option A → A
given_or other none = other
given_or other (some a) = a

unfoldable pub server_config : Option ℕ → Option ℕ → Option ℕ → Option ℕ → Option ℕ → ServerConfig
server_config alb_port health_port websocket_port request_timeout max_connections = record {
  alb_port = given_or default_alb_port alb_port;
  health_port = given_or default_health_port health_port;
  websocket_port = given_or default_websocket_port websocket_port;
  request_timeout = given_or default_request_timeout request_timeout;
  max_connections = given_or default_max_connections max_connections;
}

unfoldable pub ecs_config : List Text → Option Text → Option Bool → Option ℕ → List Text → EcsConfig
ecs_config allowed_clusters region skip_validation discovery_interval required_labels = record {
  allowed_clusters = allowed_clusters;
  region = given_or default_aws_region region;
  skip_validation = given_or false skip_validation;
  discovery_interval = given_or default_discovery_interval discovery_interval;
  required_labels = required_labels;
}

unfoldable pub routing_config : Option ℕ → Option ℕ → Option LoadBalancingStrategy → RoutingConfig
routing_config health_check_interval unhealthy_threshold load_balancing = record {
  health_check_interval = given_or default_health_check_interval health_check_interval;
  unhealthy_threshold = given_or default_unhealthy_threshold unhealthy_threshold;
  load_balancing = given_or round_robin load_balancing;
}

unfoldable pub logging_config : Option Text → Option Bool → Option Bool → LoggingConfig
logging_config level json_format log_bodies = record {
  level = given_or default_log_level level;
  json_format = given_or false json_format;
  log_bodies = given_or false log_bodies;
}

unfoldable pub retry_config : Option ℕ → Option ℕ → Option ℕ → Option ℕ → RetryConfig
retry_config max_attempts initial_delay_ms max_delay_ms backoff_multiplier = record {
  max_attempts = given_or default_max_retries max_attempts;
  initial_delay_ms = given_or default_initial_delay initial_delay_ms;
  max_delay_ms = given_or default_max_delay max_delay_ms;
  backoff_multiplier = given_or default_backoff_multiplier backoff_multiplier;
}

unfoldable pub connection_config : Text → Text → RetryConfig → Option ℕ → ConnectionConfig
connection_config ingress_endpoint local_endpoint retry heartbeat_interval = record {
  ingress_endpoint = ingress_endpoint;
  local_endpoint = local_endpoint;
  retry = retry;
  heartbeat_interval = given_or default_heartbeat_interval heartbeat_interval;
}

unfoldable pub cluster_config :
    Text → Option ℕ → Option ℕ → Option Text → Option (HashMap Text Text) → ClusterConfig
cluster_config cluster_name discovery_interval default_port local_host label_filters = record {
  cluster_name = cluster_name;
  discovery_interval = given_or default_discovery_interval discovery_interval;
  default_local_port = given_or default_local_port default_port;
  local_host = given_or default_local_host local_host;
  label_filters = given_or [] label_filters;
}

unfoldable pub aws_config : Option Text → Option Bool → Option Text → AwsConfig
aws_config region skip_iam_validation profile = record {
  region = given_or default_aws_region region;
  skip_iam_validation = given_or false skip_iam_validation;
  profile = profile;
}
