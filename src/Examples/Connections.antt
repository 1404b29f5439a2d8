-- ===== src/Examples/Connections.antt =====
-- An agent's connections: the handshake, the heartbeats and the health monitor.
use anywhere_mesh.Base.{
  ℕ, ◌+◌, ◌*◌, ◌<◌, ◌≤◌, ◌≡◌, ◌↔◌, refl, Text, codes, get, nat_eq, length, none, some, true, false,
  List, [], ◌∷◌, inl, inr, arith, Member,
}
use anywhere_mesh.Common.Types.{IngressMessage, iam_auth_response, nanos_per_sec}
use anywhere_mesh.Common.Routing.{is_healthy}
use anywhere_mesh.Server.Channels.{Channel}
use anywhere_mesh.Server.Libraries.{Libraries, parsed}
use anywhere_mesh.Server.Registry.{info_of}
use anywhere_mesh.Server.Auth.{accepted, refused}
use anywhere_mesh.Server.Dispatcher.{AuthService}
use anywhere_mesh.Client.Identity.{EcsAnywhereClient, register_service, auth_request}
use anywhere_mesh.Client.Agent.{text_item, auth_answer, await_auth}
use anywhere_mesh.Client.Connection.{
  Attempt, connect_and_handle, authenticate, register, first_heartbeat, take_turns, starting,
}
use anywhere_mesh.Client.Extends.{Extends}
use anywhere_mesh.Client.Handshake.{IsSmooth, IsTold, introduction, connect_and_handle_guarded}
use anywhere_mesh.Client.Introduction.{IsIntroduced, take_all, connect_and_handle_introduces}
use anywhere_mesh.Client.Heartbeats.{tick_at, after_beats, after_beats_healthy}
use anywhere_mesh.Client.Monitor.{Poll, failed, answered, watch, HasChanged, watch_iff}
use anywhere_mesh.Client.Start.{ClientCommand, Surroundings, start, start_unchecked}
use anywhere_mesh.Examples.{lib, app, app_host, one_agent, open_channels, ingress}
use anywhere_mesh.Examples.Agents.{handler, proxy}

abbrev pub agent : EcsAnywhereClient
agent = record {
  client_id = 9;
  cluster_name = codes "cluster";
  service_name = codes "app";
  host = app_host;
  port = 8080;
  health_check_path = codes "/health";
  local_endpoint = codes "http://localhost:3000";
  aws_service = record {
    ecs_client = λ name. inl (codes "denied");
    sts_client = inl (codes "denied");
    task_arn = none;
  };
  proxy_handler = handler;
  ws_proxy = proxy;
}

abbrev attempt : Attempt
attempt = record {
  connect_error = none;
  presigned_url = inr (codes "https://sts");
  auth_error = none;
  auth_items = text_item (codes "{}") ∷ [];
  registration_error = none;
  heartbeat_error = none;
  proxy_tx = 8;
  turns = [];
}

abbrev pub accepts : AuthService
accepts request = accepted (codes "arn") (codes "1") (codes "u")

abbrev refuses : AuthService
refuses request = refused (codes "no")

-- Every text is the answer of the service.
abbrev answering : AuthService → Libraries
answering auth = record lib {
  from_str = λ t. parsed (iam_auth_response (auth (auth_request (inr (codes "https://sts")))));
}

smooth : (l : Libraries) → IsSmooth l (λ url. none) agent attempt open_channels
smooth l = record { connects = refl; asks = refl; registers = refl; beats = refl }

told : (auth : AuthService) → IsTold (answering auth) (λ url. none) agent attempt open_channels auth
told auth = record { text = codes "{}"; later = []; items = refl; read = refl }

three_sent :
    1
    < length (connect_and_handle (answering accepts) (λ url. none) agent attempt open_channels).sent
unfolding connect_and_handle authenticate register first_heartbeat take_turns starting await_auth
    auth_answer
three_sent = omega arith

connect_and_handle_guarded_example :
    (text : Text) × Member (text_item text) attempt.auth_items
    × (auth_answer (answering accepts) text ≡ some true)
connect_and_handle_guarded_example =
    connect_and_handle_guarded (answering accepts) (λ url. none) agent attempt open_channels
      three_sent

abbrev pub idle : Channel IngressMessage
idle = record { receiver_alive = true; queue = [] }

pub is_known : get 7 one_agent.connection_senders ≡ some 1
unfolding get
is_known = refl

pub is_found : get 1 open_channels ≡ some idle
unfolding get
is_found = refl

abbrev pub clock : ℕ → ℕ
clock k = 100 + k

connect_and_handle_introduces_example :
    Extends
      (introduction (answering accepts) (λ url. none) agent attempt open_channels)
      (connect_and_handle (answering accepts) (λ url. none) agent attempt open_channels).sent
    × IsIntroduced
        (answering accepts)
        accepts
        clock
        7
        1
        idle
        (auth_request attempt.presigned_url)
        ingress
        is_known
        is_found
        refl
        (register_service agent)
        (take_all
          (answering accepts)
          accepts
          clock
          7
          0
          (introduction (answering accepts) (λ url. none) agent attempt open_channels)
          ingress)
connect_and_handle_introduces_example =
    connect_and_handle_introduces (answering accepts) (λ url. none) agent attempt open_channels
      accepts clock 7 1 idle ingress is_known is_found refl (smooth (answering accepts))
      (told accepts) refl

-- Every heartbeat arrives a second behind its tick.
abbrev arrival : ℕ → ℕ
arrival k = tick_at 5 k + nanos_per_sec

connected : get 7 one_agent.connections ≡ some (info_of 7 app 5)
unfolding get
connected = refl

later_than_tick : (k : ℕ) → tick_at 5 k ≤ arrival k
later_than_tick k = omega arith

at_once : (k : ℕ) → arrival k ≤ tick_at 5 k + nanos_per_sec
at_once k = omega arith

abbrev noon : ℕ
noon = arrival 3 + 10 * nanos_per_sec

before_next : noon < arrival 4
unfolding tick_at
before_next = omega arith

after_beats_healthy_example :
    is_healthy noon (after_beats 7 arrival 3 one_agent).connections app ≡ true
after_beats_healthy_example =
    after_beats_healthy 7 arrival 5 nanos_per_sec noon 3 one_agent (info_of 7 app 5) app refl
      connected (omega arith) later_than_tick at_once (omega arith) before_next

abbrev polls : List Poll
polls = answered (codes "a") ∷ failed ∷ answered (codes "a") ∷ answered (codes "b") ∷ []

watch_iff_example :
    (watch (λ body. some body) none polls ≡ true) ↔ HasChanged (λ body. some body) polls
watch_iff_example = watch_iff (λ body. some body) polls

abbrev command : ClientCommand
command = record {
  ingress_endpoint = codes "ws://localhost:8082";
  local_endpoint = codes "http://localhost:3000";
  host = codes "localhost";
  port = 3000;
  service_name = codes "my-service";
  cluster_name = codes "my-cluster";
  health_check_path = codes "/health";
  skip_iam_validation = false;
}

abbrev surroundings : Surroundings
surroundings = record {
  ecs_client = λ name. inl (codes "denied");
  sts_client = inl (codes "denied");
  metadata_uri = none;
  uri_error = λ uri. none;
  method_error = λ method. none;
  request_error = λ r. none;
  http_client = handler.http_client;
  new_v4 = 9;
  first_channel = 4;
}

start_unchecked_example :
    start surroundings command ≡ start surroundings (record command { skip_iam_validation = true })
start_unchecked_example = start_unchecked surroundings command
