-- ===== src/Examples/Agents.antt =====
-- An agent beside a local service.
use anywhere_mesh.Base.{Text, List, codes, get, none, some, true, [], ◌∷◌, ◌≡◌, refl, nat_eq}
use anywhere_mesh.Server.Channels.{Channel}
use anywhere_mesh.Server.Http.{HeaderValue, bytes}
use anywhere_mesh.Client.Proxy.{ProxyHandler, answered}
use anywhere_mesh.Client.Sessions.{OutboundToLocal, WebSocketReverseProxy}

abbrev pub local_headers : List (Text × HeaderValue)
local_headers = (codes "x", none) ∷ (codes "y", some (codes "1")) ∷ []

abbrev pub handler : ProxyHandler
handler = record {
  uri_error = λ uri. none;
  method_error = λ method. none;
  request_error = λ r. none;
  http_client = λ r. answered 200 local_headers (bytes r.uri);
  local_endpoint = codes "http://localhost:3000";
}

abbrev local_idle : Channel OutboundToLocal
local_idle = record { receiver_alive = true; queue = [] }

abbrev pub proxy : WebSocketReverseProxy
proxy = record {
  local_endpoint = codes "http://localhost:3000";
  sessions = (50, 3) ∷ [];
  frames = (3, local_idle) ∷ [];
  next_channel = 4;
}

pub session_open : get 50 proxy.sessions ≡ some 3
unfolding get
session_open = refl

local_channel : get 3 proxy.frames ≡ some local_idle
unfolding get
local_channel = refl
