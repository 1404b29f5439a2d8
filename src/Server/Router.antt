-- ===== src/Server/Router.antt =====
-- mesh/src/server/router.rs: requests that wait for their response, and the host cache. Other tasks
-- run at every await, so `route_request` takes the registry as it is at each of its reads, and what
-- the other tasks do to the router while it waits.
pub mod Route
pub mod Cache
pub mod Oneshots
pub mod Pending
pub mod Allocated
pub mod Answers
pub mod Reach
use anywhere_mesh.Base.{
  ℕ, suc, ◌+◌, ◌-◌, ◌*◌, Text, codes, HashMap, get, insert, remove, values, Option, none, some,
  Bool, true, false, List, [], ◌∷◌, ◌++◌, ltb, nat_eq, text_eq, if◌then◌else◌, filter, is_empty,
}
use anywhere_mesh.Common.Types.{
  Uuid, SystemTime, nanos_per_sec, ServiceRegistration, ProxyRequest, ProxyResponse, ConnectionInfo,
  proxy_request_forward,
}
use anywhere_mesh.Common.Routing.{match_host_to_service, select_healthy_instance}
use anywhere_mesh.Server.Error.{
  IngressError, IngressResult, ok, err, send_failed, internal, timeout, registry_not_found, ◌>>=◌,
}
use anywhere_mesh.Server.Channels.{Channels, send}
use anywhere_mesh.Server.Registry.{Registry}

pub record HostServiceCacheEntry : Type 0 where
  pub services : List ServiceRegistration
  pub timestamp : SystemTime

-- A `oneshot` channel by its name, and what has become of it.
abbrev pub Handle : Type 0
Handle = ℕ

pub data Oneshot : Type 0 where
  waiting : Oneshot
  delivered : ProxyResponse → Oneshot
  sender_gone receiver_gone : Oneshot

-- The struct, with the runtime's `oneshot` channels and the name of the next one.
pub record DefaultRouter : Type 0 where
  pub pending_requests : HashMap Uuid Handle
  pub request_timeout : ℕ
  pub host_service_cache : HashMap Text HostServiceCacheEntry
  pub cache_ttl : ℕ
  pub oneshots : HashMap Handle Oneshot
  pub next_handle : Handle

-- DefaultRouter::new
unfoldable pub new : ℕ → DefaultRouter
new request_timeout = record {
  pending_requests = [];
  request_timeout = request_timeout;
  host_service_cache = [];
  cache_ttl = 30 * nanos_per_sec;
  oneshots = [];
  next_handle = 0;
}

-- entry.timestamp.elapsed() < self.cache_ttl
unfoldable pub cache_fresh : SystemTime → DefaultRouter → HostServiceCacheEntry → Bool
cache_fresh instant r entry = ltb (instant - entry.timestamp) r.cache_ttl

-- The services of a fresh entry.
unfoldable pub cache_hit : SystemTime → Text → DefaultRouter → Option (List ServiceRegistration)
cache_hit instant host r = elim (get host r.host_service_cache) [
  | none ↦ none
  | some entry ↦ if cache_fresh instant r entry then some entry.services else none
]

-- The filter asks of each registration by itself whether it serves the host.
unfoldable pub serves_alone : Text → ServiceRegistration → Bool
serves_alone host reg = elim (match_host_to_service host (reg ∷ [])) [
  | some _ ↦ true
  | none ↦ false
]

unfoldable pub put_cache :
    Text → List ServiceRegistration → SystemTime → DefaultRouter → DefaultRouter
put_cache host services instant r = record r {
  host_service_cache =
      insert host (record { services = services; timestamp = instant }) r.host_service_cache;
}

-- Dropping the sender of a channel ends the wait of its receiver.
abbrev pub without_sender : Oneshot → Oneshot
without_sender waiting = sender_gone
without_sender o = o

unfoldable pub drop_sender : Option Handle → DefaultRouter → DefaultRouter
drop_sender none r = r
drop_sender (some h) r = elim (get h r.oneshots) [
  | none ↦ r
  | some o ↦ record r { oneshots = insert h (without_sender o) r.oneshots }
]

-- A new channel, its sender stored under the request. A sender that stood there is dropped.
unfoldable pub open_pending : Uuid → DefaultRouter → DefaultRouter
open_pending id r = record dropped {
  pending_requests = insert id r.next_handle r.pending_requests;
  oneshots = insert r.next_handle waiting dropped.oneshots;
  next_handle = suc r.next_handle;
}
  where
    dropped : DefaultRouter
    dropped = drop_sender (get id r.pending_requests) r

-- pending_requests.remove(&id), which drops the sender.
unfoldable pub close_pending : Uuid → DefaultRouter → DefaultRouter
close_pending id r = record dropped { pending_requests = remove id r.pending_requests }
  where
    dropped : DefaultRouter
    dropped = drop_sender (get id r.pending_requests) r

-- response_tx.send(response): into a channel whose receiver waits; else the response is lost.
unfoldable pub deliver : Handle → ProxyResponse → DefaultRouter → DefaultRouter
deliver h response r = elim (get h r.oneshots) [
  | some waiting ↦ record r { oneshots = insert h (delivered response) r.oneshots }
  | _ ↦ r
]

unfoldable pub handle_response :
    ProxyResponse → DefaultRouter → DefaultRouter × IngressResult (Unit {0})
handle_response response r = elim (get response.id r.pending_requests) [
  | some h ↦ (
    deliver h response (record r { pending_requests = remove response.id r.pending_requests }),
    ok tt,
  )
  | none ↦ (r, err (registry_not_found response.id))
]

-- What `timeout(self.request_timeout, response_rx).await` answers.
pub data Outcome : Type 0 where
  arrived : ProxyResponse → Outcome
  closed expired : Outcome

-- The channel is read before the timer: a wait that ends with neither a response nor a dropped
-- sender has run out of time.
abbrev pub outcome_of : Option Oneshot → Outcome
outcome_of (some (delivered response)) = arrived response
outcome_of (some waiting) = expired
outcome_of (some _) = closed
outcome_of none = closed

-- The end of the wait drops the receiver.
unfoldable pub end_wait : Handle → DefaultRouter → DefaultRouter × Outcome
end_wait h r =
    (record r { oneshots = insert h receiver_gone r.oneshots }, outcome_of (get h r.oneshots))

unfoldable pub wait_for_response :
    Uuid → Outcome → DefaultRouter → DefaultRouter × IngressResult ProxyResponse
wait_for_response id (arrived response) r = (r, ok response)
wait_for_response id closed r =
    (close_pending id r, err (internal (codes "Response channel closed")))
wait_for_response id expired r = (close_pending id r, err (timeout id))

unfoldable pub create_error_response : Uuid → ℕ → Text → ProxyResponse
create_error_response request_id status_code message = record {
  id = request_id;
  status_code = status_code;
  headers = [];
  body = some message;
}
