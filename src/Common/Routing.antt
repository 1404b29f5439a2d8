-- ===== src/Common/Routing.antt =====
-- mesh/src/common/routing.rs: which registration serves a host, and which one is alive.
pub mod Hosts
pub mod Health
use anywhere_mesh.Base.{
  ℕ, ◌-◌, ◌/◌, ◌*◌, Text, ends_with, get, HashMap, Option, none, some, Bool, true, false, List, [],
  ◌∷◌, ltb, ◌==◌, nat_beq, if◌then◌else◌, find_first, nat_eq, text_eq,
}
use anywhere_mesh.Common.Types.{
  Uuid, SystemTime, nanos_per_sec, ServiceRegistration, ConnectionInfo,
}

-- The closure of the second pass: `*` and then a suffix of the host.
unfoldable pub wildcard_matches : Text → Text → Bool
unfolding ends_with
wildcard_matches host [] = false
wildcard_matches host (c ∷ pattern) = if nat_beq c b'*' then ends_with host pattern else false

unfoldable pub match_host_to_service : Text → List ServiceRegistration → Option ServiceRegistration
unfolding wildcard_matches
match_host_to_service host registrations = elim (find_first (λ r. r.host == host) registrations) [
  | some reg ↦ some reg
  | none ↦ find_first (λ r. wildcard_matches host r.host) registrations
]

-- SystemTime::elapsed: an error if the clock went back.
unfoldable pub elapsed : SystemTime → SystemTime → Option ℕ
elapsed now since = if ltb now since then none else some (now - since)

unfoldable pub heartbeat_fresh : SystemTime → ConnectionInfo → Bool
unfolding elapsed
heartbeat_fresh now conn = elim (elapsed now conn.last_heartbeat) [
  | some passed ↦ ltb (passed / nanos_per_sec) 60
  | none ↦ false
]

unfoldable pub is_healthy : SystemTime → HashMap Uuid ConnectionInfo → ServiceRegistration → Bool
unfolding heartbeat_fresh get
is_healthy now connections reg = elim (get reg.id connections) [
  | some conn ↦ heartbeat_fresh now conn
  | none ↦ false
]

unfoldable pub select_healthy_instance :
    SystemTime → List ServiceRegistration → HashMap Uuid ConnectionInfo → Option ServiceRegistration
unfolding is_healthy
select_healthy_instance now registrations connections =
    find_first (is_healthy now connections) registrations
