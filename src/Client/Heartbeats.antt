-- ===== src/Client/Heartbeats.antt =====
-- mesh/src/client/client_impl.rs: the task that sends the heartbeats, and what its interval means
-- to the registry and the choice of a live registration.
use anywhere_mesh.Base.{
  ℕ, zero, suc, ◌+◌, ◌*◌, ◌≤◌, ◌<◌, ◌≡◌, ap, ◌∙◌, get, get-insert_self, some, true, nat_eq, arith,
}
use anywhere_mesh.Common.Types.{
  Uuid, SystemTime, nanos_per_sec, ServiceRegistration, ConnectionInfo,
}
use anywhere_mesh.Common.Routing.{is_healthy}
use anywhere_mesh.Common.Routing.Health.{IsAlive→is_healthy}
use anywhere_mesh.Server.Registry.{DefaultRegistry, update_heartbeat}

-- interval(Duration::from_secs(15))
abbrev pub heartbeat_interval : SystemTime
heartbeat_interval = 15 * nanos_per_sec

-- The tick at which the task hands over its heartbeat k; the first one is immediate.
unfoldable pub tick_at : SystemTime → ℕ → SystemTime
tick_at start k = start + k * heartbeat_interval

module _ (id : Uuid) (arrival : ℕ → SystemTime) where
  -- The registry after the heartbeats 0 to n have arrived.
  unfoldable pub after_beats : ℕ → DefaultRegistry → DefaultRegistry
  unfolding update_heartbeat
  after_beats zero r = (update_heartbeat id (arrival zero) r).0
  after_beats (suc n) r = (update_heartbeat id (arrival (suc n)) (after_beats n r)).0

  pub one_beat :
      (now : SystemTime) (r : DefaultRegistry) (c : ConnectionInfo)
      → get id r.connections ≡ some c
      → get id (update_heartbeat id now r).0.connections ≡ some (record c { last_heartbeat = now })
  unfolding update_heartbeat
  one_beat now r c found =
      rw (found, update_heartbeat)
        (get-insert_self id (record c { last_heartbeat = now }) r.connections)

  last_beat :
      (n : ℕ) (r : DefaultRegistry) (c : ConnectionInfo)
      → get id r.connections ≡ some c
      → get id (after_beats n r).connections ≡ some (record c { last_heartbeat = arrival n })
  unfolding after_beats
  last_beat zero r c found = one_beat (arrival zero) r c found
  last_beat (suc n) r c found =
      one_beat (arrival (suc n)) (after_beats n r) (record c { last_heartbeat = arrival n })
        (last_beat n r c found)

  -- If every heartbeat arrives no later than 45 seconds behind its tick, the registration of a known
  -- connection is healthy at every time between the arrivals of a heartbeat and of the next one.
  pub after_beats_healthy :
      (start delay now : SystemTime) (n : ℕ) (r : DefaultRegistry) (c : ConnectionInfo)
      (reg : ServiceRegistration)
      → reg.id ≡ id
      → get id r.connections ≡ some c
      → delay ≤ 45 * nanos_per_sec
      → ((k : ℕ) → tick_at start k ≤ arrival k)
      → ((k : ℕ) → arrival k ≤ tick_at start k + delay)
      → arrival n ≤ now
      → now < arrival (suc n)
      → is_healthy now (after_beats n r).connections reg ≡ true
  unfolding tick_at
  after_beats_healthy start delay now n r c reg same found short sent in_time past before =
      IsAlive→is_healthy now (after_beats n r).connections reg (
        record c { last_heartbeat = arrival n },
        ap (λ k. get k (after_beats n r).connections) same ∙ last_beat n r c found,
        past,
        omega (arith, short, sent n, in_time (suc n), before),
      )
