-- ===== src/Common/Routing/Health.antt =====
-- What makes a registration eligible: a heartbeat of its connection in the last sixty seconds.
use anywhere_mesh.Base.{
  ◌+◌, ◌*◌, ◌≤◌, ◌<◌, ◌≡◌, HashMap, get, some, true, List, arith, find_first-some,
  find_first-exists, Member, Option-cases, inl, inr, nat_eq,
}
use anywhere_mesh.Common.Types.{
  Uuid, SystemTime, nanos_per_sec, ServiceRegistration, ConnectionInfo,
}
use anywhere_mesh.Common.Routing.{is_healthy, select_healthy_instance}

-- The connection is known, its clock reading is not in the future, and it is less than a minute old.
abbrev pub IsAlive : SystemTime → HashMap Uuid ConnectionInfo → ServiceRegistration → Type 0
IsAlive now connections reg =
    (conn : ConnectionInfo) × (get reg.id connections ≡ some conn)
    × (conn.last_heartbeat ≤ now)
    × (now < conn.last_heartbeat + 60 * nanos_per_sec)

pub is_healthy→IsAlive :
    (now : SystemTime) (connections : HashMap Uuid ConnectionInfo) (reg : ServiceRegistration)
    → is_healthy now connections reg ≡ true
    → IsAlive now connections reg
unfolding is_healthy
is_healthy→IsAlive now connections reg h = elim (Option-cases (get reg.id connections)) [
  | inl e ↦ cc (rw (e, is_healthy) at h)
  | inr (conn, e) ↦ (conn, e, ground arith, ground arith)
]

pub IsAlive→is_healthy :
    (now : SystemTime) (connections : HashMap Uuid ConnectionInfo) (reg : ServiceRegistration)
    → IsAlive now connections reg
    → is_healthy now connections reg ≡ true
unfolding is_healthy
IsAlive→is_healthy now connections reg (conn, e, past, young) = rw (e, is_healthy) (ground arith)

module _ (now : SystemTime) (regs : List ServiceRegistration)
    (connections : HashMap Uuid ConnectionInfo) where
  -- The selected registration is one of the candidates, and its connection is alive.
  pub select_healthy_instance-IsAlive :
      (r : ServiceRegistration)
      → select_healthy_instance now regs connections ≡ some r
      → Member r regs × IsAlive now connections r
  unfolding select_healthy_instance
  select_healthy_instance-IsAlive r h =
      let (passes, among) = find_first-some (is_healthy now connections) regs r h in
      (among, is_healthy→IsAlive now connections r passes)

  -- If one candidate is alive then a candidate is selected, and the selected one is alive.
  pub select_healthy_instance-exists :
      (r : ServiceRegistration)
      → Member r regs
      → IsAlive now connections r
      → (q : ServiceRegistration) × (select_healthy_instance now regs connections ≡ some q)
        × Member q regs
        × IsAlive now connections q
  unfolding select_healthy_instance
  select_healthy_instance-exists r among alive =
      let passes = IsAlive→is_healthy now connections r alive in
      let (q, found) = find_first-exists (is_healthy now connections) regs r among passes in
      let (ok, m) = find_first-some (is_healthy now connections) regs q found in
      (q, found, m, is_healthy→IsAlive now connections q ok)
