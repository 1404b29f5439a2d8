-- ===== src/TestApp/Delay.antt =====
-- test-app/src/main.rs: what a request for a delay is answered.
use anywhere_mesh.Base.{ℕ, ◌+◌, ◌*◌, ◌≤◌, ◌<◌, ◌≡◌}
use anywhere_mesh.Common.Types.{SystemTime, nanos_per_sec}
use anywhere_mesh.TestApp.{stress, object}
use anywhere_mesh.TestApp.Pages.{json, Sleep}
use anywhere_mesh.TestApp.Routes.{Outcome, page}

-- A wait takes no less than it was asked for, and at most so much more.
pub record IsTimer (sleep : Sleep) (slack : ℕ) : Type 0 where
  pub enough : (d : ℕ) (at : SystemTime) → at + d ≤ sleep d at
  pub prompt : (d : ℕ) (at : SystemTime) → sleep d at ≤ at + d + slack

-- A delay of at most 30 seconds is answered with 200, that delay, and a measured one that is no
-- shorter and no longer than the slack of the timer allows; a longer one with 400.
abbrev pub IsHonest : ℕ → ℕ → Outcome → Type 0
IsHonest slack d (page (json status (stress r))) =
    (status ≡ 200)
    × (d ≤ 30)
    × (r.requested_delay ≡ d)
    × (d * nanos_per_sec ≤ r.actual_delay)
    × (r.actual_delay ≤ d * nanos_per_sec + slack)
IsHonest slack d (page (json status (object texts))) = (status ≡ 400) × (30 < d)
IsHonest slack d _ = ⊥
