-- ===== src/Retry/Waits.antt =====
-- All the waits of a `Do`.
use rdispatch.Common.{ℕ, ◌*◌, ◌/◌}
use rdispatch.Common.Int.{pos, ◌≤ℤ◌}
use rdispatch.Retry.Config.{Config}
use rdispatch.Retry.Loop.{Action, called, waited, Outcome}

-- A wait is at least three quarters of the base delay, and at most five quarters of the maximum.
abbrev pub IsTimed : ℕ → ℕ → Action → Type 0
IsTimed base cap (called k) = Unit
IsTimed base cap (waited d) = (pos (3 * base / 4) ≤ℤ d) × (d ≤ℤ pos (5 * cap / 4))
