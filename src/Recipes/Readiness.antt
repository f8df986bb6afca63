-- ===== src/Recipes/Readiness.antt =====
-- src/domain/recipes/readiness.ts: `waitForNodeReadyAfterWrite`.
-- The clock and the node are a list of probes: what Date.now() is at the test of the loop, whether the
-- request succeeds, and what Date.now() is behind it; a clock that steps back is among them. The list
-- is the fuel of the loop: `none` means that it was too short. Times are those of Date.now(), and a
-- difference of two is compared by moving the smaller one to the other side. How long a sleep lasts
-- shows in the next reading of the clock only; what it is asked to last is `pause_ms`.
use nodel_mcp.Base.{
  ℕ, suc, ◌+◌, ◌-◌, ◌*◌, Bool, true, false, ◌&&◌, Option, none, some, or_else, List, [], ◌∷◌,
}
use nodel_mcp.Base.{ltb, leb, if◌then◌else◌}
use nodel_mcp.Config.{AppConfig}

pub record Probe : Type 0 where
  pub before : ℕ
  pub succeeds : Bool
  pub behind : ℕ

pub data Readiness : Type 0 where
  skipped : Readiness
  waited : Bool → ℕ → Readiness

abbrev pub poll_ms : ℕ
poll_ms = 500

abbrev pub min : ℕ → ℕ → ℕ
min a b = if ltb a b then a else b

abbrev pub max : ℕ → ℕ → ℕ
max a b = if ltb a b then b else a

unfoldable pub timeout_ms : AppConfig → Option ℕ → ℕ
timeout_ms config ready_timeout_seconds =
    max 1000 (or_else ready_timeout_seconds config.post_write_ready_timeout_seconds * 1000)

-- `Math.min(pollMs, remainingMs)`, where time remains until `limit`
unfoldable pub pause_ms : ℕ → ℕ → ℕ
pause_ms limit now = min poll_ms (limit - now)

-- The loop until `limit`, that is `startedAt + timeoutMs`; a failed attempt sets the count of
-- successes back.
unfoldable pub poll : ℕ → List Probe → ℕ → ℕ → Option Readiness
poll limit [] attempts successes = none
poll limit (q ∷ qs) attempts successes =
    let count = if q.succeeds then suc successes else 0 in
    let rest = poll limit qs (suc attempts) count in
    if ltb limit q.before
    then some (waited false attempts)
    else if q.succeeds && leb 2 count
    then some (waited true (suc attempts))
    else if leb limit q.behind
    then some (waited false (suc attempts))
    else rest

-- `started` is `startedAt`.
unfoldable pub wait_for_node_ready_after_write :
    AppConfig → Bool → Option ℕ → ℕ → List Probe → Option Readiness
unfolding poll timeout_ms
wait_for_node_ready_after_write config wait_for_ready ready_timeout_seconds started probes =
    if wait_for_ready
    then poll (started + timeout_ms config ready_timeout_seconds) probes 0 0
    else some skipped
