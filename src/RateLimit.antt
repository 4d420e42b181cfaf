-- ===== src/RateLimit.antt =====
-- The fixed-window rate limiter (internal/middleware/rate_limit.go). The map of buckets is a
-- function from keys; times are nanoseconds of the monotonic clock, and durations stay below the
-- 292 years where Sub saturates.
pub mod Keys
pub mod Windows
use prappser_spaces.Base.{
  ℕ, String, ◌≡◌, refl, Bool, true, false, Option, none, some, ◌==◌, if◌then◌else◌,
}
use prappser_spaces.Base.Int.{ℤ, pos, ◌+ℤ◌, ◌-ℤ◌, leb_ℤ}

pub record Bucket : Type 0 where
  pub count : ℤ
  pub window_start : ℤ

-- The fields limit and window of a RateLimiter.
pub record Limiter : Type 0 where
  pub limit : ℤ
  pub window : ℤ

abbrev pub Buckets : Type 0
Buckets = String → Option Bucket

-- `now.Sub(b.windowStart) >= rl.window`
unfoldable pub is_expired : ℤ → ℤ → Bucket → Bool
is_expired window now b = leb_ℤ window (now -ℤ b.window_start)

abbrev pub set : String → Bucket → Buckets → Buckets
set key b m = λ k. if key == k then some b else m k

unless_expired : ℤ → ℤ → Option Bucket → Option Bucket
unfolding is_expired
unless_expired window now none = none
unless_expired window now (some b) = if is_expired window now b then none else some b

-- prune deletes the buckets whose window is over.
unfoldable pub prune : ℤ → ℤ → Buckets → Buckets
unfolding unless_expired
prune window now m = λ k. unless_expired window now (m k)

-- Whether the request passes, how long to wait if not, and the buckets that it leaves.
abbrev pub Answer : Type 0
Answer = Bool × ℤ × Buckets

abbrev fresh : ℤ → Bucket
fresh now = record { count = pos 1; window_start = now }

open_window : Limiter → ℤ → String → Buckets → Answer
unfolding prune
open_window l now key m = (true, pos 0, prune l.window now (set key (fresh now) m))

in_window : Limiter → ℤ → String → Buckets → Bucket → Answer
in_window l now key m b =
    if leb_ℤ l.limit b.count
    then (false, l.window -ℤ (now -ℤ b.window_start), m)
    else (true, pos 0, set key (record b { count = b.count +ℤ pos 1 }) m)

-- The rest of Allow, for the bucket of the key.
with_bucket : Limiter → ℤ → String → Buckets → Option Bucket → Answer
unfolding open_window in_window is_expired
with_bucket l now key m none = open_window l now key m
with_bucket l now key m (some b) =
    if is_expired l.window now b then open_window l now key m else in_window l now key m b

-- Allow
unfoldable pub allow : Limiter → ℤ → String → Buckets → Answer
unfolding with_bucket
allow l now key m = with_bucket l now key m (m key)
