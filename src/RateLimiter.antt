-- ===== src/RateLimiter.antt =====
-- external/brokerage/service/rate-limiter.service.ts: the token bucket with a cap on calls in flight.
-- Tokens are counted in thousandths and the rate is a whole number per second, so that a refill is exact.
-- `acquire` is two steps when it waits: the start, up to the first sleep, and one step per poll; other calls
-- may come between.
pub mod Budget
pub mod Cap
mod Tests
use trading_worker.Base.{
  ℕ, zero, suc, ◌+◌, ◌-◌, ◌*◌, min, Bool, true, false, ◌||◌, ◌&&◌, List, [], ◌∷◌, Option, some,
  none, ltb, leb, ◌==◌, if◌then◌else◌,
}

pub record RateLimiterOptions : Type 0 where
  pub capacity : ℕ
  pub refill_per_second : ℕ
  -- 0 is no cap.
  pub max_concurrent : ℕ
  pub wait_on_exhaustion : Bool
  pub max_wait_ms : ℕ

pub record RateLimiter : Type 0 where
  pub opts : RateLimiterOptions
  pub tokens : ℕ
  pub last_refill_ms : ℕ
  pub in_flight : ℕ

-- One token.
abbrev pub token : ℕ
token = 1000

abbrev is_invalid : RateLimiterOptions → Bool
is_invalid opts = (opts.capacity == 0) || (opts.refill_per_second == 0)

-- The constructor; `none` is its error.
unfoldable pub create : ℕ → RateLimiterOptions → Option RateLimiter
create now opts =
    if is_invalid opts
    then none
    else some (record {
      opts = opts;
      tokens = opts.capacity * token;
      last_refill_ms = now;
      in_flight = 0;
    })

-- A clock that stands or goes back adds nothing.
unfoldable pub refill : ℕ → RateLimiter → RateLimiter
refill now l =
    let add = (now - l.last_refill_ms) * l.opts.refill_per_second in
    if ltb 0 add
    then record l { tokens = min (l.opts.capacity * token) (l.tokens + add); last_refill_ms = now }
    else l

unfoldable pub take_token : RateLimiter → Bool × RateLimiter
take_token l =
    if leb token l.tokens then (true, record l { tokens = l.tokens - token }) else (false, l)

unfoldable pub try_take : ℕ → RateLimiter → Bool × RateLimiter
unfolding refill take_token
try_take now l = take_token (refill now l)

pub data Refusal : Type 0 where
  concurrent exhausted timeout : Refusal

-- Where an `acquire` stands after a step: it has returned, thrown, or sleeps until its next poll.
pub data Acquiring : Type 0 where
  granted : Acquiring
  refused : Refusal → Acquiring
  waiting : ℕ → Acquiring

abbrev pub enter : RateLimiter → RateLimiter
enter l = record l { in_flight = l.in_flight + 1 }

-- `while (Date.now() < deadline)`
abbrev pub sleep_until : ℕ → ℕ → Acquiring
sleep_until now deadline = if ltb now deadline then waiting deadline else refused timeout

unfoldable pub started : ℕ → Bool × RateLimiter → Acquiring × RateLimiter
started now (true, l) = (granted, enter l)
started now (false, l) = (
  if l.opts.wait_on_exhaustion
      then sleep_until now (now + l.opts.max_wait_ms)
      else refused exhausted,
  l,
)

abbrev pub is_capped : RateLimiter → Bool
is_capped l = ltb 0 l.opts.max_concurrent && leb l.opts.max_concurrent l.in_flight

-- `acquire`, up to its first sleep.
unfoldable pub start : ℕ → RateLimiter → Acquiring × RateLimiter
unfolding started try_take
start now l = if is_capped l then (refused concurrent, l) else started now (try_take now l)

unfoldable pub polled : ℕ → ℕ → Bool × RateLimiter → Acquiring × RateLimiter
polled now deadline (true, l) = (granted, enter l)
polled now deadline (false, l) = (sleep_until now deadline, l)

-- A poll of an `acquire` that waits, once it has slept.
unfoldable pub poll : ℕ → ℕ → RateLimiter → Acquiring × RateLimiter
unfolding polled try_take
poll now deadline l = polled now deadline (try_take now l)

unfoldable pub release : RateLimiter → RateLimiter
release l = record l { in_flight = l.in_flight - 1 }

-- `none` is the error of invalid options.
unfoldable pub reconfigure : ℕ → RateLimiterOptions → RateLimiter → Option RateLimiter
unfolding refill
reconfigure now next l =
    if is_invalid next
    then none
    else some (record (refill now l) {
      opts = next;
      tokens = min (refill now l).tokens (next.capacity * token);
    })

-- The steps of all callers, as they come.
pub data LimiterCall : Type 0 where
  start_call : ℕ → LimiterCall
  poll_call : ℕ → ℕ → LimiterCall
  release_call : LimiterCall

abbrev pub grants : Acquiring → ℕ
grants granted = 1
grants (refused reason) = 0
grants (waiting deadline) = 0

abbrev pub counted : Acquiring × RateLimiter → ℕ × RateLimiter
counted (a, l) = (grants a, l)

-- How many calls a step grants, and the limiter after it.
unfoldable pub limiter_call : LimiterCall → RateLimiter → ℕ × RateLimiter
unfolding start poll release
limiter_call (start_call now) l = counted (start now l)
limiter_call (poll_call now deadline) l = counted (poll now deadline l)
limiter_call release_call l = (0, release l)

unfoldable pub limiter_calls : List LimiterCall → RateLimiter → ℕ × RateLimiter
unfolding limiter_call
limiter_calls [] l = (0, l)
limiter_calls (call ∷ calls) l =
    let step = limiter_call call l in
    let rest = limiter_calls calls step.1 in (step.0 + rest.0, rest.1)
