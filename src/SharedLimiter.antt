-- ===== src/SharedLimiter.antt =====
-- external/brokerage/service/shared-credential-rate-limiter.service.ts: the limiter that all workers share in
-- Redis. Each of the two scripts is one step on the keys of a credential and an endpoint. Tokens are counted in
-- thousandths and the rate is a whole number per second, so that a refill is exact. `at` is the clock of
-- Redis, by which keys expire, and `now` the worker's, which the script is given.

pub mod Leases
mod Tests
use trading_worker.Base.{
  ℕ, zero, suc, ◌+◌, ◌-◌, ◌*◌, min, Bool, true, false, not, ◌&&◌, List, [], ◌∷◌, ◌++◌, Option, some,
  none, ltb, leb, ◌==◌, if◌then◌else◌, length, filter_by, map, ◌||◌,
}
use mathlib.Core.Option
use trading_worker.Base.Text.{Text, codes, text_eq, is_empty, trim}
use trading_worker.Base.TextMap.{assign}
use trading_worker.Event.{MarketEnv}

pub record SharedOptions : Type 0 where
  pub capacity : ℕ
  pub refill_per_second : ℕ
  -- 0 is no cap.
  pub max_concurrent : ℕ
  pub ttl_ms : ℕ

-- The hash of the tokens, and the hash of the leases by their owners; each with the instant it expires.
pub record TokenKey : Type 0 where
  pub tokens : ℕ
  pub updated_at : ℕ
  pub expires_at : ℕ

pub record SharedKeys : Type 0 where
  pub token_key : Option TokenKey
  pub inflight : List (Text × ℕ)
  pub inflight_expires_at : ℕ

pub data Verdict : Type 0 where
  granted : ℕ → Verdict
  over_concurrency over_tokens : ℕ → Verdict

abbrev pub one_token : ℕ
one_token = 1000

-- An expired key reads as one that is not there.
abbrev pub live_inflight : ℕ → SharedKeys → List (Text × ℕ)
live_inflight at k = if ltb at k.inflight_expires_at then k.inflight else []

abbrev live_token_key : ℕ → Option TokenKey → Option TokenKey
live_token_key at none = none
live_token_key at (some t) = if ltb at t.expires_at then some t else none

-- The leases that have not run out; the others are deleted.
abbrev pub is_held : ℕ → Text × ℕ → Bool
is_held now lease = ltb now lease.1

unfoldable pub purge : ℕ → ℕ → SharedKeys → SharedKeys
unfolding filter_by
purge at now k = record k { inflight = filter_by (is_held now) (live_inflight at k) }

-- Tokens after the refill; a clock that goes back adds nothing.
unfoldable pub refilled : SharedOptions → ℕ → Option TokenKey → ℕ
refilled o now none = o.capacity * one_token
refilled o now (some t) =
    min (o.capacity * one_token) (t.tokens + (now - t.updated_at) * o.refill_per_second)

abbrev pub is_full : SharedOptions → ℕ → Bool
is_full o total = ltb 0 o.max_concurrent && leb o.max_concurrent total

abbrev set_tokens : SharedOptions → ℕ → ℕ → ℕ → SharedKeys → SharedKeys
set_tokens o at now tokens k = record k {
  token_key = some (record { tokens = tokens; updated_at = now; expires_at = at + o.ttl_ms });
}

unfoldable pub take_lease : SharedOptions → ℕ → ℕ → Text → ℕ → SharedKeys → Verdict × SharedKeys
unfolding assign
take_lease o at now owner_id tokens k =
    if ltb tokens one_token
    then (over_tokens (length k.inflight), set_tokens o at now tokens k)
    else (
      granted (length k.inflight + 1),
      record (set_tokens o at now (tokens - one_token) k) {
        inflight = assign owner_id (now + o.ttl_ms) k.inflight;
        inflight_expires_at = at + o.ttl_ms;
      },
    )

-- The script of `acquire`.
unfoldable pub acquire_script : SharedOptions → ℕ → ℕ → Text → SharedKeys → Verdict × SharedKeys
unfolding purge refilled take_lease
acquire_script o at now owner_id k =
    let purged = purge at now k in
    if is_full o (length purged.inflight)
    then (over_concurrency (length purged.inflight), purged)
    else take_lease o at now owner_id (refilled o now (live_token_key at k.token_key)) purged

-- The script of `release`.
unfoldable pub release_script : ℕ → ℕ → Text → SharedKeys → SharedKeys
unfolding filter_by
release_script ttl_ms at owner_id k = record k {
  inflight = filter_by (λ lease. not (text_eq lease.0 owner_id)) (live_inflight at k);
  inflight_expires_at = at + ttl_ms;
}

-- `safeSegment`, and the key of a credential and an endpoint.
abbrev is_safe : ℕ → Bool
is_safe c =
    (leb b'A' c && leb c b'Z')
    || (leb b'a' c && leb c b'z')
    || (leb b'0' c && leb c b'9')
    || (c == b'.')
    || (c == b'_')
    || (c == b'-')

abbrev or_unknown : Text → Text
or_unknown [] = codes "unknown"
or_unknown (c ∷ t) = c ∷ t

unfoldable pub safe_segment : Text → Text
unfolding trim
safe_segment value = map (λ c. if is_safe c then c else b'_') (or_unknown (trim value))

-- What the workers run on one key, in the order in which Redis runs it.
pub data SharedCall : Type 0 where
  acquire_call : ℕ → ℕ → Text → SharedCall
  release_call : ℕ → Text → SharedCall

unfoldable pub shared_call : SharedOptions → SharedCall → SharedKeys → SharedKeys
unfolding acquire_script release_script
shared_call o (acquire_call at now owner_id) k = (acquire_script o at now owner_id k).1
shared_call o (release_call at owner_id) k = release_script o.ttl_ms at owner_id k

unfoldable pub shared_calls : SharedOptions → List SharedCall → SharedKeys → SharedKeys
unfolding shared_call
shared_calls o [] k = k
shared_calls o (call ∷ calls) k = shared_calls o calls (shared_call o call k)
