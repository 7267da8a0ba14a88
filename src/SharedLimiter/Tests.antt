-- ===== src/SharedLimiter/Tests.antt =====
-- The shared limiter at a few calls.
use trading_worker.Base.{◌≡◌, refl, arith, List, [], ◌∷◌, none}
use trading_worker.Base.Text.{codes}
use trading_worker.SharedLimiter.{
  SharedOptions, SharedKeys, over_tokens, acquire_script, safe_segment, SharedCall, acquire_call,
  release_call, shared_calls,
}
use trading_worker.SharedLimiter.Leases.{IsWithin, shared_calls-IsWithin}

abbrev options : SharedOptions
options = record { capacity = 2; refill_per_second = 1; max_concurrent = 2; ttl_ms = 30000 }

abbrev no_keys : SharedKeys
no_keys = record { token_key = none; inflight = []; inflight_expires_at = 0 }

abbrev calls : List SharedCall
calls =
    acquire_call 0 0 (codes "a")
    ∷ acquire_call 1 1 (codes "b")
    ∷ acquire_call 2 2 (codes "c")
    ∷ release_call 3 (codes "a")
    ∷ []

third_refused :
    (acquire_script options 4 4 (codes "c") (shared_calls options calls no_keys)).0 ≡ over_tokens 1
unfolding acquire_script shared_calls
third_refused = refl

shared_calls-IsWithin_example : IsWithin options (shared_calls options calls no_keys)
shared_calls-IsWithin_example =
    shared_calls-IsWithin options (omega arith) calls no_keys
      (record { leases = omega arith; tokens = tt })

segment : safe_segment (codes " mock env ") ≡ codes "mock_env"
unfolding safe_segment
segment = refl
