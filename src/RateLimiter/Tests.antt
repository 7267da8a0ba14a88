-- ===== src/RateLimiter/Tests.antt =====
-- The theorems of the limiter at a sample limiter.
use trading_worker.Base.{◌≤◌, ◌≡◌, refl, arith, true, List, [], ◌∷◌}
use trading_worker.RateLimiter.{
  RateLimiter, LimiterCall, start_call, poll_call, release_call, limiter_calls, try_take,
}
use trading_worker.RateLimiter.Budget.{Spends, limiter_calls-Spends}
use trading_worker.RateLimiter.Cap.{limiter_calls-WithinCap, cap_exceeded}

-- Two tokens, two more per second, two calls in flight at most.
abbrev limiter : RateLimiter
limiter = record {
  opts = record {
    capacity = 2;
    refill_per_second = 2;
    max_concurrent = 2;
    wait_on_exhaustion = true;
    max_wait_ms = 1000;
  };
  tokens = 2000;
  last_refill_ms = 0;
  in_flight = 0;
}

abbrev calls : List LimiterCall
calls = start_call 0 ∷ start_call 0 ∷ release_call ∷ start_call 100 ∷ poll_call 700 1100 ∷ []

limiter_calls-Spends_example :
    Spends (limiter_calls calls limiter).0 limiter (limiter_calls calls limiter).1
limiter_calls-Spends_example = limiter_calls-Spends calls limiter (omega arith)

abbrev direct : List LimiterCall
direct = start_call 0 ∷ start_call 1 ∷ start_call 2 ∷ release_call ∷ start_call 900 ∷ []

limiter_calls-WithinCap_example : (limiter_calls direct limiter).1.in_flight ≤ 2
limiter_calls-WithinCap_example =
    limiter_calls-WithinCap direct limiter (tt, (tt, (tt, (tt, (tt, tt))))) (omega arith)
      (omega arith)

-- One call is in flight, and the bucket is empty.
abbrev busy : RateLimiter
busy = record limiter { tokens = 0; in_flight = 1 }

cap_exceeded_example :
    (limiter_calls
      (start_call 0 ∷ start_call 0 ∷ poll_call 500 1000 ∷ poll_call 1000 1000 ∷ [])
      busy).1.in_flight
    ≡ 3
unfolding try_take
cap_exceeded_example = cap_exceeded busy 0 500 1000 1000 refl refl refl refl refl
