-- ===== src/RateLimiter/Budget.antt =====
-- How many calls the bucket can grant.
use trading_worker.Base.{
  ℕ, zero, suc, ◌+◌, ◌-◌, ◌*◌, ◌≤◌, ◌<◌, ◌≡◌, ◌∙◌, refl, subst, arith, Bool, true, false, List, [],
  ◌∷◌, ltb, leb, ltb→lt, leb→le, if◌then◌else◌, Bool-cases, inl, inr,
}
use trading_worker.RateLimiter.{
  RateLimiter, token, refill, take_token, try_take, refused, started, start, is_capped, polled,
  poll, release, LimiterCall, start_call, poll_call, release_call, limiter_call, grants, counted,
  sleep_until, exhausted, limiter_calls,
}

-- What a step does to the bucket, if it grants `n` calls: the options stay, the bucket is not overfull, the
-- clock of the refills does not go back, and what was granted came out of the bucket or of a refill.
pub record Spends (n : ℕ) (l m : RateLimiter) : Type 0 where
  pub opts : m.opts ≡ l.opts
  pub bounded : m.tokens ≤ l.opts.capacity * token
  pub onward : l.last_refill_ms ≤ m.last_refill_ms
  pub paid :
      n * token + m.tokens
      ≤ l.tokens + (m.last_refill_ms - l.last_refill_ms) * l.opts.refill_per_second

positive_left : (a b : ℕ) → 0 < a * b → 0 < a
positive_left zero b h = absurd (omega arith)
positive_left (suc a) b h = omega arith

refill-Spends :
    (now : ℕ) (l : RateLimiter) → l.tokens ≤ l.opts.capacity * token → Spends 0 l (refill now l)
unfolding refill
refill-Spends now l h =
    elim (Bool-cases (ltb 0 ((now - l.last_refill_ms) * l.opts.refill_per_second))) [
      | inl e ↦ rw e (
          let p = positive_left (now - l.last_refill_ms) l.opts.refill_per_second (ltb→lt _ _ e) in
          record { opts = refl; bounded = omega arith; onward = omega arith; paid = omega arith })
      | inr e ↦ rw e (record { opts = refl; bounded = h; onward = omega arith; paid = omega arith })
    ]

elapsed_mul : (x y z r : ℕ) → x ≤ y → y ≤ z → (z - x) * r ≡ (y - x) * r + (z - y) * r
elapsed_mul x y z r h k = grind arith

Spends-after : {m n : ℕ} {l k j : RateLimiter} → Spends m l k → Spends n k j → Spends (m + n) l j
Spends-after {m} {n} {l} {k} {j} s t = record {
  opts = t.opts ∙ s.opts;
  bounded = rw (← s.opts) t.bounded;
  onward = let a = s.onward in let b = t.onward in omega arith;
  paid =
      let first = s.paid in
      let second : n * token + j.tokens
          ≤ k.tokens + (j.last_refill_ms - k.last_refill_ms) * l.opts.refill_per_second =
        rw (← s.opts) t.paid in
      let apart =
        elapsed_mul l.last_refill_ms k.last_refill_ms j.last_refill_ms l.opts.refill_per_second
          s.onward t.onward in
      omega arith;
}

take_token-Spends :
    (l : RateLimiter)
    → l.tokens ≤ l.opts.capacity * token
    → Spends (if (take_token l).0 then 1 else 0) l (take_token l).1
unfolding take_token
take_token-Spends l h = elim (Bool-cases (leb token l.tokens)) [
  | inl e ↦ rw e (
      let p = leb→le token l.tokens e in
      record { opts = refl; bounded = omega arith; onward = omega arith; paid = omega arith })
  | inr e ↦ rw e (record { opts = refl; bounded = h; onward = omega arith; paid = omega arith })
]

-- A change of the calls in flight alone.
Spends-same :
    {n : ℕ} {l m j : RateLimiter}
    → Spends n l m
    → j.opts ≡ m.opts
    → j.tokens ≡ m.tokens
    → j.last_refill_ms ≡ m.last_refill_ms
    → Spends n l j
Spends-same s o t r = record {
  opts = o ∙ s.opts;
  bounded = rw t s.bounded;
  onward = rw r s.onward;
  paid = rw (t, r) s.paid;
}

zero_add : (n : ℕ) → 0 + n ≡ n
zero_add n = omega arith

try_take-Spends :
    (now : ℕ) (l : RateLimiter)
    → l.tokens ≤ l.opts.capacity * token
    → Spends (if (try_take now l).0 then 1 else 0) l (try_take now l).1
unfolding try_take
try_take-Spends now l h =
    let first = refill-Spends now l h in
    let b = (take_token (refill now l)).0 in
    subst (λ n. Spends n l (take_token (refill now l)).1) (zero_add (if b then 1 else 0))
      (Spends-after first (take_token-Spends (refill now l) (rw first.opts first.bounded)))

grants_sleep : (now deadline : ℕ) → grants (sleep_until now deadline) ≡ 0
grants_sleep now deadline = ground arith

grants_start :
    (b : Bool) (now deadline : ℕ)
    → grants (if b then sleep_until now deadline else refused exhausted) ≡ 0
grants_start true now deadline = grants_sleep now deadline
grants_start false now deadline = refl

started-Spends :
    (now : ℕ) (l : RateLimiter) (x : Bool × RateLimiter)
    → Spends (if x.0 then 1 else 0) l x.1
    → Spends (counted (started now x)).0 l (counted (started now x)).1
unfolding started
started-Spends now l (true, m) s = Spends-same s refl refl refl
started-Spends now l (false, m) s =
    rw (grants_start m.opts.wait_on_exhaustion now (now + m.opts.max_wait_ms)) s

polled-Spends :
    (now deadline : ℕ) (l : RateLimiter) (x : Bool × RateLimiter)
    → Spends (if x.0 then 1 else 0) l x.1
    → Spends (counted (polled now deadline x)).0 l (counted (polled now deadline x)).1
unfolding polled
polled-Spends now deadline l (true, m) s = Spends-same s refl refl refl
polled-Spends now deadline l (false, m) s = rw (grants_sleep now deadline) s

Spends-none : (l : RateLimiter) → l.tokens ≤ l.opts.capacity * token → Spends 0 l l
Spends-none l h = record { opts = refl; bounded = h; onward = omega arith; paid = omega arith }

limiter_call-Spends :
    (call : LimiterCall) (l : RateLimiter)
    → l.tokens ≤ l.opts.capacity * token
    → Spends (limiter_call call l).0 l (limiter_call call l).1
unfolding limiter_call start poll release
limiter_call-Spends (start_call now) l h = elim (Bool-cases (is_capped l)) [
  | inl e ↦ rw e (Spends-none l h)
  | inr e ↦ rw e (started-Spends now l (try_take now l) (try_take-Spends now l h))
]
limiter_call-Spends (poll_call now deadline) l h =
    polled-Spends now deadline l (try_take now l) (try_take-Spends now l h)
limiter_call-Spends release_call l h = Spends-same (Spends-none l h) refl refl refl

-- Over every sequence of calls, from any bucket that is not overfull: the options stay, the bucket is never
-- overfull, and the calls granted are at most what was in the bucket and what the rate gives over the time
-- between the first and the last refill.
pub limiter_calls-Spends :
    (calls : List LimiterCall) (l : RateLimiter)
    → l.tokens ≤ l.opts.capacity * token
    → Spends (limiter_calls calls l).0 l (limiter_calls calls l).1
unfolding limiter_calls
limiter_calls-Spends [] l h = Spends-none l h
limiter_calls-Spends (call ∷ calls) l h =
    let step = limiter_call-Spends call l h in
    Spends-after step
      (limiter_calls-Spends calls (limiter_call call l).1 (rw step.opts step.bounded))
