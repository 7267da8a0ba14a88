-- ===== src/RateLimiter/Cap.antt =====
-- The cap of the rate limiter on calls in flight.
use trading_worker.Base.{
  ℕ, ◌+◌, ◌-◌, ◌*◌, ◌≤◌, ◌<◌, ◌≡◌, ◌∙◌, refl, arith, subst, Bool, true, false, List, [], ◌∷◌, ltb,
  leb, Bool-cases, inl, inr, All,
}
use trading_worker.RateLimiter.{
  RateLimiter, token, refill, take_token, try_take, Acquiring, enter, started, start, is_capped,
  polled, poll, release, LimiterCall, start_call, poll_call, release_call, limiter_call, counted,
  limiter_calls,
}

refill_keeps :
    (now : ℕ) (l : RateLimiter)
    → ((refill now l).in_flight ≡ l.in_flight) × ((refill now l).opts ≡ l.opts)
unfolding refill
refill_keeps now l =
    elim (Bool-cases (ltb 0 ((now - l.last_refill_ms) * l.opts.refill_per_second))) [
      | inl e ↦ rw e (refl, refl)
      | inr e ↦ rw e (refl, refl)
    ]

take_token_keeps :
    (l : RateLimiter)
    → ((take_token l).1.in_flight ≡ l.in_flight) × ((take_token l).1.opts ≡ l.opts)
unfolding take_token
take_token_keeps l = elim (Bool-cases (leb token l.tokens)) [
  | inl e ↦ rw e (refl, refl)
  | inr e ↦ rw e (refl, refl)
]

try_take_keeps :
    (now : ℕ) (l : RateLimiter)
    → ((try_take now l).1.in_flight ≡ l.in_flight) × ((try_take now l).1.opts ≡ l.opts)
unfolding try_take
try_take_keeps now l =
    let (f, o) = take_token_keeps (refill now l) in
    let (g, p) = refill_keeps now l in (f ∙ g, o ∙ p)

-- The calls of a caller that does not wait.
abbrev pub IsDirect : LimiterCall → Type 0
IsDirect (start_call now) = Unit
IsDirect (poll_call now deadline) = ⊥
IsDirect release_call = Unit

abbrev WithinCap : RateLimiter → RateLimiter → Type 0
WithinCap l m = (m.opts ≡ l.opts) × (m.in_flight ≤ l.opts.max_concurrent)

started-WithinCap :
    (now : ℕ) (l : RateLimiter) (x : Bool × RateLimiter)
    → x.1.opts ≡ l.opts
    → x.1.in_flight < l.opts.max_concurrent
    → WithinCap l (started now x).1
unfolding started
started-WithinCap now l (true, m) o h = (o, omega arith)
started-WithinCap now l (false, m) o h = (o, omega arith)

limiter_call-WithinCap :
    (call : LimiterCall) (l : RateLimiter)
    → IsDirect call
    → 0 < l.opts.max_concurrent
    → l.in_flight ≤ l.opts.max_concurrent
    → WithinCap l (limiter_call call l).1
unfolding limiter_call start release
limiter_call-WithinCap (start_call now) l d p h = elim (Bool-cases (is_capped l)) [
  | inl e ↦ rw e (refl, h)
  | inr e ↦ rw e (
      let (f, o) = try_take_keeps now l in
      started-WithinCap now l (try_take now l) o (rw f (ground arith)))
]
limiter_call-WithinCap (poll_call now deadline) l d p h = absurd d
limiter_call-WithinCap release_call l d p h = (refl, omega arith)

-- Where no `acquire` waits, calls in flight never exceed a positive cap.
pub limiter_calls-WithinCap :
    (calls : List LimiterCall) (l : RateLimiter)
    → All IsDirect calls
    → 0 < l.opts.max_concurrent
    → l.in_flight ≤ l.opts.max_concurrent
    → (limiter_calls calls l).1.in_flight ≤ l.opts.max_concurrent
unfolding limiter_calls
limiter_calls-WithinCap [] l d p h = h
limiter_calls-WithinCap (call ∷ calls) l d p h =
    let (o, k) = limiter_call-WithinCap call l d.0 p h in
    subst (λ x. (limiter_calls calls (limiter_call call l).1).1.in_flight ≤ x.max_concurrent) o
      (limiter_calls-WithinCap calls (limiter_call call l).1 d.1 (rw o p) (rw o k))

counted_after : (x : Acquiring × RateLimiter) → (counted x).1 ≡ x.1
counted_after (a, l) = refl

-- A start that finds no token leaves the limiter as the attempt to take one left it.
start_after :
    (now : ℕ) (l : RateLimiter)
    → is_capped l ≡ false
    → (try_take now l).0 ≡ false
    → (start now l).1 ≡ (try_take now l).1
unfolding start
start_after now l c h = rw c (by_answer (try_take now l) h)
  where
    by_answer : (x : Bool × RateLimiter) → x.0 ≡ false → (started now x).1 ≡ x.1
    by_answer (true, m) e = cc
    by_answer (false, m) e = refl

-- A poll that finds a token counts the call in flight.
poll_after :
    (now deadline : ℕ) (l : RateLimiter)
    → (try_take now l).0 ≡ true
    → (poll now deadline l).1 ≡ enter (try_take now l).1
unfolding poll
poll_after now deadline l h = by_answer (try_take now l) h
  where
    by_answer : (x : Bool × RateLimiter) → x.0 ≡ true → (polled now deadline x).1 ≡ enter x.1
    by_answer (true, m) e = refl
    by_answer (false, m) e = cc

not_capped : (l : RateLimiter) → l.in_flight + 1 ≡ l.opts.max_concurrent → is_capped l ≡ false
not_capped l h = ground arith

-- Where `acquire` waits, the cap does not hold: when one place is left, and two calls start while the bucket
-- is empty, both pass the test of the cap; once each has found a token, one call more is in flight than the
-- cap allows.
pub cap_exceeded :
    (l : RateLimiter) (now first second deadline : ℕ)
    → l.in_flight + 1 ≡ l.opts.max_concurrent
    → (try_take now l).0 ≡ false
    → (try_take now (try_take now l).1).0 ≡ false
    → (try_take first (try_take now (try_take now l).1).1).0 ≡ true
    → (try_take second (enter (try_take first (try_take now (try_take now l).1).1).1)).0 ≡ true
    → (limiter_calls
        (start_call now
          ∷ start_call now
          ∷ poll_call first deadline
          ∷ poll_call second deadline
          ∷ [])
        l).1.in_flight
      ≡ l.opts.max_concurrent + 1
unfolding limiter_calls limiter_call
cap_exceeded l now first second deadline full e1 e2 e3 e4 =
    let one = (try_take now l).1 in
    let two = (try_take now one).1 in
    let three = (try_take first two).1 in
    let (f1, o1) = try_take_keeps now l in
    let (f2, o2) = try_take_keeps now one in
    let (f3, o3) = try_take_keeps first two in
    let (f4, o4) = try_take_keeps second (enter three) in
    let s1 : (counted (start now l)).1 ≡ one =
      counted_after (start now l) ∙ start_after now l (not_capped l full) e1 in
    let s2 : (counted (start now one)).1 ≡ two =
      counted_after (start now one) ∙ start_after now one (not_capped one (rw (f1, o1) full)) e2 in
    let p1 : (counted (poll first deadline two)).1 ≡ enter three =
      counted_after (poll first deadline two) ∙ poll_after first deadline two e3 in
    let p2 : (counted (poll second deadline (enter three))).1
        ≡ enter (try_take second (enter three)).1 =
      counted_after (poll second deadline (enter three))
      ∙ poll_after second deadline (enter three) e4 in
    rw (s1, s2, p1, p2) (omega (arith, full, f1, f2, f3, f4))
