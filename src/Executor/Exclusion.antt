-- ===== src/Executor/Exclusion.antt =====
-- The account lock of the executor: its holder and its waiters.
use trading_worker.Base.{
  ℕ, zero, suc, ◌+◌, ◌*◌, ◌≤◌, ◌<◌, ◌≡◌, refl, arith, Bool, true, false, List, [], ◌∷◌, some, leb,
  ◌==◌, leb→le, Bool-cases, All, inl, inr,
}
use trading_worker.Executor.Lock.{
  account_lock_wait_ms, account_lock_poll_ms, Held, set_lock, release_lock, Waited, acquired,
  timed_out, wait_for_lock, acquire_account_lock, LockCall, set_call, release_call, time_of,
  owner_of, lock_calls,
}

-- A call of another owner before the key expires.
abbrev pub IsOutside : Held → LockCall → Type 0
IsOutside h call = (time_of call < h.expires_at) × ((h.owner == owner_of call) ≡ false)

set_lock-held :
    (h : Held) (now owner : ℕ) → now < h.expires_at → set_lock now owner (some h) ≡ (false, some h)
unfolding set_lock
set_lock-held h now owner lt = ground arith

release_lock-held :
    (h : Held) (now owner : ℕ)
    → now < h.expires_at
    → (h.owner == owner) ≡ false
    → release_lock now owner (some h) ≡ some h
unfolding release_lock
release_lock-held h now owner lt ne = ground arith

-- While a key has not expired, no call of another owner is told OK or changes the key, in whatever order the
-- calls come.
pub lock_calls_exclusive :
    (calls : List LockCall) (h : Held)
    → All (IsOutside h) calls
    → lock_calls calls (some h) ≡ ([], some h)
unfolding lock_calls
lock_calls_exclusive [] h o = refl
lock_calls_exclusive (set_call now owner ∷ calls) h o =
    rw (set_lock-held h now owner o.0.0, lock_calls_exclusive calls h o.1) refl
lock_calls_exclusive (release_call now owner ∷ calls) h o =
    rw (release_lock-held h now owner o.0.0 o.0.1) (lock_calls_exclusive calls h o.1)

-- How a wait ends: with an OK, at a poll not later than the deadline; or without one at the deadline.
abbrev pub IsAnswered : (ℕ → Bool) → ℕ → Waited → Type 0
IsAnswered answers deadline (acquired at) =
    (answers at ≡ true) × (at < deadline + account_lock_poll_ms)
IsAnswered answers deadline timed_out = (at : ℕ) × (answers at ≡ false) × (deadline ≤ at)

deadline_over : (now deadline : ℕ) → deadline ≤ now → leb deadline now ≡ true
deadline_over now deadline h = ground arith

wait_for_lock_total :
    (answers : ℕ → Bool) (polls now deadline : ℕ)
    → deadline ≤ now + polls * account_lock_poll_ms
    → now < deadline + account_lock_poll_ms
    → (w : Waited) × (wait_for_lock answers (suc polls) now deadline ≡ some w)
      × IsAnswered answers deadline w
unfolding wait_for_lock
wait_for_lock_total answers zero now deadline h b = elim (Bool-cases (answers now)) [
  | inl e ↦ (acquired now, rw e refl, (e, b))
  | inr e ↦
      (timed_out, rw (e, deadline_over now deadline (omega arith)) refl, (now, e, omega arith))
]
wait_for_lock_total answers (suc polls) now deadline h b = elim (Bool-cases (answers now)) [
  | inl e ↦ (acquired now, rw e refl, (e, b))
  | inr e ↦ elim (Bool-cases (leb deadline now)) [
    | inl d ↦ (timed_out, rw (e, d) refl, (now, e, leb→le deadline now d))
    | inr d ↦
        let (w, eq, k) =
          wait_for_lock_total answers polls (now + account_lock_poll_ms) deadline (omega arith)
            (ground arith) in
        (w, rw (e, d) eq, k)
  ]
]

-- Whatever the answers, the wait for the lock ends within its polls: with an OK to a poll that was made
-- before the wait time and one poll more were over, or, with the wait time over, without an OK.
pub acquire_account_lock_total :
    (answers : ℕ → Bool) (now : ℕ)
    → (w : Waited) × (acquire_account_lock answers now ≡ some w)
      × IsAnswered answers (now + account_lock_wait_ms) w
unfolding acquire_account_lock
acquire_account_lock_total answers now =
    wait_for_lock_total answers 600 now (now + account_lock_wait_ms) (omega arith) (omega arith)
