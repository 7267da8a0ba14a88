-- ===== src/Executor/Lock.antt =====
-- `withDistributedAccountLock` of both pickups: the key of one account in Redis, `SET … PX … NX`, the
-- release script, and the polls for the key. Between two polls the clock moves by the time slept.
use trading_worker.Base.{
  ℕ, zero, suc, ◌+◌, Bool, true, false, List, [], ◌∷◌, Option, some, none, ltb, leb, ◌==◌,
  if◌then◌else◌,
}

abbrev pub account_lock_ttl_ms : ℕ
account_lock_ttl_ms = 60000

abbrev pub account_lock_wait_ms : ℕ
account_lock_wait_ms = 30000

abbrev pub account_lock_poll_ms : ℕ
account_lock_poll_ms = 50

-- The value of the key, an owner's UUID, and when it expires.
pub record Held : Type 0 where
  pub owner : ℕ
  pub expires_at : ℕ

-- What a read finds: an expired key is not there.
abbrev pub live : ℕ → Option Held → Option Held
live now none = none
live now (some h) = if ltb now h.expires_at then some h else none

abbrev set_if_free : ℕ → ℕ → Option Held → Option Held → Bool × Option Held
set_if_free now owner key none =
    (true, some (record { owner = owner; expires_at = now + account_lock_ttl_ms }))
set_if_free now owner key (some h) = (false, key)

-- `SET key owner PX ttl NX`: whether the answer is OK, and the key after it.
unfoldable pub set_lock : ℕ → ℕ → Option Held → Bool × Option Held
set_lock now owner key = set_if_free now owner key (live now key)

abbrev delete_if_own : ℕ → Option Held → Option Held → Option Held
delete_if_own owner key none = key
delete_if_own owner key (some h) = if h.owner == owner then none else key

-- RELEASE_LOCK_SCRIPT
unfoldable pub release_lock : ℕ → ℕ → Option Held → Option Held
release_lock now owner key = delete_if_own owner key (live now key)

-- The loop: when the lock is had, or that the wait is over. `answers at` is the answer to the SET at that
-- time; `fuel` bounds the polls.
pub data Waited : Type 0 where
  acquired : ℕ → Waited
  timed_out : Waited

module _ (answers : ℕ → Bool) where
  unfoldable pub wait_for_lock : ℕ → ℕ → ℕ → Option Waited
  wait_for_lock zero now deadline = none
  wait_for_lock (suc fuel) now deadline =
      let rest = wait_for_lock fuel (now + account_lock_poll_ms) deadline in
      if answers now then some (acquired now) else if leb deadline now then some timed_out else rest

unfoldable pub acquire_account_lock : (ℕ → Bool) → ℕ → Option Waited
unfolding wait_for_lock
acquire_account_lock answers now = wait_for_lock answers 601 now (now + account_lock_wait_ms)

-- The calls that pods make on the key over time.
pub data LockCall : Type 0 where
  set_call : ℕ → ℕ → LockCall
  release_call : ℕ → ℕ → LockCall

abbrev pub time_of : LockCall → ℕ
time_of (set_call now owner) = now
time_of (release_call now owner) = now

abbrev pub owner_of : LockCall → ℕ
owner_of (set_call now owner) = owner
owner_of (release_call now owner) = owner

-- The owners that are told OK, and the key at the end.
unfoldable pub lock_calls : List LockCall → Option Held → List ℕ × Option Held
unfolding set_lock release_lock
lock_calls [] key = ([], key)
lock_calls (set_call now owner ∷ calls) key =
    let step = set_lock now owner key in
    let rest = lock_calls calls step.1 in (if step.0 then owner ∷ rest.0 else rest.0, rest.1)
lock_calls (release_call now owner ∷ calls) key = lock_calls calls (release_lock now owner key)
