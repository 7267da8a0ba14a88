-- ===== src/Credential/Excluded.antt =====
-- How long a credential that was rate-limited is left alone by the choice for REST.
use trading_worker.Base.{
  ℕ, ◌+◌, ◌≤◌, ◌<◌, max, ◌≡◌, refl, ap, ◌∙◌, sym, arith, Bool, true, false, not, ◌&&◌, List, Option,
  some, none, if◌then◌else◌, exists, All, Bool-cases, inl, inr,
}
use trading_worker.Base.Int.{ℤ}
use trading_worker.Sql.{find_first, update_where, is_null}
use trading_worker.Sql.Rows.{
  find_first_after_update, find_first_new, find_first_of_exists, find_first_passes,
}
use trading_worker.Credential.{
  RuntimeState, LimitTables, LimitAnswers, done, has_credential, policy_of, new_state,
  normalize_non_negative_int, or_zero, cooldown_floor_ms, greatest, is_auth_failed,
  insert_or_ignore, rest_limited, mark_rate_limited,
}
use trading_worker.Credential.Source.{
  rest_endpoint, is_still_pending, is_disabled, state_exclusion, collector_exclusion_reason,
}
use trading_worker.Credential.Calls.{LimitCall, limit_calls, IsOther}
use trading_worker.Credential.Blocking.{Blocked, IsBlocked, limit_calls-IsBlocked}

pending_until :
    (now c until : ℕ) → now < until → until ≤ c → is_still_pending now (some c) ≡ false → ⊥
pending_until now c until lt le h = ground arith

module _ (id until : ℕ) where
  -- The choice leaves a blocked credential out before the instant.
  IsBlocked-Excluded :
      (is_cooling : Bool) (now : ℕ) (d : LimitTables)
      → now < until
      → IsBlocked id until d.states
      → is_null (collector_exclusion_reason is_cooling now rest_endpoint d id) ≡ false
  unfolding collector_exclusion_reason
  IsBlocked-Excluded true now d lt m = refl
  IsBlocked-Excluded false now d lt m = elim (Bool-cases (is_disabled (policy_of id d.policies))) [
    | inl e ↦ rw e refl
    | inr e ↦ rw (e, m.found) (excluded m.row m.blocked)
  ]
    where
      excluded :
          (r : RuntimeState)
          → Blocked until r
          → is_null (state_exclusion now rest_endpoint (policy_of id d.policies) (some r)) ≡ false
      excluded r b = elim (Bool-cases (is_still_pending now r.rest.cooldown_until)) [
        | inl e ↦ rw e refl
        | inr e ↦ rw (e, unless_pending r e b) refl
      ]
        where
          unless_pending :
              (r : RuntimeState)
              → is_still_pending now r.rest.cooldown_until ≡ false
              → Blocked until r
              → is_auth_failed r.rest.status ≡ true
          unless_pending r e (inl a) = a
          unless_pending r e (inr (c, k, le)) =
              absurd (pending_until now c until lt le (ap (is_still_pending now) (sym k) ∙ e))

insert_or_ignore-finds :
    (id : ℕ) (states : List RuntimeState)
    → (row : RuntimeState) × (find_first (has_credential id) (insert_or_ignore id states)
        ≡ some row)
unfolding insert_or_ignore
insert_or_ignore-finds id states = elim (Bool-cases (exists (has_credential id) states)) [
  | inl e ↦ rw e (find_first_of_exists (has_credential id) states e)
  | inr e ↦
      rw e (new_state id, find_first_new (has_credential id) states (new_state id) e (ground arith))
]

greatest-bound : (before : Option ℕ) (until : ℕ) → until ≤ greatest before until
greatest-bound none until = omega arith
greatest-bound (some n) until = omega arith

closed : (a b : Bool) → a ≡ true → a && not b ≡ false → b ≡ true
closed a b h k = ground arith

-- `markRateLimited`, with all its statements done, leaves the credential blocked.
limited-IsBlocked :
    (id until now : ℕ) (retry : Option ℕ) (states : List RuntimeState)
    → IsBlocked id until (
        update_where
          (λ s. has_credential id s && not (is_auth_failed s.rest.status))
          (rest_limited now until retry)
          (insert_or_ignore id states))
limited-IsBlocked id until now retry states =
    let (row, found) = insert_or_ignore-finds id states in
    let is_open : RuntimeState → Bool =
      λ s. has_credential id s && not (is_auth_failed s.rest.status) in
    let after =
      find_first_after_update (has_credential id) is_open (rest_limited now until retry) (λ r. refl)
        (insert_or_ignore id states) row found in
    elim (Bool-cases (is_open row)) [
      | inl e ↦ record {
        row = rest_limited now until retry row;
        found = after ∙ ap (λ b. some (if b then rest_limited now until retry row else row)) e;
        blocked = inr (
          greatest row.rest.cooldown_until until,
          refl,
          greatest-bound row.rest.cooldown_until until,
        );
      }
      | inr e ↦ record {
        row = row;
        found = after ∙ ap (λ b. some (if b then rest_limited now until retry row else row)) e;
        blocked = inl (
            closed (has_credential id row) (is_auth_failed row.rest.status)
              (find_first_passes (has_credential id) (insert_or_ignore id states) row found) e);
      }
    ]

abbrev pub all_done : LimitAnswers
all_done = record { finds = done; ensures = done; updates = done }

-- A credential that is reported as rate-limited, with the statements done, is left out by the choice for REST
-- at every instant before the end of its cooldown: the time asked for by the broker, or the floor of its
-- policy where that is more. That holds after any further writes, failing or not, also of authentication
-- errors of this credential and of limits and successes of its WebSocket, as long as no success of it for
-- REST or for a token is reported; and whatever the cooldowns in memory say.
pub mark_rate_limited-Excluded :
    (id reported now : ℕ) (retry_after_ms : Option ℤ) (calls : List LimitCall) (is_cooling : Bool)
    (d : LimitTables)
    → All (IsOther id) calls
    → now
      < reported
        + max
            (or_zero (normalize_non_negative_int retry_after_ms))
            (cooldown_floor_ms (policy_of id d.policies))
    → is_null (
        collector_exclusion_reason is_cooling now rest_endpoint
          (limit_calls calls (mark_rate_limited all_done reported id retry_after_ms d))
          id)
      ≡ false
unfolding mark_rate_limited
mark_rate_limited-Excluded id reported now retry calls is_cooling d o lt =
    IsBlocked-Excluded id _ is_cooling now _ lt (
      limit_calls-IsBlocked id _ calls _ o
        (limited-IsBlocked id _ reported (normalize_non_negative_int retry) d.states))
