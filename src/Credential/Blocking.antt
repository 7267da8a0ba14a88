-- ===== src/Credential/Blocking.antt =====
-- A REST endpoint that has to wait, through the writes of collector-credential-limit.repository.impl.ts.
use trading_worker.Base.{
  ℕ, ◌≤◌, ◌≡◌, ◌⊎◌, refl, ap, ◌∙◌, arith, Bool, true, false, not, ◌&&◌, List, [], ◌∷◌, Option, some,
  none, ◌==◌, if◌then◌else◌, exists, All, Bool-cases, inl, inr,
}
use trading_worker.Base.Int.{ℤ}
use trading_worker.Sql.{find_first, update_where}
use trading_worker.Sql.Rows.{find_first_after_update, find_first-append, find_first_passes}
use trading_worker.Credential.{
  RuntimeState, LimitPolicy, LimitTables, LimitAnswers, StatementAnswer, done, missing_table,
  failing, SourceKind, rest_source, ws_source, token_source, has_credential, new_state,
  normalize_non_negative_int, greatest, is_auth_failed, insert_or_ignore, rest_limited, limit_with,
  find_policy, rate_limit_with, mark_rate_limited, ws_limit_with, mark_ws_limited, auth_failed_row,
  upsert_state, auth_fail_with, mark_auth_failed, is_cleared_by, cleared_row, succeed_with,
  mark_success,
}
use trading_worker.Credential.Calls.{
  LimitCall, rate_call, ws_call, auth_call, success_call, limit_call, limit_calls, IsOther,
}

-- The REST endpoint waits till the instant at least, or till a token is given.
abbrev pub Blocked : ℕ → RuntimeState → Type 0
Blocked until s =
    (is_auth_failed s.rest.status ≡ true)
    ⊎ ((c : ℕ) × (s.rest.cooldown_until ≡ some c) × (until ≤ c))

and-right : (a b : Bool) → a && b ≡ true → b ≡ true
and-right a b h = ground arith

-- A row is of one credential only.
apart :
    (row other id : ℕ) (b : Bool)
    → (other == id) ≡ false
    → (row == id) ≡ true
    → (row == other) && b ≡ true
    → ⊥
apart row other id b o k h = ground arith

module _ (id until : ℕ) where
  pub record IsBlocked (states : List RuntimeState) : Type 0 where
    pub row : RuntimeState
    pub found : find_first (has_credential id) states ≡ some row
    pub blocked : Blocked until row

  updated :
      (p : RuntimeState → Bool) (f : RuntimeState → RuntimeState)
      → ((r : RuntimeState) → (f r).credential_id ≡ r.credential_id)
      → ((r : RuntimeState)
          → has_credential id r ≡ true
          → p r ≡ true
          → Blocked until r
          → Blocked until (f r))
      → (states : List RuntimeState) → IsBlocked states
      → IsBlocked (update_where p f states)
  updated p f keeps step states m =
      let found =
        find_first_after_update (has_credential id) p f (λ r. ap (λ i. i == id) (keeps r)) states
          m.row m.found in
      elim (Bool-cases (p m.row)) [
        | inl e ↦ record {
          row = f m.row;
          found = found ∙ ap (λ b. some (if b then f m.row else m.row)) e;
          blocked =
              step m.row (find_first_passes (has_credential id) states m.row m.found) e m.blocked;
        }
        | inr e ↦ record {
          row = m.row;
          found = found ∙ ap (λ b. some (if b then f m.row else m.row)) e;
          blocked = m.blocked;
        }
      ]

  inserted :
      (other : ℕ) (states : List RuntimeState)
      → IsBlocked states
      → IsBlocked (insert_or_ignore other states)
  unfolding insert_or_ignore
  inserted other states m = elim (Bool-cases (exists (has_credential other) states)) [
    | inl e ↦ rw e m
    | inr e ↦ rw e (record {
      row = m.row;
      found = find_first-append (has_credential id) states (new_state other) m.row m.found;
      blocked = m.blocked;
    })
  ]

  rest_limited-Blocked :
      (now later : ℕ) (retry : Option ℕ) (r : RuntimeState)
      → not (is_auth_failed r.rest.status) ≡ true
      → Blocked until r
      → Blocked until (rest_limited now later retry r)
  rest_limited-Blocked now later retry r h (inl e) = absurd (cc (h, e))
  rest_limited-Blocked now later retry r h (inr (c, e, le)) =
      inr (greatest r.rest.cooldown_until later, refl, rw e (omega arith))

  auth_failed_row-Blocked :
      (kind : SourceKind) (now : ℕ) (r : RuntimeState)
      → Blocked until r
      → Blocked until (auth_failed_row kind now r)
  auth_failed_row-Blocked rest_source now r b = inl refl
  auth_failed_row-Blocked ws_source now r b = b
  auth_failed_row-Blocked token_source now r b = inl refl

  -- The two statements of a limit.
  limited :
      (first second : StatementAnswer) (other : ℕ) (open_row : RuntimeState → Bool)
      (f : RuntimeState → RuntimeState)
      → ((r : RuntimeState) → (f r).credential_id ≡ r.credential_id)
      → ((r : RuntimeState) → open_row r ≡ true → Blocked until r → Blocked until (f r))
      → (states : List RuntimeState) → IsBlocked states
      → IsBlocked (limit_with first second other open_row f states)
  limited failing second other open_row f keeps step states m = m
  limited missing_table done other open_row f keeps step states m =
      updated (λ s. has_credential other s && open_row s) f keeps
        (λ r _ h b. step r (and-right (has_credential other r) (open_row r) h) b) states m
  limited missing_table missing_table other open_row f keeps step states m = m
  limited missing_table failing other open_row f keeps step states m = m
  limited done done other open_row f keeps step states m =
      updated (λ s. has_credential other s && open_row s) f keeps
        (λ r _ h b. step r (and-right (has_credential other r) (open_row r) h) b)
        (insert_or_ignore other states) (inserted other states m)
  limited done missing_table other open_row f keeps step states m = inserted other states m
  limited done failing other open_row f keeps step states m = inserted other states m

  rate_limit_with-IsBlocked :
      (answers : LimitAnswers) (now other : ℕ) (retry : Option ℤ)
      (policy : Option (Option LimitPolicy)) (d : LimitTables)
      → IsBlocked d.states
      → IsBlocked (rate_limit_with answers now other retry policy d).states
  rate_limit_with-IsBlocked answers now other retry none d m = m
  rate_limit_with-IsBlocked answers now other retry (some policy) d m =
      limited answers.ensures answers.updates other _ _ (λ r. refl)
        (rest_limited-Blocked now _ (normalize_non_negative_int retry)) d.states m

  ws_limit_with-IsBlocked :
      (answers : LimitAnswers) (now other : ℕ) (policy : Option (Option LimitPolicy))
      (d : LimitTables)
      → IsBlocked d.states
      → IsBlocked (ws_limit_with answers now other policy d).states
  ws_limit_with-IsBlocked answers now other none d m = m
  ws_limit_with-IsBlocked answers now other (some policy) d m =
      limited answers.ensures answers.updates other _ _ (λ r. refl) (λ r _ b. b) d.states m

  keeps-auth_failed_row :
      (kind : SourceKind) (now : ℕ) (r : RuntimeState)
      → (auth_failed_row kind now r).credential_id ≡ r.credential_id
  keeps-auth_failed_row rest_source now r = refl
  keeps-auth_failed_row ws_source now r = refl
  keeps-auth_failed_row token_source now r = refl

  auth_fail_with-IsBlocked :
      (answer : StatementAnswer) (kind : SourceKind) (now other : ℕ) (d : LimitTables)
      → IsBlocked d.states
      → IsBlocked (auth_fail_with answer kind now other d).states
  unfolding upsert_state
  auth_fail_with-IsBlocked missing_table kind now other d m = m
  auth_fail_with-IsBlocked failing kind now other d m = m
  auth_fail_with-IsBlocked done kind now other d m =
      elim (Bool-cases (exists (has_credential other) d.states)) [
        | inl e ↦ rw e (
            updated (has_credential other) (auth_failed_row kind now)
              (keeps-auth_failed_row kind now) (λ r _ _ b. auth_failed_row-Blocked kind now r b)
              d.states m)
        | inr e ↦ rw e (record {
          row = m.row;
          found = find_first-append (has_credential id) d.states _ m.row m.found;
          blocked = m.blocked;
        })
      ]

  -- A success of another credential, or of the WebSocket.
  succeed_with-IsBlocked :
      (answer : StatementAnswer) (kind : SourceKind) (other : ℕ) (d : LimitTables)
      → IsOther id (success_call answer kind other)
      → IsBlocked d.states
      → IsBlocked (succeed_with answer kind other d).states
  succeed_with-IsBlocked missing_table kind other d o m = m
  succeed_with-IsBlocked failing kind other d o m = m
  succeed_with-IsBlocked done rest_source other d o m =
      updated (λ s. has_credential other s && is_cleared_by rest_source s) (cleared_row rest_source)
        (λ r. refl)
        (λ r k h b. absurd (apart r.credential_id other id (is_cleared_by rest_source r) o k h))
        d.states m
  succeed_with-IsBlocked done token_source other d o m =
      updated (λ s. has_credential other s && is_cleared_by token_source s)
        (cleared_row token_source) (λ r. refl)
        (λ r k h b. absurd (apart r.credential_id other id (is_cleared_by token_source r) o k h))
        d.states m
  succeed_with-IsBlocked done ws_source other d o m =
      updated (λ s. has_credential other s && is_cleared_by ws_source s) (cleared_row ws_source)
        (λ r. refl) (λ r _ _ b. b) d.states m

  pub limit_calls-IsBlocked :
      (calls : List LimitCall) (d : LimitTables)
      → All (IsOther id) calls
      → IsBlocked d.states
      → IsBlocked (limit_calls calls d).states
  unfolding limit_calls limit_call mark_rate_limited mark_ws_limited mark_auth_failed mark_success
  limit_calls-IsBlocked [] d o m = m
  limit_calls-IsBlocked (rate_call answers now other retry ∷ calls) d o m =
      limit_calls-IsBlocked calls _ o.1 (
        rate_limit_with-IsBlocked answers now other retry
          (find_policy answers.finds other d.policies) d m)
  limit_calls-IsBlocked (ws_call answers now other ∷ calls) d o m =
      limit_calls-IsBlocked calls _ o.1
        (ws_limit_with-IsBlocked answers now other (find_policy answers.finds other d.policies) d m)
  limit_calls-IsBlocked (auth_call answer kind now other ∷ calls) d o m =
      limit_calls-IsBlocked calls _ o.1 (auth_fail_with-IsBlocked answer kind now other d m)
  limit_calls-IsBlocked (success_call answer kind other ∷ calls) d o m =
      limit_calls-IsBlocked calls _ o.1 (succeed_with-IsBlocked answer kind other d o.0 m)
