-- ===== src/Credential.antt =====
-- shared/persistence/collector-credential/collector-credential-limit.repository.impl.ts and its entities: what
-- is known of the limits of a collector credential. Messages of errors and the connection's absence are left
-- out. A number of milliseconds is whole; `none` for one is null or not finite.
pub mod Cooldown
pub mod Source
pub mod Choice
pub mod Turns
pub mod Accounts
pub mod Calls
pub mod Blocking
pub mod Excluded
pub mod Offers
mod Tests
use trading_worker.Base.{
  ℕ, ◌+◌, max, Bool, true, false, not, ◌&&◌, ◌||◌, List, [], ◌∷◌, ◌++◌, Option, some, none, ◌==◌,
  if◌then◌else◌, exists,
}
use trading_worker.Base.Int.{ℤ, pos, negsuc}
use mathlib.Core.Option
use trading_worker.Sql.{find_first, update_where}

pub data RuntimeStatus : Type 0 where
  active rate_limited cooldown auth_failed ws_limited : RuntimeStatus

pub record LimitPolicy : Type 0 where
  pub credential_id : ℕ
  pub ws_max_connections : Option ℤ
  pub ws_max_symbols : Option ℤ
  pub cooldown_default_ms : ℤ
  pub is_enabled : Bool

-- The columns of an endpoint; the WebSocket has no column for `last_retry_after_ms`.
pub record EndpointState : Type 0 where
  pub status : RuntimeStatus
  pub cooldown_until : Option ℕ
  pub last_limited_at : Option ℕ
  pub last_retry_after_ms : Option ℕ
  pub last_auth_failed_at : Option ℕ

-- `overall` are the deprecated columns that both endpoints write, with `last_rate_limited_at`.
pub record RuntimeState : Type 0 where
  pub credential_id : ℕ
  pub overall : EndpointState
  pub last_ws_limited_at : Option ℕ
  pub rest : EndpointState
  pub ws : EndpointState

pub record LimitTables : Type 0 where
  pub policies : List LimitPolicy
  pub states : List RuntimeState

-- How a statement ends: done, with no such table (code 42P01), or with another error.
pub data StatementAnswer : Type 0 where
  done missing_table failing : StatementAnswer

pub data SourceKind : Type 0 where
  rest_source ws_source token_source : SourceKind

abbrev pub has_credential : ℕ → RuntimeState → Bool
has_credential id s = s.credential_id == id

abbrev pub policy_of : ℕ → List LimitPolicy → Option LimitPolicy
policy_of id = find_first (λ p. p.credential_id == id)

abbrev idle_endpoint : EndpointState
idle_endpoint = record {
  status = active;
  cooldown_until = none;
  last_limited_at = none;
  last_retry_after_ms = none;
  last_auth_failed_at = none;
}

abbrev pub new_state : ℕ → RuntimeState
new_state id = record {
  credential_id = id;
  overall = idle_endpoint;
  last_ws_limited_at = none;
  rest = idle_endpoint;
  ws = idle_endpoint;
}

abbrev pub normalize_non_negative_int : Option ℤ → Option ℕ
normalize_non_negative_int none = none
normalize_non_negative_int (some (pos n)) = some n
normalize_non_negative_int (some (negsuc n)) = none

abbrev pub or_zero : Option ℕ → ℕ
or_zero none = 0
or_zero (some n) = n

-- `Math.max(parsed ?? 60_000, 1_000)`
abbrev floored : Option ℕ → ℕ
floored none = 60000
floored (some n) = max n 1000

abbrev pub cooldown_floor_ms : Option LimitPolicy → ℕ
cooldown_floor_ms policy =
    floored (normalize_non_negative_int (Option.map (λ p. p.cooldown_default_ms) policy))

-- `GREATEST(COALESCE(…, '-infinity'), :cooldownUntil)`
abbrev pub greatest : Option ℕ → ℕ → ℕ
greatest none until = until
greatest (some before) until = max before until

abbrev pub is_auth_failed : RuntimeStatus → Bool
is_auth_failed auth_failed = true
is_auth_failed _ = false

-- `INSERT … ON CONFLICT DO NOTHING`
unfoldable pub insert_or_ignore : ℕ → List RuntimeState → List RuntimeState
insert_or_ignore id states =
    if exists (has_credential id) states then states else states ++ new_state id ∷ []

-- The row of `updateRecoverableState`, for the REST endpoint and for the WebSocket.
abbrev pub rest_limited : ℕ → ℕ → Option ℕ → RuntimeState → RuntimeState
rest_limited now until retry_after_ms s = record s {
  overall = record (s.overall) {
    status = rate_limited;
    cooldown_until = some (greatest s.overall.cooldown_until until);
    last_limited_at = some now;
    last_retry_after_ms = retry_after_ms;
  };
  rest = record (s.rest) {
    status = rate_limited;
    cooldown_until = some (greatest s.rest.cooldown_until until);
    last_limited_at = some now;
    last_retry_after_ms = retry_after_ms;
  };
}

abbrev pub ws_limited_row : ℕ → ℕ → RuntimeState → RuntimeState
ws_limited_row now until s = record s {
  overall = record (s.overall) {
    status = ws_limited;
    cooldown_until = some (greatest s.overall.cooldown_until until);
  };
  last_ws_limited_at = some now;
  ws = record (s.ws) {
    status = ws_limited;
    cooldown_until = some (greatest s.ws.cooldown_until until);
    last_limited_at = some now;
  };
}

-- The two statements of a limit: an error of the second, or a missing table, changes nothing more; any other
-- error of the first ends the call.
abbrev pub limit_with :
    StatementAnswer
    → StatementAnswer
    → ℕ
    → (RuntimeState → Bool)
    → (RuntimeState → RuntimeState)
    → List RuntimeState
    → List RuntimeState
limit_with failing update id open_row limited states = states
limit_with missing_table done id open_row limited states =
    update_where (λ s. has_credential id s && open_row s) limited states
limit_with missing_table _ id open_row limited states = states
limit_with done done id open_row limited states =
    update_where (λ s. has_credential id s && open_row s) limited (insert_or_ignore id states)
limit_with done _ id open_row limited states = insert_or_ignore id states

-- What `findPolicy` finds; the outer `none` is an error that ends the call.
abbrev pub find_policy : StatementAnswer → ℕ → List LimitPolicy → Option (Option LimitPolicy)
find_policy done id policies = some (policy_of id policies)
find_policy missing_table id policies = some none
find_policy failing id policies = none

-- The answers to the statements of a call.
pub record LimitAnswers : Type 0 where
  pub finds : StatementAnswer
  pub ensures : StatementAnswer
  pub updates : StatementAnswer

abbrev pub rate_limit_with :
    LimitAnswers → ℕ → ℕ → Option ℤ → Option (Option LimitPolicy) → LimitTables → LimitTables
rate_limit_with answers now id retry_after_ms none d = d
rate_limit_with answers now id retry_after_ms (some policy) d =
    let retry = normalize_non_negative_int retry_after_ms in
    let until = now + max (or_zero retry) (cooldown_floor_ms policy) in
    record d {
      states =
          limit_with answers.ensures answers.updates id (λ s. not (is_auth_failed s.rest.status))
            (rest_limited now until retry) d.states;
    }

unfoldable pub mark_rate_limited : LimitAnswers → ℕ → ℕ → Option ℤ → LimitTables → LimitTables
unfolding find_first update_where insert_or_ignore
mark_rate_limited answers now id retry_after_ms d =
    rate_limit_with answers now id retry_after_ms (find_policy answers.finds id d.policies) d

abbrev pub ws_limit_with :
    LimitAnswers → ℕ → ℕ → Option (Option LimitPolicy) → LimitTables → LimitTables
ws_limit_with answers now id none d = d
ws_limit_with answers now id (some policy) d = record d {
  states =
      limit_with answers.ensures answers.updates id (λ s. not (is_auth_failed s.ws.status))
        (ws_limited_row now (now + cooldown_floor_ms policy)) d.states;
}

unfoldable pub mark_ws_limited : LimitAnswers → ℕ → ℕ → LimitTables → LimitTables
unfolding find_first update_where insert_or_ignore
mark_ws_limited answers now id d =
    ws_limit_with answers now id (find_policy answers.finds id d.policies) d

abbrev pub auth_refused : ℕ → EndpointState → EndpointState
auth_refused now e = record e {
  status = auth_failed;
  cooldown_until = none;
  last_auth_failed_at = some now;
}

abbrev pub auth_failed_row : SourceKind → ℕ → RuntimeState → RuntimeState
auth_failed_row token_source now s = record s {
  overall = auth_refused now s.overall;
  rest = auth_refused now s.rest;
  ws = auth_refused now s.ws;
}
auth_failed_row rest_source now s = record s {
  overall = auth_refused now s.overall;
  rest = auth_refused now s.rest;
}
auth_failed_row ws_source now s = record s {
  overall = auth_refused now s.overall;
  ws = auth_refused now s.ws;
}

-- `upsert` by the credential.
unfoldable pub upsert_state :
    ℕ → (RuntimeState → RuntimeState) → List RuntimeState → List RuntimeState
unfolding update_where
upsert_state id f states =
    if exists (has_credential id) states
    then update_where (has_credential id) f states
    else states ++ f (new_state id) ∷ []

abbrev pub auth_fail_with : StatementAnswer → SourceKind → ℕ → ℕ → LimitTables → LimitTables
auth_fail_with done kind now id d = record d {
  states = upsert_state id (auth_failed_row kind now) d.states;
}
auth_fail_with _ kind now id d = d

unfoldable pub mark_auth_failed : StatementAnswer → SourceKind → ℕ → ℕ → LimitTables → LimitTables
unfolding upsert_state
mark_auth_failed answer kind now id d = auth_fail_with answer kind now id d

-- `clearableStatusesForSuccess`
abbrev pub is_clearable : SourceKind → RuntimeStatus → Bool
is_clearable rest_source rate_limited = true
is_clearable rest_source cooldown = true
is_clearable rest_source _ = false
is_clearable ws_source ws_limited = true
is_clearable ws_source _ = false
is_clearable token_source auth_failed = true
is_clearable token_source cooldown = true
is_clearable token_source _ = false

abbrev pub cleared : EndpointState → EndpointState
cleared e = record e { status = active; cooldown_until = none }

abbrev pub is_cleared_by : SourceKind → RuntimeState → Bool
is_cleared_by rest_source s = is_clearable rest_source s.rest.status
is_cleared_by ws_source s = is_clearable ws_source s.ws.status
is_cleared_by token_source s =
    is_clearable token_source s.overall.status
    || is_clearable token_source s.rest.status
    || is_clearable token_source s.ws.status

abbrev pub cleared_row : SourceKind → RuntimeState → RuntimeState
cleared_row token_source s = record s {
  overall = cleared s.overall;
  rest = cleared s.rest;
  ws = cleared s.ws;
}
cleared_row rest_source s = record s { overall = cleared s.overall; rest = cleared s.rest }
cleared_row ws_source s = record s { overall = cleared s.overall; ws = cleared s.ws }

abbrev pub succeed_with : StatementAnswer → SourceKind → ℕ → LimitTables → LimitTables
succeed_with done kind id d = record d {
  states =
      update_where (λ s. has_credential id s && is_cleared_by kind s) (cleared_row kind) d.states;
}
succeed_with _ kind id d = d

unfoldable pub mark_success : StatementAnswer → SourceKind → ℕ → LimitTables → LimitTables
unfolding update_where
mark_success answer kind id d = succeed_with answer kind id d
