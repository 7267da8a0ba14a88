-- ===== src/Credential/Source.antt =====
-- external/brokerage/credential/credential-source.service.ts: which collector credentials may be chosen. The
-- clock is read once.
use trading_worker.Base.{
  ℕ, min, Bool, false, not, List, [], ◌∷◌, Option, some, none, ltb, leb, ◌==◌, if◌then◌else◌,
  filter_by,
}
use trading_worker.Base.Int.{ℤ, pos, leb_ℤ}
use trading_worker.Base.Text.{Text, codes}
use trading_worker.Event.{MarketEnv}
use trading_worker.Sql.{find_first, is_null}
use trading_worker.Credential.{
  RuntimeStatus, active, auth_failed, LimitPolicy, EndpointState, RuntimeState, LimitTables,
  has_credential, policy_of, is_auth_failed,
}
use trading_worker.Credential.Cooldown.{collector, Cooldowns, is_on_cooldown}

pub data Endpoint : Type 0 where
  rest_endpoint ws_endpoint : Endpoint

pub data ExclusionReason : Type 0 where
  in_memory_cooldown policy_disabled cooldown_pending auth_failed_reason ws_connections_disabled
        ws_symbols_disabled :
      ExclusionReason

abbrev pub reason_text : ExclusionReason → Text
reason_text in_memory_cooldown = codes "IN_MEMORY_COOLDOWN"
reason_text policy_disabled = codes "POLICY_DISABLED"
reason_text cooldown_pending = codes "COOLDOWN_PENDING"
reason_text auth_failed_reason = codes "AUTH_FAILED"
reason_text ws_connections_disabled = codes "WS_CONNECTIONS_DISABLED"
reason_text ws_symbols_disabled = codes "WS_SYMBOLS_DISABLED"

abbrev pub endpoint_of : Endpoint → RuntimeState → EndpointState
endpoint_of rest_endpoint s = s.rest
endpoint_of ws_endpoint s = s.ws

-- `until && until.getTime() > now`
abbrev pub is_still_pending : ℕ → Option ℕ → Bool
is_still_pending now none = false
is_still_pending now (some until) = ltb now until

-- `value !== null && value <= 0`
abbrev is_none_left : Option ℤ → Bool
is_none_left none = false
is_none_left (some n) = leb_ℤ n (pos 0)

abbrev pub is_disabled : Option LimitPolicy → Bool
is_disabled none = false
is_disabled (some p) = not p.is_enabled

abbrev pub ws_exclusion : Endpoint → Option LimitPolicy → Option ExclusionReason
ws_exclusion rest_endpoint policy = none
ws_exclusion ws_endpoint none = none
ws_exclusion ws_endpoint (some p) =
    if is_none_left p.ws_max_connections
    then some ws_connections_disabled
    else if is_none_left p.ws_max_symbols
    then some ws_symbols_disabled
    else none

abbrev pub state_exclusion :
    ℕ → Endpoint → Option LimitPolicy → Option RuntimeState → Option ExclusionReason
state_exclusion now port policy none = none
state_exclusion now port policy (some s) =
    if is_still_pending now (endpoint_of port s).cooldown_until
    then some cooldown_pending
    else if is_auth_failed (endpoint_of port s).status
    then some auth_failed_reason
    else ws_exclusion port policy

-- `collectorExclusionReason`, behind the test of the cooldown in memory.
unfoldable pub collector_exclusion_reason :
    Bool → ℕ → Endpoint → LimitTables → ℕ → Option ExclusionReason
unfolding find_first
collector_exclusion_reason is_cooling now port limits id =
    let policy = policy_of id limits.policies in
    if is_cooling
    then some in_memory_cooldown
    else if is_disabled policy
    then some policy_disabled
    else state_exclusion now port policy (find_first (has_credential id) limits.states)

-- `cooldownUntil && cooldownUntil.getTime() <= now`
abbrev has_passed : ℕ → Option ℕ → Bool
has_passed now none = false
has_passed now (some until) = leb until now

abbrev priority_with : ℕ → Option ℕ → RuntimeStatus → ℕ
priority_with now until active = 0
priority_with now until auth_failed = 1
priority_with now until _ = if has_passed now until then 0 else 1

abbrev priority_at : ℕ → Endpoint → Option RuntimeState → ℕ
priority_at now port none = 0
priority_at now port (some s) =
    priority_with now (endpoint_of port s).cooldown_until (endpoint_of port s).status

unfoldable pub collector_priority : ℕ → Endpoint → LimitTables → ℕ → ℕ
unfolding find_first
collector_priority now port limits id =
    priority_at now port (find_first (has_credential id) limits.states)

pub record CollectorCredential : Type 0 where
  pub id : ℕ
  pub brokerage : Text
  pub market_env : MarketEnv
  pub app_key_enc : Option Text
  pub app_secret_enc : Option Text

pub record Evaluated : Type 0 where
  pub credential : CollectorCredential
  pub exclusion_reason : Option ExclusionReason
  pub priority : ℕ

unfoldable pub evaluate_all :
    ℕ → Endpoint → LimitTables → List CollectorCredential → Cooldowns → List Evaluated × Cooldowns
unfolding is_on_cooldown collector_exclusion_reason collector_priority
evaluate_all now port limits [] cooldowns = ([], cooldowns)
evaluate_all now port limits (c ∷ credentials) cooldowns =
    let (is_cooling, after) = is_on_cooldown now collector c.id cooldowns in
    let (evaluated, last) = evaluate_all now port limits credentials after in
    (
      record {
        credential = c;
        exclusion_reason = collector_exclusion_reason is_cooling now port limits c.id;
        priority = collector_priority now port limits c.id;
      }
          ∷ evaluated,
      last,
    )

-- `Math.min(...priorities)`; of none it is not asked.
unfoldable pub best_priority : List Evaluated → ℕ
best_priority [] = 0
best_priority (e ∷ []) = e.priority
best_priority (e ∷ f ∷ items) = min e.priority (best_priority (f ∷ items))

unfoldable pub eligible_of : List Evaluated → List Evaluated
unfolding filter_by best_priority
eligible_of evaluated =
    let items = filter_by (λ e. is_null e.exclusion_reason) evaluated in
    filter_by (λ e. e.priority == best_priority items) items
