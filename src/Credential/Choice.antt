-- ===== src/Credential/Choice.antt =====
-- external/brokerage/credential/credential-source.service.ts: what the choice of a collector credential gives
-- its caller. `decrypt` opens a stored text.
use trading_worker.Base.{
  zero, suc, ◌%◌, ◌+◌, ℕ, ◌+◌, Bool, true, ◌||◌, List, [], ◌∷◌, ◌++◌, Option, some, none,
  if◌then◌else◌, length, map,
}
use trading_worker.Base.Int.{ℤ}
use trading_worker.Base.Text.{Text, codes, coalesce, is_empty}
use trading_worker.Base.TextMap.{lookup, assign}
use trading_worker.Event.{MarketEnv, mock, production}
use trading_worker.Sql.{find_first}
use trading_worker.Credential.{LimitPolicy, LimitTables, policy_of}
use trading_worker.Credential.Cooldown.{Cooldowns}
use trading_worker.Credential.Source.{
  Endpoint, rest_endpoint, ws_endpoint, ExclusionReason, reason_text, CollectorCredential,
  Evaluated, evaluate_all, eligible_of,
}

abbrev count_reason : Option ExclusionReason → List (Text × ℕ) → List (Text × ℕ)
count_reason none counts = counts
count_reason (some r) counts =
    assign (reason_text r) (coalesce (lookup (reason_text r) counts) 0 + 1) counts

unfoldable pub exclusion_counts : List (Option ExclusionReason) → List (Text × ℕ) → List (Text × ℕ)
unfolding assign lookup
exclusion_counts [] counts = counts
exclusion_counts (r ∷ reasons) counts = exclusion_counts reasons (count_reason r counts)

-- `BrokerageCredentialMaterial` of a collector.
pub record CollectorMaterial : Type 0 where
  pub credential_id : ℕ
  pub brokerage : Text
  pub market_env : MarketEnv
  pub app_key : Text
  pub app_secret : Text
  pub ws_max_symbols : Option ℤ

pub data SelectionError : Type 0 where
  exhausted : ℕ → List (Text × ℕ) → SelectionError
  material_missing : ℕ → SelectionError

pub data Selected (A : Type 0) : Type 0 where
  selected : A → Selected A
  refused_with : SelectionError → Selected A

abbrev ws_max_symbols_of : Option LimitPolicy → Option ℤ
ws_max_symbols_of none = none
ws_max_symbols_of (some p) = p.ws_max_symbols

abbrev pub is_missing : Option Text → Bool
is_missing none = true
is_missing (some t) = is_empty t

module _ (decrypt : Option Text → Option Text) where
  abbrev pub material_with :
      LimitTables → CollectorCredential → Option Text → Option Text → CollectorMaterial
  material_with limits c key secret = record {
    credential_id = c.id;
    brokerage = c.brokerage;
    market_env = c.market_env;
    app_key = coalesce key [];
    app_secret = coalesce secret [];
    ws_max_symbols = ws_max_symbols_of (policy_of c.id limits.policies);
  }

  abbrev pub prepend :
      CollectorMaterial → Selected (List CollectorMaterial) → Selected (List CollectorMaterial)
  prepend m (selected materials) = selected (m ∷ materials)
  prepend m (refused_with e) = refused_with e

  -- The first credential that does not open ends the call.
  unfoldable pub materials_of : LimitTables → List Evaluated → Selected (List CollectorMaterial)
  unfolding find_first
  materials_of limits [] = selected []
  materials_of limits (e ∷ items) =
      let rest = materials_of limits items in
      let key = decrypt e.credential.app_key_enc in
      let secret = decrypt e.credential.app_secret_enc in
      if is_missing key || is_missing secret
      then refused_with (material_missing e.credential.id)
      else prepend (material_with limits e.credential key secret) rest

  abbrev pub offer :
      LimitTables → List Evaluated → List Evaluated → Selected (List CollectorMaterial)
  offer limits evaluated [] =
      refused_with (
        exhausted (length evaluated)
          (exclusion_counts (map (λ e. e.exclusion_reason) evaluated) []))
  offer limits evaluated (e ∷ items) = materials_of limits (e ∷ items)

  unfoldable pub list_collector_credentials :
      ℕ
      → Endpoint
      → LimitTables
      → List CollectorCredential
      → Cooldowns
      → Selected (List CollectorMaterial) × Cooldowns
  unfolding evaluate_all eligible_of materials_of exclusion_counts
  list_collector_credentials now port limits all cooldowns =
      let (evaluated, after) = evaluate_all now port limits all cooldowns in
      (offer limits evaluated (eligible_of evaluated), after)

abbrev pub get_elem? : {A : Type 0} → List A → ℕ → Option A
get_elem? [] i = none
get_elem? (x ∷ xs) zero = some x
get_elem? (x ∷ xs) (suc i) = get_elem? xs i

-- The cursors of `collectorCursor`, by their keys.
abbrev pub Cursors : Type 0
Cursors = List (Text × ℕ)

-- What is picked of what the listing gives; `none` would be `undefined`. `start` is what `Math.random` gives a
-- key that has no cursor yet.
unfoldable pub select_from :
    Text
    → ℕ
    → Selected (List CollectorMaterial)
    → Cursors
    → Selected (Option CollectorMaterial) × Cursors
unfolding lookup assign
select_from key start (refused_with e) cursors = (refused_with e, cursors)
select_from key start (selected []) cursors = (refused_with (exhausted 0 []), cursors)
select_from key start (selected (m ∷ materials)) cursors =
    let cursor = coalesce (lookup key cursors) start in
    (
      selected (get_elem? (m ∷ materials) (cursor % length (m ∷ materials))),
      assign key (cursor + 1) cursors,
    )

abbrev market_env_text : MarketEnv → Text
market_env_text mock = codes "MOCK"
market_env_text production = codes "PRODUCTION"

abbrev endpoint_text : Endpoint → Text
endpoint_text rest_endpoint = codes "REST"
endpoint_text ws_endpoint = codes "WS"

-- `${brokerage}:${marketEnv}:${endpoint}`
abbrev cursor_key : Text → MarketEnv → Endpoint → Text
cursor_key brokerage env port = brokerage ++ b':' ∷ market_env_text env ++ b':' ∷ endpoint_text port

-- `all` are the active credentials of the brokerage and the environment.
unfoldable pub select_collector_credential :
    (Option Text → Option Text)
    → ℕ
    → ℕ
    → Text
    → MarketEnv
    → Endpoint
    → LimitTables
    → List CollectorCredential
    → Cursors
    → Cooldowns
    → Selected (Option CollectorMaterial) × Cursors × Cooldowns
unfolding select_from list_collector_credentials
select_collector_credential decrypt now start brokerage env port limits all cursors cooldowns =
    let (listed, cooling) = list_collector_credentials decrypt now port limits all cooldowns in
    let (picked, after) = select_from (cursor_key brokerage env port) start listed cursors in
    (picked, after, cooling)
