-- ===== src/Credential/Accounts.antt =====
-- external/brokerage/credential/credential-source.service.ts: the credential of an account. `decrypt` opens a
-- stored text. An empty text of a brokerage counts as none.
use trading_worker.Base.{
  ℕ, Bool, true, false, not, ◌&&◌, ◌||◌, List, [], ◌∷◌, Option, some, none, ◌==◌, if◌then◌else◌,
}
use trading_worker.Base.Text.{Text, coalesce, is_empty}
use trading_worker.Event.{MarketEnv}
use trading_worker.Sql.{find_first, is_null, id_eq}
use trading_worker.Credential.Cooldown.{executor, Cooldowns, is_on_cooldown}

pub data ApiCredentialStatus : Type 0 where
  unknown_status active_status credential_cooldown expired invalid_status suspended revoked
        disabled :
      ApiCredentialStatus

pub record ApiCredential : Type 0 where
  pub id : ℕ
  pub status : ApiCredentialStatus
  pub app_key_enc : Option Text
  pub app_secret_enc : Option Text

-- A row of account_credentials, of the account asked for.
pub record AccountCredential : Type 0 where
  pub id : ℕ
  pub is_active : Bool
  pub api_credential_id : Option ℕ
  pub brokerage : Option Text
  pub market_env : Option MarketEnv
  pub account_external_id : Option Text

pub record AccountMaterial : Type 0 where
  pub credential_id : ℕ
  pub brokerage : Text
  pub market_env : MarketEnv
  pub account_external_id : Option Text
  pub app_key : Text
  pub app_secret : Text

pub data AccountError : Type 0 where
  account_exhausted : AccountError
  incomplete : ℕ → AccountError
  not_active : ℕ → AccountError
  no_material : ℕ → AccountError

pub data AccountAnswer : Type 0 where
  offered : AccountMaterial → AccountAnswer
  error : AccountError → AccountAnswer

abbrev is_active_api : ApiCredentialStatus → Bool
is_active_api active_status = true
is_active_api _ = false

abbrev is_blank : Option Text → Bool
is_blank none = true
is_blank (some t) = is_empty t

-- `c.isActive && c.apiCredentialId !== null && c.brokerage && c.marketEnv`
abbrev pub is_complete_credential : AccountCredential → Bool
is_complete_credential c =
    c.is_active
    && not (is_null c.api_credential_id)
    && not (is_blank c.brokerage)
    && not (is_null c.market_env)

abbrev or_zero_id : Option ℕ → ℕ
or_zero_id none = 0
or_zero_id (some id) = id

abbrev prepend_unless :
    Bool
    → AccountCredential
    → List AccountCredential × Cooldowns
    → List AccountCredential × Cooldowns
prepend_unless true c rest = rest
prepend_unless false c (eligible, cooldowns) = (c ∷ eligible, cooldowns)

-- The credentials of the pass that are not on a cooldown, which also drops cooldowns that are over.
unfoldable pub eligible_credentials :
    ℕ → List AccountCredential → Cooldowns → List AccountCredential × Cooldowns
unfolding is_on_cooldown
eligible_credentials now [] cooldowns = ([], cooldowns)
eligible_credentials now (c ∷ credentials) cooldowns =
    let (is_cooling, after) =
      is_on_cooldown now executor (or_zero_id c.api_credential_id) cooldowns in
    let rest =
      eligible_credentials now credentials
        (if is_complete_credential c then after else cooldowns) in
    prepend_unless (not (is_complete_credential c) || is_cooling) c rest

module _ (decrypt : Option Text → Option Text) where
  abbrev opened_material :
      AccountCredential
      → ApiCredential
      → Text
      → MarketEnv
      → Option Text
      → Option Text
      → AccountAnswer
  opened_material c api brokerage env key secret =
      if is_blank key || is_blank secret
      then error (no_material api.id)
      else offered (record {
        credential_id = api.id;
        brokerage = brokerage;
        market_env = env;
        account_external_id = c.account_external_id;
        app_key = coalesce key [];
        app_secret = coalesce secret [];
      })

  abbrev with_api : AccountCredential → ℕ → Text → MarketEnv → Option ApiCredential → AccountAnswer
  with_api c id brokerage env none = error (not_active id)
  with_api c id brokerage env (some api) =
      if is_active_api api.status
      then opened_material c api brokerage env (decrypt api.app_key_enc)
          (decrypt api.app_secret_enc)
      else error (not_active id)

  -- What is picked, with its columns; they are there, by the filter.
  abbrev with_picked :
      List ApiCredential
      → AccountCredential
      → Option ℕ
      → Option Text
      → Option MarketEnv
      → AccountAnswer
  with_picked apis c (some id) (some brokerage) (some env) =
      with_api c id brokerage env (find_first (λ a. a.id == id) apis)
  with_picked apis c _ _ _ = error (incomplete c.id)

  abbrev first_of_eligible : List ApiCredential → List AccountCredential → AccountAnswer
  first_of_eligible apis [] = error account_exhausted
  first_of_eligible apis (c ∷ eligible) =
      with_picked apis c c.api_credential_id c.brokerage c.market_env

  unfoldable pub select_account_credential :
      ℕ → List AccountCredential → List ApiCredential → Cooldowns → AccountAnswer × Cooldowns
  unfolding eligible_credentials find_first
  select_account_credential now all apis cooldowns =
      let (eligible, after) = eligible_credentials now all cooldowns in
      (first_of_eligible apis eligible, after)

  -- `isActive && apiCredentialId === id && brokerage && marketEnv && !isOnCooldown(…)`, in this order.
  abbrev is_asked_for : ℕ → AccountCredential → Bool
  is_asked_for id c =
      c.is_active
      && id_eq c.api_credential_id (some id)
      && not (is_blank c.brokerage)
      && not (is_null c.market_env)

  abbrev found_or_exhausted : Bool → List ApiCredential → Option AccountCredential → AccountAnswer
  found_or_exhausted is_cooling apis none = error account_exhausted
  found_or_exhausted true apis (some c) = error account_exhausted
  found_or_exhausted false apis (some c) =
      with_picked apis c c.api_credential_id c.brokerage c.market_env

  abbrev cooldowns_after : Option AccountCredential → Cooldowns → Cooldowns → Cooldowns
  cooldowns_after none before after = before
  cooldowns_after (some c) before after = after

  -- Every credential that is asked for has the same cooldown, so that the first one decides.
  unfoldable pub select_account_credential_by_api_credential :
      ℕ → ℕ → List AccountCredential → List ApiCredential → Cooldowns → AccountAnswer × Cooldowns
  unfolding find_first is_on_cooldown
  select_account_credential_by_api_credential now id all apis cooldowns =
      let found = find_first (is_asked_for id) all in
      let (is_cooling, after) = is_on_cooldown now executor id cooldowns in
      (found_or_exhausted is_cooling apis found, cooldowns_after found cooldowns after)
