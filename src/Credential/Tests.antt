-- ===== src/Credential/Tests.antt =====
-- A pool of two credentials of which one is rate-limited.
use trading_worker.Base.{
  true, ◌<◌, Option, ℕ, ◌≡◌, refl, arith, ◌==◌, false, List, [], ◌∷◌, none, some, All,
}
use trading_worker.Base.Int.{pos}
use trading_worker.Base.Text.{Text, codes}
use trading_worker.Event.{mock}
use trading_worker.Scaled.{print}
use trading_worker.Credential.{
  LimitTables, done, failing, rest_source, ws_source, mark_rate_limited,
}
use trading_worker.Credential.Source.{rest_endpoint, CollectorCredential}
use trading_worker.Credential.Accounts.{
  ApiCredentialStatus, active_status, revoked, AccountCredential, ApiCredential, AccountAnswer,
  offered, error, not_active, select_account_credential,
  select_account_credential_by_api_credential,
}
use trading_worker.Credential.Turns.{turn, turns_reach_all}
use trading_worker.Credential.Choice.{
  get_elem?, select_collector_credential, CollectorMaterial, Selected, selected, refused_with,
  exhausted, list_collector_credentials,
}
use trading_worker.Credential.Cooldown.{executor, set_cooldown, collector}
use trading_worker.Credential.Calls.{LimitCall, auth_call, ws_call, success_call, limit_calls}
use trading_worker.Credential.Excluded.{all_done}
use trading_worker.Credential.Offers.{mark_rate_limited-NotOffered}

abbrev stored : ℕ → CollectorCredential
stored id = record {
  id = id;
  brokerage = codes "KIWOOM";
  market_env = mock;
  app_key_enc = some (codes "k");
  app_secret_enc = some (codes "s");
}

abbrev as_stored : Option Text → Option Text
as_stored t = t

abbrev pool : List CollectorCredential
pool = stored 1 ∷ stored 2 ∷ []

abbrev no_limits : LimitTables
no_limits = record { policies = []; states = [] }

-- Its WebSocket succeeds and is limited, a auth_refused token is not written down, and the other succeeds.
abbrev later : List LimitCall
later =
    success_call done ws_source 1
    ∷ ws_call all_done 2000 1
    ∷ auth_call failing rest_source 3000 1
    ∷ success_call done rest_source 2
    ∷ []

abbrev limits : LimitTables
limits = limit_calls later (mark_rate_limited all_done 1000 1 (some (pos 90000)) no_limits)

abbrev ids : Selected (List CollectorMaterial) → List ℕ
ids (selected []) = []
ids (selected (m ∷ materials)) = m.credential_id ∷ ids (selected materials)
ids (refused_with e) = []

abbrev materials : List CollectorMaterial
materials =
    record {
      credential_id = 2;
      brokerage = codes "KIWOOM";
      market_env = mock;
      app_key = codes "k";
      app_secret = codes "s";
      ws_max_symbols = none;
    }
    ∷ []

offers_the_other :
    (list_collector_credentials as_stored 90999 rest_endpoint limits pool []).0 ≡ selected materials
unfolding list_collector_credentials limit_calls mark_rate_limited
offers_the_other = refl

-- With the other on a cooldown in memory, nothing is left.
offers_none :
    (list_collector_credentials as_stored 90999 rest_endpoint limits pool
      (set_cooldown 90000 collector 2 5000 [])).0
    ≡ refused_with
        (exhausted 2 ((codes "COOLDOWN_PENDING", 1) ∷ (codes "IN_MEMORY_COOLDOWN", 1) ∷ []))
unfolding list_collector_credentials limit_calls mark_rate_limited set_cooldown print
offers_none = refl

offers_both_again :
    ids ((list_collector_credentials as_stored 91000 rest_endpoint limits pool []).0) ≡ 1 ∷ 2 ∷ []
unfolding list_collector_credentials limit_calls mark_rate_limited
offers_both_again = refl

mark_rate_limited-NotOffered_example : All (λ m. (m.credential_id == 1) ≡ false) materials
mark_rate_limited-NotOffered_example =
    mark_rate_limited-NotOffered as_stored 1 1000 90999 (some (pos 90000)) later no_limits pool []
      materials (tt, (tt, (tt, (refl, tt)))) (omega arith) offers_the_other

-- The third turn of a pool of two is the first one's credential again.
abbrev first : CollectorMaterial
first = record {
  credential_id = 1;
  brokerage = codes "KIWOOM";
  market_env = mock;
  app_key = codes "k";
  app_secret = codes "s";
  ws_max_symbols = none;
}

abbrev picked_id : Selected (Option CollectorMaterial) → ℕ
picked_id (selected (some m)) = m.credential_id
picked_id (selected none) = 0
picked_id (refused_with e) = 0

starts_again : picked_id (turn (codes "KIWOOM") 1 first materials 2 []) ≡ 2
unfolding turn
starts_again = refl

picks_the_first :
    picked_id (
      (select_collector_credential as_stored 91000 4
        (codes "KIWOOM")
        mock
        rest_endpoint
        limits
        pool
        []
        []).0)
    ≡ 1
unfolding select_collector_credential list_collector_credentials limit_calls mark_rate_limited print
picks_the_first = refl

turns_reach_all_example :
    (k : ℕ) × (k < 2)
    × (turn (codes "KIWOOM") 1 first materials k [] ≡ selected (get_elem? (first ∷ materials) 0))
turns_reach_all_example = turns_reach_all (codes "KIWOOM") 1 first materials [] 0 (omega arith)

-- An account with a key that was revoked, and one that works.
abbrev account_key : ℕ → ℕ → AccountCredential
account_key id api = record {
  id = id;
  is_active = true;
  api_credential_id = some api;
  brokerage = some (codes "KIWOOM");
  market_env = some mock;
  account_external_id = some (codes "123-45");
}

abbrev api_key : ℕ → ApiCredentialStatus → ApiCredential
api_key id status = record {
  id = id;
  status = status;
  app_key_enc = some (codes "k");
  app_secret_enc = some (codes "s");
}

abbrev account_keys : List AccountCredential
account_keys = account_key 1 10 ∷ account_key 2 20 ∷ []

abbrev api_keys : List ApiCredential
api_keys = api_key 10 revoked ∷ api_key 20 active_status ∷ []

abbrev given_id : AccountAnswer → ℕ
given_id (offered m) = m.credential_id
given_id (error e) = 0

-- The first eligible one decides, also where its key is not active.
revoked_first :
    (select_account_credential as_stored 5 account_keys api_keys []).0 ≡ error (not_active 10)
unfolding select_account_credential print
revoked_first = refl

next_while_cooling :
    given_id (
      (select_account_credential as_stored 5 account_keys api_keys
        (set_cooldown 0 executor 10 100 [])).0)
    ≡ 20
unfolding select_account_credential set_cooldown print
next_while_cooling = refl

asked_for :
    given_id
      ((select_account_credential_by_api_credential as_stored 5 20 account_keys api_keys []).0)
    ≡ 20
unfolding select_account_credential_by_api_credential print
asked_for = refl
