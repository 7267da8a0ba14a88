-- ===== src/Credential/Calls.antt =====
-- Sequences of writes of collector-credential-limit.repository.impl.ts.
use trading_worker.Base.{ℕ, ◌≡◌, false, List, [], ◌∷◌, Option, ◌==◌}
use trading_worker.Base.Int.{ℤ}
use trading_worker.Credential.{
  LimitTables, LimitAnswers, StatementAnswer, SourceKind, rest_source, token_source,
  mark_rate_limited, mark_ws_limited, mark_auth_failed, mark_success,
}

-- The writes of the repository.
pub data LimitCall : Type 0 where
  rate_call : LimitAnswers → ℕ → ℕ → Option ℤ → LimitCall
  ws_call : LimitAnswers → ℕ → ℕ → LimitCall
  auth_call : StatementAnswer → SourceKind → ℕ → ℕ → LimitCall
  success_call : StatementAnswer → SourceKind → ℕ → LimitCall

unfoldable pub limit_call : LimitCall → LimitTables → LimitTables
unfolding mark_rate_limited mark_ws_limited mark_auth_failed mark_success
limit_call (rate_call answers now id retry_after_ms) d =
    mark_rate_limited answers now id retry_after_ms d
limit_call (ws_call answers now id) d = mark_ws_limited answers now id d
limit_call (auth_call answer kind now id) d = mark_auth_failed answer kind now id d
limit_call (success_call answer kind id) d = mark_success answer kind id d

unfoldable pub limit_calls : List LimitCall → LimitTables → LimitTables
unfolding limit_call
limit_calls [] d = d
limit_calls (call ∷ calls) d = limit_calls calls (limit_call call d)

-- Reports no success of the credential but one of its WebSocket.
abbrev pub IsOther : ℕ → LimitCall → Type 0
IsOther id (success_call answer rest_source other) = (other == id) ≡ false
IsOther id (success_call answer token_source other) = (other == id) ≡ false
IsOther id _ = Unit
