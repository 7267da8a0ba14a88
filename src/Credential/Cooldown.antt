-- ===== src/Credential/Cooldown.antt =====
-- external/brokerage/credential/credential-cooldown.service.ts: the cooldowns of a process.
use trading_worker.Base.{
  ℕ, ◌+◌, Bool, true, false, not, List, ◌∷◌, ◌++◌, Option, some, none, ltb, if◌then◌else◌,
  filter_by,
}
use trading_worker.Base.Text.{Text, text_eq, codes}
use trading_worker.Base.TextMap.{lookup, assign}
use trading_worker.Scaled.{print}

pub data CredentialKind : Type 0 where
  collector executor : CredentialKind

abbrev kind_text : CredentialKind → Text
kind_text collector = codes "collector"
kind_text executor = codes "executor"

-- `${kind}:${credentialId}`
abbrev pub cache_key : CredentialKind → ℕ → Text
cache_key kind id = kind_text kind ++ b':' ∷ print id

-- The map of `CredentialCooldownService`.
abbrev pub Cooldowns : Type 0
Cooldowns = List (Text × ℕ)

abbrev delete : Text → Cooldowns → Cooldowns
delete key cooldowns = filter_by (λ e. not (text_eq e.0 key)) cooldowns

unfoldable pub set_cooldown : ℕ → CredentialKind → ℕ → ℕ → Cooldowns → Cooldowns
unfolding assign
set_cooldown now kind id ms cooldowns = assign (cache_key kind id) (now + ms) cooldowns

abbrev on_cooldown_until : ℕ → Text → Option ℕ → Cooldowns → Bool × Cooldowns
on_cooldown_until now key none cooldowns = (false, cooldowns)
on_cooldown_until now key (some until) cooldowns =
    if ltb now until then (true, cooldowns) else (false, delete key cooldowns)

-- Also drops the entry that has expired.
unfoldable pub is_on_cooldown : ℕ → CredentialKind → ℕ → Cooldowns → Bool × Cooldowns
unfolding lookup filter_by
is_on_cooldown now kind id cooldowns =
    on_cooldown_until now (cache_key kind id) (lookup (cache_key kind id) cooldowns) cooldowns

unfoldable pub clear : CredentialKind → ℕ → Cooldowns → Cooldowns
unfolding filter_by
clear kind id cooldowns = delete (cache_key kind id) cooldowns
