-- ===== src/Credential/Offers.antt =====
-- What the choice of a collector credential offers: only credentials that nothing excludes.
use trading_worker.Base.{
  ℕ, ◌+◌, ◌<◌, max, ◌≡◌, subst, arith, Bool, true, false, List, [], ◌∷◌, Option, ◌==◌, ◌||◌, All,
  Bool-cases, inl, inr,
}
use trading_worker.Base.Int.{ℤ}
use trading_worker.Base.Text.{Text}
use trading_worker.Sql.{is_null}
use trading_worker.Sql.Rows.{All-filter_by}
use trading_worker.Credential.{
  LimitTables, or_zero, normalize_non_negative_int, cooldown_floor_ms, policy_of, mark_rate_limited,
}
use trading_worker.Credential.Source.{
  Endpoint, rest_endpoint, collector_exclusion_reason, CollectorCredential, Evaluated, evaluate_all,
  eligible_of,
}
use trading_worker.Credential.Cooldown.{Cooldowns, collector, is_on_cooldown}
use trading_worker.Credential.Choice.{
  CollectorMaterial, Selected, selected, refused_with, is_missing, material_with, prepend,
  materials_of, offer, list_collector_credentials,
}
use trading_worker.Credential.Calls.{LimitCall, limit_calls, IsOther}
use trading_worker.Credential.Excluded.{all_done, mark_rate_limited-Excluded}

module _ (now : ℕ) (port : Endpoint) (limits : LimitTables) where
  -- Nothing in the tables excludes the credential.
  abbrev IsUsable : ℕ → Type 0
  IsUsable id = is_null (collector_exclusion_reason false now port limits id) ≡ true

  abbrev Reads : Evaluated → Type 0
  Reads e = is_null e.exclusion_reason ≡ true → IsUsable e.credential.id

  abbrev Passes : Evaluated → Type 0
  Passes e = IsUsable e.credential.id

  reason-Usable :
      (is_cooling : Bool) (id : ℕ)
      → is_null (collector_exclusion_reason is_cooling now port limits id) ≡ true
      → IsUsable id
  unfolding collector_exclusion_reason
  reason-Usable true id h = absurd (cc h)
  reason-Usable false id h = h

  evaluate_all-Reads :
      (credentials : List CollectorCredential) (cooldowns : Cooldowns)
      → All Reads (evaluate_all now port limits credentials cooldowns).0
  unfolding evaluate_all
  evaluate_all-Reads [] cooldowns = tt
  evaluate_all-Reads (c ∷ credentials) cooldowns = (
    reason-Usable (is_on_cooldown now collector c.id cooldowns).0 c.id,
    evaluate_all-Reads credentials (is_on_cooldown now collector c.id cooldowns).1,
  )

  eligible_of-Passes :
      (evaluated : List Evaluated) → All Reads evaluated → All Passes (eligible_of evaluated)
  unfolding eligible_of
  eligible_of-Passes evaluated h =
      All-filter_by Passes Passes _ (λ _ _ u. u) _
        (All-filter_by Reads Passes (λ e. is_null e.exclusion_reason) (λ e k r. r k) evaluated h)

  -- A result that is selected holds materials of usable credentials.
  abbrev Offers : Selected (List CollectorMaterial) → Type 0
  Offers (selected materials) = All (λ m. IsUsable m.credential_id) materials
  Offers (refused_with e) = Unit

  module _ (decrypt : Option Text → Option Text) where
    materials_of-Offers :
        (items : List Evaluated) → All Passes items → Offers (materials_of decrypt limits items)
    unfolding materials_of
    materials_of-Offers [] h = tt
    materials_of-Offers (e ∷ items) h =
        elim (Bool-cases (
          is_missing (decrypt e.credential.app_key_enc)
          || is_missing (decrypt e.credential.app_secret_enc))) [
            | inl k ↦ rw k tt
            | inr k ↦ rw k (
                prepended
                  (material_with decrypt limits e.credential (decrypt e.credential.app_key_enc)
                    (decrypt e.credential.app_secret_enc))
                  (materials_of decrypt limits items) h.0 (materials_of-Offers items h.1))
          ]
      where
        prepended :
            (m : CollectorMaterial) (rest : Selected (List CollectorMaterial))
            → IsUsable m.credential_id
            → Offers rest
            → Offers (prepend decrypt m rest)
        prepended m (selected materials) u o = (u, o)
        prepended m (refused_with e) u o = tt

    offer-Offers :
        (evaluated items : List Evaluated)
        → All Passes items
        → Offers (offer decrypt limits evaluated items)
    offer-Offers evaluated [] h = tt
    offer-Offers evaluated (e ∷ items) h = materials_of-Offers (e ∷ items) h

    pub list-Offers :
        (all : List CollectorCredential) (cooldowns : Cooldowns)
        → Offers (list_collector_credentials decrypt now port limits all cooldowns).0
    unfolding list_collector_credentials
    list-Offers all cooldowns =
        offer-Offers (evaluate_all now port limits all cooldowns).0 _
          (eligible_of-Passes _ (evaluate_all-Reads all cooldowns))

-- After the report of a rate limit whose statements are done, the choice for REST offers no material of the
-- credential before its cooldown ends: the time asked for by the broker, or the floor of its policy where
-- that is more. That holds after any further writes of the repository, failing or not, as long as no success
-- of the credential for REST or for a token is reported.
pub mark_rate_limited-NotOffered :
    (decrypt : Option Text → Option Text) (id reported now : ℕ) (retry_after_ms : Option ℤ)
    (calls : List LimitCall) (d : LimitTables) (all : List CollectorCredential)
    (cooldowns : Cooldowns) (materials : List CollectorMaterial)
    → All (IsOther id) calls
    → now
      < reported
        + max
            (or_zero (normalize_non_negative_int retry_after_ms))
            (cooldown_floor_ms (policy_of id d.policies))
    → (list_collector_credentials decrypt now rest_endpoint
        (limit_calls calls (mark_rate_limited all_done reported id retry_after_ms d))
        all
        cooldowns).0
      ≡ selected materials
    → All (λ m. (m.credential_id == id) ≡ false) materials
mark_rate_limited-NotOffered decrypt id reported now retry calls d all cooldowns materials o lt e =
    others id limits materials (mark_rate_limited-Excluded id reported now retry calls false d o lt)
      (subst (Offers now rest_endpoint limits) e
        (list-Offers now rest_endpoint limits decrypt all cooldowns))
  where
    limits : LimitTables
    limits = limit_calls calls (mark_rate_limited all_done reported id retry d)

    others :
        (id : ℕ) (limits : LimitTables) (materials : List CollectorMaterial)
        → is_null (collector_exclusion_reason false now rest_endpoint limits id) ≡ false
        → All (λ m. IsUsable now rest_endpoint limits m.credential_id) materials
        → All (λ m. (m.credential_id == id) ≡ false) materials
    others id limits [] h u = tt
    others id limits (m ∷ materials) h u = elim (Bool-cases (m.credential_id == id)) [
      | inl k ↦
          let same : m.credential_id ≡ id = ground arith in
          absurd (
            cc (
              h,
              subst
                  (λ i.
                    is_null (collector_exclusion_reason false now rest_endpoint limits i) ≡ true)
                  same u.0,
            ))
      | inr k ↦ (k, others id limits materials h u.1)
    ]
