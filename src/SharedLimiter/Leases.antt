-- ===== src/SharedLimiter/Leases.antt =====
-- The leases and the tokens of shared-credential-rate-limiter.service.ts over all scripts that workers run.
use trading_worker.Base.{
  ℕ, ◌+◌, ◌*◌, ◌≤◌, ◌<◌, arith, Bool, not, List, [], ◌∷◌, length, Option, some, none, ltb,
  Bool-cases, inl, inr, filter_by,
}
use trading_worker.Base.Text.{Text, text_eq}
use trading_worker.Base.TextMap.{assign}
use trading_worker.SharedLimiter.{
  SharedOptions, SharedKeys, TokenKey, one_token, live_inflight, is_held, purge, refilled, is_full,
  take_lease, acquire_script, release_script, SharedCall, acquire_call, release_call, shared_call,
  shared_calls,
}

length-filter_by {ℓ} :
    {A : Type ℓ} (p : A → Bool) (xs : List A) → length (filter_by p xs) ≤ length xs
unfolding filter_by
length-filter_by p [] = omega arith
length-filter_by p (x ∷ xs) = elim (Bool-cases (p x)) [
  | inl e ↦ rw e (omega (arith, length-filter_by p xs))
  | inr e ↦ rw e (omega (arith, length-filter_by p xs))
]

length-assign {ℓ} :
    {V : Type ℓ} (key : Text) (v : V) (m : List (Text × V)) → length (assign key v m) ≤ length m + 1
unfolding assign
length-assign key v [] = omega arith
length-assign key v ((j, w) ∷ m) = elim (Bool-cases (text_eq j key)) [
  | inl e ↦ rw e (omega arith)
  | inr e ↦ rw e (omega (arith, length-assign key v m))
]

abbrev TokensWithin : SharedOptions → Option TokenKey → Type 0
TokensWithin o none = Unit
TokensWithin o (some t) = t.tokens ≤ o.capacity * one_token

-- No more leases than the cap, and no more tokens than the bucket holds.
pub record IsWithin (o : SharedOptions) (k : SharedKeys) : Type 0 where
  pub leases : length k.inflight ≤ o.max_concurrent
  pub tokens : TokensWithin o k.token_key

length-live_inflight : (at : ℕ) (k : SharedKeys) → length (live_inflight at k) ≤ length k.inflight
length-live_inflight at k = elim (Bool-cases (ltb at k.inflight_expires_at)) [
  | inl e ↦ rw e (omega arith)
  | inr e ↦ rw e (omega arith)
]

module _ (o : SharedOptions) (capped : 0 < o.max_concurrent) where
  purge-IsWithin : (at now : ℕ) (k : SharedKeys) → IsWithin o k → IsWithin o (purge at now k)
  unfolding purge
  purge-IsWithin at now k w =
      let leases = w.leases in
      record {
        leases =
            omega (
              arith,
              length-filter_by (is_held now) (live_inflight at k),
              length-live_inflight at k,
            );
        tokens = w.tokens;
      }

  refilled-bound : (now : ℕ) (t : Option TokenKey) → refilled o now t ≤ o.capacity * one_token
  unfolding refilled
  refilled-bound now none = omega arith
  refilled-bound now (some t) = omega arith

  take_lease-IsWithin :
      (at now : ℕ) (owner_id : Text) (tokens : ℕ) (k : SharedKeys)
      → IsWithin o k
      → length k.inflight < o.max_concurrent
      → tokens ≤ o.capacity * one_token
      → IsWithin o ((take_lease o at now owner_id tokens k).1)
  unfolding take_lease
  take_lease-IsWithin at now owner_id tokens k w room h = elim (Bool-cases (ltb tokens one_token)) [
    | inl e ↦ rw e (record { leases = w.leases; tokens = h })
    | inr e ↦ rw e (record {
      leases = omega (arith, length-assign owner_id (now + o.ttl_ms) k.inflight);
      tokens = omega arith;
    })
  ]

  acquire_script-IsWithin :
      (at now : ℕ) (owner_id : Text) (k : SharedKeys)
      → IsWithin o k
      → IsWithin o ((acquire_script o at now owner_id k).1)
  unfolding acquire_script
  acquire_script-IsWithin at now owner_id k w =
      let kept = purge-IsWithin at now k w in
      elim (Bool-cases (is_full o (length (purge at now k).inflight))) [
        | inl e ↦ rw e kept
        | inr e ↦ rw e (
            take_lease-IsWithin at now owner_id _ (purge at now k) kept (ground arith)
              (refilled-bound now _))
      ]

  release_script-IsWithin :
      (at : ℕ) (owner_id : Text) (k : SharedKeys)
      → IsWithin o k
      → IsWithin o (release_script o.ttl_ms at owner_id k)
  unfolding release_script
  release_script-IsWithin at owner_id k w =
      let leases = w.leases in
      record {
        leases = omega (
          arith,
          length-filter_by (λ (lease : Text × ℕ). not (text_eq lease.0 owner_id))
              (live_inflight at k),
          length-live_inflight at k,
        );
        tokens = w.tokens;
      }

  -- Whatever scripts the workers run, in whatever order and by whatever clocks: leases never exceed a positive
  -- cap, and tokens never exceed the capacity, if this holds at the start, as for keys that are not there.
  pub shared_calls-IsWithin :
      (calls : List SharedCall) (k : SharedKeys)
      → IsWithin o k
      → IsWithin o (shared_calls o calls k)
  unfolding shared_calls shared_call
  shared_calls-IsWithin [] k w = w
  shared_calls-IsWithin (acquire_call at now owner_id ∷ calls) k w =
      shared_calls-IsWithin calls _ (acquire_script-IsWithin at now owner_id k w)
  shared_calls-IsWithin (release_call at owner_id ∷ calls) k w =
      shared_calls-IsWithin calls _ (release_script-IsWithin at owner_id k w)
