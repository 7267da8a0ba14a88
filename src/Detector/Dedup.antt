-- ===== src/Detector/Dedup.antt =====
-- The alerts that AlertService raises, against a plain account of them: a log of what was raised.
use trading_worker.Base.{
  ℕ, ◌+◌, ◌≤◌, ◌≡◌, refl, ◌∙◌, ap, sym, subst, arith, Bool, true, false, not, ◌&&◌, List, [], ◌∷◌,
  ◌++◌, Option, some, none, ltb, if◌then◌else◌, length, exists, All, map, Bool-cases, inl, inr,
}
use trading_worker.Base.Text.{Text, text_eq, text_eq_iff}
use trading_worker.Base.TextMap.{lookup, lookup-assign}
use trading_worker.Detector.{
  dedup_window_ms, AlertService, AlertCall, alert_key, payload_of, notice_of, is_quiet_since, raise,
  raise_all, send_alert,
}

abbrev same_key : AlertCall → AlertCall → Bool
same_key a b = text_eq (alert_key a.candidate) (alert_key b.candidate)

-- An alert of the log repeats when it has the key and is less than five minutes old.
abbrev is_recent : AlertCall → AlertCall → Bool
is_recent call e = same_key e call && ltb call.reads.now (e.reads.now + dedup_window_ms)

abbrev pub is_repeat : List AlertCall → AlertCall → Bool
is_repeat log call = exists (is_recent call) log

-- The calls that raise, behind those of a log.
unfoldable pub deduped : List AlertCall → List AlertCall → List AlertCall
deduped log [] = []
deduped log (call ∷ calls) =
    let rest = deduped (if is_repeat log call then log else call ∷ log) calls in
    if is_repeat log call then rest else call ∷ rest

-- The instant of the last alert of a key.
last_of : Text → List AlertCall → Option ℕ
last_of k [] = none
last_of k (e ∷ log) = if text_eq (alert_key e.candidate) k then some e.reads.now else last_of k log

abbrev IsAfter : AlertCall → AlertCall → Type 0
IsAfter e b = is_recent e b ≡ false

abbrev Spaced : List AlertCall → Type 0
Spaced [] = Unit
Spaced (e ∷ log) = All (IsAfter e) log × Spaced log

All-IsAfter : (e : AlertCall) (log : List AlertCall) → is_repeat log e ≡ false → All (IsAfter e) log
All-IsAfter e [] h = tt
All-IsAfter e (b ∷ log) h = elim (Bool-cases (is_recent e b)) [
  | inl k ↦ absurd (cc (h, k))
  | inr k ↦ (k, All-IsAfter e log (cc (h, k)))
]

-- Of three keys, one that is two others' makes those the same.
text_eq-join : (b c e : Text) → text_eq e c ≡ true → text_eq b c ≡ true → text_eq b e ≡ true
text_eq-join b c e h k = (text_eq_iff b e).1 ((text_eq_iff b c).0 k ∙ sym ((text_eq_iff e c).0 h))

ltb-later : (x y z : ℕ) → x ≤ y → ltb x z ≡ false → ltb y z ≡ false
ltb-later x y z le h = ground arith

-- What is old for an alert is old for a later one of its key.
still_old :
    (e b call : AlertCall)
    → same_key e call ≡ true
    → e.reads.now ≤ call.reads.now
    → IsAfter e b
    → is_recent call b ≡ false
still_old e b call h le after = elim (Bool-cases (same_key b call)) [
  | inl k ↦
      let joined =
        text_eq-join (alert_key b.candidate) (alert_key call.candidate) (alert_key e.candidate) h
          k in
      let old : ltb e.reads.now (b.reads.now + dedup_window_ms) ≡ false =
        subst (λ t. t && ltb e.reads.now (b.reads.now + dedup_window_ms) ≡ false) joined after in
      rw k (ltb-later e.reads.now call.reads.now (b.reads.now + dedup_window_ms) le old)
  | inr k ↦ rw k
]

no_repeat :
    (e call : AlertCall)
    → same_key e call ≡ true
    → e.reads.now ≤ call.reads.now
    → (log : List AlertCall) → All (IsAfter e) log
    → is_repeat log call ≡ false
no_repeat e call h le [] after = refl
no_repeat e call h le (b ∷ log) after =
    rw (still_old e b call h le after.0) (no_repeat e call h le log after.1)

quiet_at : (last now : ℕ) → ltb now (last + dedup_window_ms) ≡ not (is_quiet_since (some last) now)
quiet_at last now = ground arith

repeat_lem :
    (log : List AlertCall) (call : AlertCall)
    → Spaced log
    → dedup_window_ms ≤ call.reads.now
    → is_repeat log call
      ≡ not (is_quiet_since (last_of (alert_key call.candidate) log) call.reads.now)
unfolding last_of
repeat_lem [] call sp late = ground arith
repeat_lem (e ∷ log) call sp late = elim (Bool-cases (same_key e call)) [
  | inl h ↦ elim (Bool-cases (ltb call.reads.now (e.reads.now + dedup_window_ms))) [
    | inl k ↦ rw (h, sym (quiet_at e.reads.now call.reads.now), k)
    | inr k ↦
        rw (h, sym (quiet_at e.reads.now call.reads.now), k)
          (no_repeat e call h (ground arith) log sp.0)
  ]
  | inr h ↦ rw h (repeat_lem log call sp.1 late)
]

-- What has been done when, of some calls, the ones that are kept have raised.
pub record HasRaised (worker : Text) (calls kept : List AlertCall) (s after : AlertService)
    : Type 0 where
  pub produced : after.produced ≡ s.produced ++ map (payload_of worker) kept
  pub notified : after.notified ≡ s.notified ++ map (λ c. notice_of (payload_of worker c)) kept
  pub raised : after.raised ≡ s.raised + length kept
  pub suppressed : after.suppressed_dedup + length kept ≡ s.suppressed_dedup + length calls

append_one : {A : Type 0} (xs : List A) (x : A) (ys : List A) → (xs ++ x ∷ []) ++ ys ≡ xs ++ x ∷ ys
append_one [] x ys = refl
append_one (y ∷ xs) x ys = ap (λ t. y ∷ t) (append_one xs x ys)

append_nil : {A : Type 0} (xs : List A) → xs ++ [] ≡ xs
append_nil [] = refl
append_nil (x ∷ xs) = ap (λ t. x ∷ t) (append_nil xs)

module _ (worker : Text) where
  abbrev Tracks : List AlertCall → AlertService → Type 0
  Tracks log s = (k : Text) → lookup k s.open_window ≡ last_of k log

  -- The guard of `raise` is the test of the log.
  quiet_of_log :
      (log : List AlertCall) (call : AlertCall) (s : AlertService) (b : Bool)
      → Tracks log s
      → Spaced log
      → dedup_window_ms ≤ call.reads.now
      → is_repeat log call ≡ b
      → is_quiet_since (lookup (alert_key call.candidate) s.open_window) call.reads.now ≡ not b
  quiet_of_log log call s b tr sp late h = rw (tr (alert_key call.candidate)) (
      not_flip (is_quiet_since (last_of (alert_key call.candidate) log) call.reads.now) b
        (sym (repeat_lem log call sp late) ∙ h))
    where
      not_flip : (a b : Bool) → not a ≡ b → a ≡ not b
      not_flip a b h = ground arith

  HasRaised-skip :
      (call : AlertCall) (calls kept : List AlertCall) (s after : AlertService)
      → HasRaised worker calls kept (record s { suppressed_dedup = s.suppressed_dedup + 1 }) after
      → HasRaised worker (call ∷ calls) kept s after
  HasRaised-skip call calls kept s after h = record {
    produced = h.produced;
    notified = h.notified;
    raised = h.raised;
    suppressed = omega (arith, h.suppressed);
  }

  HasRaised-cons :
      (call : AlertCall) (calls kept : List AlertCall) (s after : AlertService)
      → HasRaised worker calls kept (send_alert worker call s) after
      → HasRaised worker (call ∷ calls) (call ∷ kept) s after
  unfolding send_alert
  HasRaised-cons call calls kept s after h = record {
    produced = h.produced ∙ append_one s.produced (payload_of worker call) _;
    notified = h.notified ∙ append_one s.notified (notice_of (payload_of worker call)) _;
    raised = omega (arith, h.raised);
    suppressed = omega (arith, h.suppressed);
  }

  Tracks-send_alert :
      (log : List AlertCall) (call : AlertCall) (s : AlertService)
      → Tracks log s
      → Tracks (call ∷ log) (send_alert worker call s)
  unfolding send_alert last_of
  Tracks-send_alert log call s tr k =
      rw (lookup-assign (alert_key call.candidate) k call.reads.now s.open_window, tr k) refl

  raise_all-HasRaised :
      (log calls : List AlertCall) (s : AlertService)
      → Tracks log s
      → Spaced log
      → All (λ c. dedup_window_ms ≤ c.reads.now) calls
      → HasRaised worker calls (deduped log calls) s (raise_all worker calls s)
  unfolding deduped raise_all raise
  raise_all-HasRaised log [] s tr sp late = record {
    produced = sym (append_nil s.produced);
    notified = sym (append_nil s.notified);
    raised = omega arith;
    suppressed = omega arith;
  }
  raise_all-HasRaised log (call ∷ calls) s tr sp late = elim (Bool-cases (is_repeat log call)) [
    | inl e ↦
        rw (e, quiet_of_log log call s true tr sp late.0 e)
          (HasRaised-skip call calls (deduped log calls) s _ (
            raise_all-HasRaised log calls (record s { suppressed_dedup = s.suppressed_dedup + 1 })
              tr sp late.1))
    | inr e ↦
        rw (e, quiet_of_log log call s false tr sp late.0 e)
          (HasRaised-cons call calls (deduped (call ∷ log) calls) s _ (
            raise_all-HasRaised (call ∷ log) calls (send_alert worker call s)
              (Tracks-send_alert log call s tr) (All-IsAfter call log e, sp) late.1))
  ]

-- A service that has raised nothing raises, of any calls of `raise`, the ones that repeat no alert raised
-- before: none of the same key that is less than five minutes old. Each of them, and nothing else, goes to
-- the stream and to the vendor, in order, and is counted, whether the database is up or not; the others are
-- counted as suppressed. The clock shows more than the first five minutes of 1970; it may run backwards.
pub raise_all-Deduped :
    (worker : Text) (calls : List AlertCall) (s : AlertService)
    → s.open_window ≡ []
    → All (λ c. dedup_window_ms ≤ c.reads.now) calls
    → HasRaised worker calls (deduped [] calls) s (raise_all worker calls s)
unfolding lookup last_of
raise_all-Deduped worker calls s e late =
    raise_all-HasRaised worker [] calls s (λ k. ap (lookup k) e) tt late
