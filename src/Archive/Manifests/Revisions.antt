-- ===== src/Archive/Manifests/Revisions.antt =====
-- What a reader of the archive may rely on in a manifest's revision, along every sequence of the writes of
-- chart-archive-manifest.repository.ts.
use trading_worker.Base.{
  ℕ, ◌+◌, ◌≤◌, ◌≡◌, ◌∙◌, refl, ap, arith, Bool, List, [], ◌∷◌, Option, some, none, Bool-cases,
  Option-cases, inl, inr, exists, if◌then◌else◌,
}
use trading_worker.Base.Text.{Text}
use trading_worker.Event.{MarketEnv}
use trading_worker.Sql.{find_first, update_where}
use trading_worker.Sql.Rows.{find_first_after_update, find_first-append}
use trading_worker.Archive.Manifests.{
  ManifestStatus, stale, ManifestKey, ManifestContent, Manifest, ManifestTables, ManualFix,
  has_manifest_key, has_manifest_id, manifest_key_eq, conflict_updated, new_manifest,
  upsert_manifest, restated, is_derived_from, mark_derived_stale, is_of_run, mark_run_stale,
  mismatched, mark_mismatch, fixed, manual_fix_manifest,
}

-- The writes, with the database's clock.
pub data ManifestCall : Type 0 where
  upsert_call : ManifestKey → ManifestContent → ManifestCall
  derived_call : ℕ → Text → MarketEnv → Text → Text → ManifestCall
  stale_call : ℕ → Text → Text → Option Text → ManifestCall
  mismatch_call : ℕ → ℕ → Text → Text → ManifestCall
  fix_call : ℕ → ℕ → ManualFix → ManifestCall

abbrev unless_refused : ManifestTables → Option ManifestTables → ManifestTables
unless_refused d none = d
unless_refused d (some after) = after

unfoldable pub manifest_call : ManifestCall → ManifestTables → ManifestTables
unfolding upsert_manifest mark_derived_stale mark_run_stale mark_mismatch manual_fix_manifest
manifest_call (upsert_call key input) d = (upsert_manifest key input d).1
manifest_call (derived_call now provider env symbol trade_date) d =
    mark_derived_stale now provider env symbol trade_date d
manifest_call (stale_call now run_id actor reason) d = (mark_run_stale now run_id actor reason d).1
manifest_call (mismatch_call now id actor reason) d = mark_mismatch now id actor reason d
manifest_call (fix_call now id fix) d = unless_refused d (manual_fix_manifest now id fix d)

unfoldable pub manifest_calls : List ManifestCall → ManifestTables → ManifestTables
unfolding manifest_call
manifest_calls [] d = d
manifest_calls (call ∷ calls) d = manifest_calls calls (manifest_call call d)

-- A later version of a manifest.
pub record Continues (m later : Manifest) : Type 0 where
  pub same_id : later.id ≡ m.id
  pub same_key : later.key ≡ m.key
  pub revised : m.data_revision ≤ later.data_revision
  pub expects : m.content.expected_row_count ≤ later.content.expected_row_count
  pub unchanged : later.data_revision ≡ m.data_revision → later ≡ m

Continues-refl : (m : Manifest) → Continues m m
Continues-refl m = record {
  same_id = refl;
  same_key = refl;
  revised = omega arith;
  expects = omega arith;
  unchanged = λ _. refl;
}

Continues-trans : (a b c : Manifest) → Continues a b → Continues b c → Continues a c
Continues-trans a b c h k = record {
  same_id = k.same_id ∙ h.same_id;
  same_key = k.same_key ∙ h.same_key;
  revised = omega (arith, h.revised, k.revised);
  expects = omega (arith, h.expects, k.expects);
  unchanged = λ e.
      k.unchanged (omega (arith, h.revised, k.revised, e))
      ∙ h.unchanged (omega (arith, h.revised, k.revised, e));
}

-- A change counts the revision up and keeps the rows expected.
pub record IsRevision (f : Manifest → Manifest) : Type 0 where
  pub keeps_id : (m : Manifest) → (f m).id ≡ m.id
  pub keeps_key : (m : Manifest) → (f m).key ≡ m.key
  pub counts : (m : Manifest) → (f m).data_revision ≡ m.data_revision + 1
  pub expects : (m : Manifest) → m.content.expected_row_count ≤ (f m).content.expected_row_count

Continues-of_IsRevision :
    (f : Manifest → Manifest) → IsRevision f → (m : Manifest) → Continues m (f m)
Continues-of_IsRevision f r m = record {
  same_id = r.keeps_id m;
  same_key = r.keeps_key m;
  revised = omega (arith, r.counts m);
  expects = r.expects m;
  unchanged = λ e. absurd (omega (arith, r.counts m, e));
}

conflict_updated-IsRevision : (input : ManifestContent) → IsRevision (conflict_updated input)
conflict_updated-IsRevision input = record {
  keeps_id = λ m. refl;
  keeps_key = λ m. refl;
  counts = λ m. refl;
  expects = λ m. ground arith;
}

restated-IsRevision : (now : ℕ) (status : ManifestStatus) → IsRevision (restated now status)
restated-IsRevision now status = record {
  keeps_id = λ m. refl;
  keeps_key = λ m. refl;
  counts = λ m. refl;
  expects = λ m. omega arith;
}

mismatched-IsRevision : (now : ℕ) (reason : Text) → IsRevision (mismatched now reason)
mismatched-IsRevision now reason = record {
  keeps_id = λ m. refl;
  keeps_key = λ m. refl;
  counts = λ m. refl;
  expects = λ m. omega arith;
}

fixed-IsRevision : (now : ℕ) (fix : ManualFix) → IsRevision (fixed now fix)
fixed-IsRevision now fix = record {
  keeps_id = λ m. refl;
  keeps_key = λ m. refl;
  counts = λ m. refl;
  expects = λ m. omega arith;
}

module _ (key : ManifestKey) where
  -- The manifest of the key, in the tables.
  abbrev pub Holds : Manifest → List Manifest → Type 0
  Holds m rows = find_first (has_manifest_key key) rows ≡ some m

  abbrev pub GoesOn : Manifest → List Manifest → Type 0
  GoesOn m rows = (later : Manifest) × Holds later rows × Continues m later

  updated :
      (p : Manifest → Bool) (f : Manifest → Manifest)
      → IsRevision f
      → (rows : List Manifest) (m : Manifest) → Holds m rows
      → GoesOn m (update_where p f rows)
  updated p f r rows m h =
      let found =
        find_first_after_update (has_manifest_key key) p f
          (λ x. ap (λ k. manifest_key_eq k key) (r.keeps_key x)) rows m h in
      elim (Bool-cases (p m)) [
        | inl e ↦
            (f m, found ∙ ap (λ b. some (if b then f m else m)) e, Continues-of_IsRevision f r m)
        | inr e ↦ (m, found ∙ ap (λ b. some (if b then f m else m)) e, Continues-refl m)
      ]

  upsert_manifest-GoesOn :
      (new : ManifestKey) (input : ManifestContent) (d : ManifestTables) (m : Manifest)
      → Holds m d.manifests
      → GoesOn m (upsert_manifest new input d).1.manifests
  unfolding upsert_manifest
  upsert_manifest-GoesOn new input d m h =
      elim (Bool-cases (exists (has_manifest_key new) d.manifests)) [
        | inl e ↦ rw e (
            updated (has_manifest_key new) (conflict_updated input)
              (conflict_updated-IsRevision input) d.manifests m h)
        | inr e ↦ rw e (
          m,
          find_first-append (has_manifest_key key) d.manifests (new_manifest d.next_id new input) m
              h,
          Continues-refl m,
        )
      ]

  manual_fix-GoesOn :
      (now id : ℕ) (fix : ManualFix) (d : ManifestTables) (m : Manifest)
      → Holds m d.manifests
      → GoesOn m (unless_refused d (manual_fix_manifest now id fix d)).manifests
  unfolding manual_fix_manifest
  manual_fix-GoesOn now id fix d m h =
      elim (Option-cases (find_first (has_manifest_id id) d.manifests)) [
        | inl e ↦ rw e (m, h, Continues-refl m)
        | inr (found, e) ↦ rw e (
            updated (has_manifest_id id) (fixed now fix) (fixed-IsRevision now fix) d.manifests m h)
      ]

  manifest_call-GoesOn :
      (call : ManifestCall) (d : ManifestTables) (m : Manifest)
      → Holds m d.manifests
      → GoesOn m (manifest_call call d).manifests
  unfolding manifest_call mark_derived_stale mark_run_stale mark_mismatch
  manifest_call-GoesOn (upsert_call new input) d m h = upsert_manifest-GoesOn new input d m h
  manifest_call-GoesOn (derived_call now provider env symbol trade_date) d m h =
      updated (is_derived_from provider env symbol trade_date) (restated now stale)
        (restated-IsRevision now stale) d.manifests m h
  manifest_call-GoesOn (stale_call now run_id actor reason) d m h =
      updated (is_of_run run_id) (restated now stale) (restated-IsRevision now stale) d.manifests m
        h
  manifest_call-GoesOn (mismatch_call now id actor reason) d m h =
      updated (has_manifest_id id) (mismatched now reason) (mismatched-IsRevision now reason)
        d.manifests m h
  manifest_call-GoesOn (fix_call now id fix) d m h = manual_fix-GoesOn now id fix d m h

  -- A manifest that a reader has seen is there after every sequence of writes, under its id and key. Its
  -- revision and the rows that it expects are never less, and where the revision is the one that the reader
  -- saw, the manifest is the one that the reader saw.
  pub manifest_calls-GoesOn :
      (calls : List ManifestCall) (d : ManifestTables) (m : Manifest)
      → Holds m d.manifests
      → GoesOn m (manifest_calls calls d).manifests
  unfolding manifest_calls
  manifest_calls-GoesOn [] d m h = (m, h, Continues-refl m)
  manifest_calls-GoesOn (call ∷ calls) d m h =
      let (next, k, first) = manifest_call-GoesOn call d m h in
      let (last, j, rest) = manifest_calls-GoesOn calls (manifest_call call d) next k in
      (last, j, Continues-trans m next last first rest)
