-- ===== src/Archive/Manifests/Queries.antt =====
-- The questions that chart-archive-manifest.repository.ts answers from its table.
use trading_worker.Base.{
  ℕ, max, Bool, true, false, not, ◌&&◌, ◌||◌, List, [], ◌∷◌, Option, leb, ◌==◌, take, exists,
  sort_by, filter_by,
}
use trading_worker.Base.Text.{Text, text_eq}
use trading_worker.Base.TextSet.{text_leb}
use trading_worker.Event.{MarketEnv}
use trading_worker.Sql.{is_null}
use trading_worker.Archive.Tasks.{one_minute, one_hour, one_day, env_eq, timeframe_eq}
use trading_worker.Archive.Manifests.{
  ready, stale, mismatch, ManifestKey, Coverage, Manifest, ManifestTables, has_status,
  has_manifest_key,
}

abbrev is_covered : Coverage → Bool
is_covered c = leb c.expected c.actual

unfoldable pub is_ready_partition : ManifestKey → ManifestTables → Bool
is_ready_partition key d =
    exists
      (λ m. has_manifest_key key m && has_status ready m && is_covered m.content.coverage_ratio)
      d.manifests

abbrev is_present : Option Text → Bool
is_present o = not (is_null o)

abbrev is_checked : Manifest → Bool
is_checked m =
    has_status ready m
    && is_present m.content.s3_key
    && is_present m.content.object_checksum
    && is_present m.content.content_checksum

-- `Math.max(1, Math.floor(limit))`
unfoldable pub find_ready_manifests_for_audit : ℕ → ManifestTables → List Manifest
unfolding filter_by sort_by
find_ready_manifests_for_audit limit d = take (max 1 limit) (
    sort_by (λ a b. leb b.content.archived_at a.content.archived_at)
      (filter_by is_checked d.manifests))

abbrev is_problem : Manifest → Bool
is_problem m =
    (has_status stale m || has_status mismatch m)
    && (timeframe_eq m.key.timeframe one_hour || timeframe_eq m.key.timeframe one_day)

unfoldable pub find_problem_derived_manifests : ℕ → ManifestTables → List Manifest
unfolding filter_by sort_by
find_problem_derived_manifests limit d = take (max 1 limit) (
    sort_by (λ a b. leb a.content.last_modified_at b.content.last_modified_at)
      (filter_by is_problem d.manifests))

-- `LIKE 'prefix%'`, for a prefix with no wildcard.
abbrev starts_with : Text → Text → Bool
starts_with [] t = true
starts_with (c ∷ prefix) [] = false
starts_with (c ∷ prefix) (d ∷ t) = (c == d) && starts_with prefix t

unfoldable pub find_ready_one_minute_manifests :
    Text → MarketEnv → Text → Text → ManifestTables → List Manifest
unfolding filter_by sort_by
find_ready_one_minute_manifests provider env symbol prefix d =
    sort_by (λ a b. text_leb a.key.partition_key b.key.partition_key)
      (filter_by
        (λ m.
          text_eq m.key.provider provider
          && env_eq m.key.market_env env
          && text_eq m.key.symbol symbol
          && timeframe_eq m.key.timeframe one_minute
          && has_status ready m
          && is_present m.content.s3_key
          && starts_with prefix m.key.partition_key)
        d.manifests)
