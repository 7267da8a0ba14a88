-- ===== src/Archive/Manifests.antt =====
-- roles/collector/chart-archive/chart-archive-manifest.repository.ts with its table (schema/chart-archive.sql).
-- Each method is one statement with its audit and the changes that it publishes; `now` is the database's
-- clock. A coverage is the pair of the rows that are there and the rows expected, in place of their quotient.
-- Without a database the methods return at once; the metrics, which are only shown, are left out.
pub mod Queries
pub mod Revisions
mod Tests
use trading_worker.Base.{
  ℕ, zero, suc, ◌+◌, ◌-◌, ◌*◌, max, Bool, true, false, not, ◌&&◌, ◌||◌, List, [], ◌∷◌, ◌++◌, Option,
  some, none, ltb, leb, ◌==◌, if◌then◌else◌, length, map, take, exists, sort_by, filter_by,
}
use mathlib.Core.Option
use trading_worker.Base.Text.{Text, text_eq}
use trading_worker.Base.TextSet.{text_leb}
use trading_worker.Event.{MarketEnv}
use trading_worker.Sql.{find_first, update_where, is_null}
use trading_worker.Archive.Tasks.{Timeframe, one_minute, one_hour, one_day, env_eq, timeframe_eq}

pub data ManifestStatus : Type 0 where
  ready partial failed stale mismatch no_trade : ManifestStatus

-- The columns of the unique constraint.
pub record ManifestKey : Type 0 where
  pub provider : Text
  pub market_env : MarketEnv
  pub symbol : Text
  pub timeframe : Timeframe
  pub partition_key : Text

pub record Coverage : Type 0 where
  pub actual : ℕ
  pub expected : ℕ

-- The columns that a writer gives.
pub record ManifestContent : Type 0 where
  pub stock_id : Option ℕ
  pub status : ManifestStatus
  pub s3_key : Option Text
  pub sidecar_s3_key : Option Text
  pub expected_row_count : ℕ
  pub actual_row_count : ℕ
  pub coverage_ratio : Coverage
  pub object_checksum : Option Text
  pub content_checksum : Option Text
  pub source_checksum : Option Text
  pub source_run_id : Text
  pub schema_version : ℕ
  pub archived_at : ℕ
  pub last_modified_at : ℕ
  pub error_message : Option Text

pub record Manifest : Type 0 where
  pub id : ℕ
  pub key : ManifestKey
  pub data_revision : ℕ
  pub content : ManifestContent

pub data ManifestAction : Type 0 where
  mark_stale mark_mismatch_action manual_fix : ManifestAction

pub record ManifestAudit : Type 0 where
  pub action : ManifestAction
  pub run_id : Option Text
  pub manifest_id : Option ℕ
  pub actor : Text
  pub reason : Option Text
  pub new_status : ManifestStatus
  pub count : ℕ

-- What is published on the channel of a manifest.
pub record ManifestChanged : Type 0 where
  pub key : ManifestKey
  pub status : ManifestStatus
  pub data_revision : ℕ
  pub archived_at : ℕ

pub record ManifestTables : Type 0 where
  pub manifests : List Manifest
  pub next_id : ℕ
  pub audits : List ManifestAudit
  pub published : List ManifestChanged

abbrev manifest_status_code : ManifestStatus → ℕ
manifest_status_code ready = 0
manifest_status_code partial = 1
manifest_status_code failed = 2
manifest_status_code stale = 3
manifest_status_code mismatch = 4
manifest_status_code no_trade = 5

abbrev pub has_status : ManifestStatus → Manifest → Bool
has_status status m = manifest_status_code m.content.status == manifest_status_code status

unfoldable pub manifest_key_eq : ManifestKey → ManifestKey → Bool
manifest_key_eq a b =
    text_eq a.provider b.provider
    && env_eq a.market_env b.market_env
    && text_eq a.symbol b.symbol
    && timeframe_eq a.timeframe b.timeframe
    && text_eq a.partition_key b.partition_key

abbrev pub has_manifest_key : ManifestKey → Manifest → Bool
has_manifest_key key m = manifest_key_eq m.key key

-- `CASE WHEN … = 0 THEN 1.0 ELSE actual / expected END`
abbrev coverage_of : ℕ → ℕ → Coverage
coverage_of actual expected =
    if expected == 0
    then record { actual = 1; expected = 1 }
    else record { actual = actual; expected = expected }

-- The row that a conflict updates: the rows expected never become fewer, and the revision is one more.
abbrev pub conflict_updated : ManifestContent → Manifest → Manifest
conflict_updated input m =
    let expected = max m.content.expected_row_count input.expected_row_count in
    record m {
      data_revision = m.data_revision + 1;
      content = record input {
        expected_row_count = expected;
        coverage_ratio = coverage_of input.actual_row_count expected;
      };
    }

abbrev pub new_manifest : ℕ → ManifestKey → ManifestContent → Manifest
new_manifest id key input = record { id = id; key = key; data_revision = 1; content = input }

unfoldable pub upsert_manifest :
    ManifestKey → ManifestContent → ManifestTables → Option Manifest × ManifestTables
unfolding update_where find_first
upsert_manifest key input d =
    if exists (has_manifest_key key) d.manifests
    then (
      Option.map (conflict_updated input) (find_first (has_manifest_key key) d.manifests),
      record d {
        manifests = update_where (has_manifest_key key) (conflict_updated input) d.manifests;
      },
    )
    else (
      some (new_manifest d.next_id key input),
      record d {
        manifests = d.manifests ++ new_manifest d.next_id key input ∷ [];
        next_id = d.next_id + 1;
      },
    )

-- `SET status = …, data_revision = data_revision + 1, last_modified_at = NOW()`
abbrev pub restated : ℕ → ManifestStatus → Manifest → Manifest
restated now status m = record m {
  data_revision = m.data_revision + 1;
  content = record (m.content) { status = status; last_modified_at = now };
}

-- The hourly manifest of the month and the daily one of the year of a trade date.
abbrev pub is_derived_from : Text → MarketEnv → Text → Text → Manifest → Bool
is_derived_from provider env symbol trade_date m =
    text_eq m.key.provider provider
    && env_eq m.key.market_env env
    && text_eq m.key.symbol symbol
    && ((timeframe_eq m.key.timeframe one_hour && text_eq m.key.partition_key (take 7 trade_date))
        || (timeframe_eq m.key.timeframe one_day
            && text_eq m.key.partition_key (take 4 trade_date)))
    && has_status ready m

-- A failure is only logged, so the statement is one step that succeeds.
unfoldable pub mark_derived_stale :
    ℕ → Text → MarketEnv → Text → Text → ManifestTables → ManifestTables
unfolding update_where
mark_derived_stale now provider env symbol trade_date d = record d {
  manifests =
      update_where (is_derived_from provider env symbol trade_date) (restated now stale)
        d.manifests;
}

abbrev changed : Manifest → ManifestChanged
changed m = record {
  key = m.key;
  status = m.content.status;
  data_revision = m.data_revision;
  archived_at = m.content.archived_at;
}

abbrev pub is_of_run : Text → Manifest → Bool
is_of_run run_id m = text_eq m.content.source_run_id run_id && has_status ready m

unfoldable pub mark_run_stale : ℕ → Text → Text → Option Text → ManifestTables → ℕ × ManifestTables
unfolding update_where filter_by
mark_run_stale now run_id actor reason d =
    let rows = map (restated now stale) (filter_by (is_of_run run_id) d.manifests) in
    let audit : ManifestAudit = record {
      action = mark_stale;
      run_id = some run_id;
      manifest_id = none;
      actor = actor;
      reason = reason;
      new_status = stale;
      count = length rows;
    } in
    (
      length rows,
      record d {
        manifests = update_where (is_of_run run_id) (restated now stale) d.manifests;
        audits = d.audits ++ audit ∷ [];
        published = d.published ++ map changed rows;
      },
    )

abbrev pub has_manifest_id : ℕ → Manifest → Bool
has_manifest_id id m = m.id == id

abbrev publish_found : Option Manifest → List ManifestChanged → List ManifestChanged
publish_found none published = published
publish_found (some m) published = published ++ changed m ∷ []

abbrev pub mismatched : ℕ → Text → Manifest → Manifest
mismatched now reason m = record m {
  data_revision = m.data_revision + 1;
  content = record (m.content) {
    status = mismatch;
    last_modified_at = now;
    error_message = some reason;
  };
}

-- Audited also where there is no such manifest.
unfoldable pub mark_mismatch : ℕ → ℕ → Text → Text → ManifestTables → ManifestTables
unfolding update_where find_first
mark_mismatch now id actor reason d =
    let audit : ManifestAudit = record {
      action = mark_mismatch_action;
      run_id = none;
      manifest_id = some id;
      actor = actor;
      reason = some reason;
      new_status = mismatch;
      count = 0;
    } in
    record d {
      manifests = update_where (has_manifest_id id) (mismatched now reason) d.manifests;
      audits = d.audits ++ audit ∷ [];
      published =
          publish_found
            (Option.map (mismatched now reason) (find_first (has_manifest_id id) d.manifests))
            d.published;
    }

pub record ManualFix : Type 0 where
  pub new_s3_key : Text
  pub content_checksum : Text
  pub object_checksum : Text
  pub actor : Text
  pub reason : Text
  pub source_run_id : Text

abbrev pub fixed : ℕ → ManualFix → Manifest → Manifest
fixed now fix m = record m {
  data_revision = m.data_revision + 1;
  content = record (m.content) {
    status = ready;
    s3_key = some fix.new_s3_key;
    content_checksum = some fix.content_checksum;
    object_checksum = some fix.object_checksum;
    source_run_id = fix.source_run_id;
    last_modified_at = now;
    error_message = none;
  };
}

abbrev fix_audit : ℕ → ManualFix → ManifestAudit
fix_audit id fix = record {
  action = manual_fix;
  run_id = none;
  manifest_id = some id;
  actor = fix.actor;
  reason = some fix.reason;
  new_status = ready;
  count = 0;
}

-- `none` is the error where there is no such manifest; the statement has then changed nothing.
abbrev fix_found : ℕ → ℕ → ManualFix → Option Manifest → ManifestTables → Option ManifestTables
fix_found now id fix none d = none
fix_found now id fix (some m) d = some (record d {
  manifests = update_where (has_manifest_id id) (fixed now fix) d.manifests;
  audits = d.audits ++ fix_audit id fix ∷ [];
  published = d.published ++ changed (fixed now fix m) ∷ [];
})

unfoldable pub manual_fix_manifest : ℕ → ℕ → ManualFix → ManifestTables → Option ManifestTables
unfolding update_where find_first
manual_fix_manifest now id fix d =
    fix_found now id fix (find_first (has_manifest_id id) d.manifests) d
