-- ===== src/Archive/Manifests/Tests.antt =====
-- A manifest that is written twice, goes stale and is fixed by hand.
use trading_worker.Base.{ℕ, ◌≡◌, refl, List, [], ◌∷◌, none, some}
use trading_worker.Base.Text.{codes}
use trading_worker.Event.{MarketEnv}
use trading_worker.Sql.{find_first}
use trading_worker.Archive.Tasks.{one_minute}
use trading_worker.Archive.Manifests.{
  ready, ManifestKey, ManifestContent, Manifest, ManifestTables, ManualFix, new_manifest,
  manifest_key_eq,
}
use trading_worker.Archive.Manifests.Revisions.{
  ManifestCall, upsert_call, stale_call, fix_call, manifest_calls, GoesOn, manifest_calls-GoesOn,
}

abbrev key : ManifestKey
key = record {
  provider = codes "kiwoom";
  market_env = MarketEnv.mock;
  symbol = codes "005930";
  timeframe = one_minute;
  partition_key = codes "2026-05-04";
}

abbrev content : ℕ → ManifestContent
content expected = record {
  stock_id = some 7;
  status = ready;
  s3_key = some (codes "a.csv");
  sidecar_s3_key = none;
  expected_row_count = expected;
  actual_row_count = 381;
  coverage_ratio = record { actual = 381; expected = expected };
  object_checksum = some (codes "o");
  content_checksum = some (codes "c");
  source_checksum = none;
  source_run_id = codes "r1";
  schema_version = 1;
  archived_at = 10;
  last_modified_at = 10;
  error_message = none;
}

abbrev first : Manifest
first = new_manifest 1 key (content 390)

abbrev tables : ManifestTables
tables = record { manifests = first ∷ []; next_id = 2; audits = []; published = [] }

abbrev fix : ManualFix
fix = record {
  new_s3_key = codes "b.csv";
  content_checksum = codes "c2";
  object_checksum = codes "o2";
  actor = codes "ops";
  reason = codes "hand";
  source_run_id = codes "r2";
}

abbrev calls : List ManifestCall
calls =
    upsert_call key (content 381)
    ∷ stale_call 20 (codes "r1") (codes "ops") none
    ∷ fix_call 30 1 fix
    ∷ fix_call 40 9 fix
    ∷ []

abbrev versions : List Manifest → List (ℕ × ℕ)
versions [] = []
versions (m ∷ rows) = (m.data_revision, m.content.expected_row_count) ∷ versions rows

three_versions_later : versions ((manifest_calls calls tables).manifests) ≡ (4, 390) ∷ []
unfolding manifest_calls manifest_key_eq
three_versions_later = refl

manifest_calls-GoesOn_example : GoesOn key first ((manifest_calls calls tables).manifests)
unfolding manifest_key_eq find_first
manifest_calls-GoesOn_example = manifest_calls-GoesOn key calls tables first refl
