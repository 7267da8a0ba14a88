-- ===== src/Fill/OutboxTests.antt =====
-- The theorems of the outbox and of the retries at the sample database.
use trading_worker.Base.{
  ℕ, ◌≡◌, refl, arith, Bool, true, false, List, [], ◌∷◌, Option, some, none, All,
}
use trading_worker.Base.Text.{Text, codes, text_eq}
use trading_worker.Order.{order_not_found}
use trading_worker.Fill.Ingest.{IngestResult}
use trading_worker.Fill.Retry.{
  TrackerCall, deliver, retry, tracker_calls, settle_row, settlement_of,
}
use trading_worker.Fill.Attempts.{Within, tracker_calls-Within, Settled, settle_row-Settled}
use trading_worker.Fill.Outbox.{
  find_pending_outbox, Channel, live, stream, PendingItem, flush_item, is_unpublished,
}
use trading_worker.Fill.Claiming.{has_item, claim_exclusive}
use trading_worker.Fill.Delivery.{After, flush_item_outcome}
use trading_worker.Fill.Samples.{ignores_null, report, stray_report, waiting_fill, database}

abbrev calls : List TrackerCall
calls = deliver 1 report ∷ deliver 2 stray_report ∷ retry 9000 20 ∷ []

tracker_calls-Within_example : All Within (tracker_calls ignores_null calls database).unmatched
tracker_calls-Within_example =
    tracker_calls-Within ignores_null calls database ((λ _. omega arith), tt)

abbrev not_found : IngestResult
not_found = record {
  inserted = false;
  order_id = none;
  anomaly = some order_not_found;
  external_fill_id = codes "F9";
}

settle_row-Settled_example :
    Settled 20 3 (settle_row 20 3 not_found (settlement_of 3 not_found) waiting_fill)
settle_row-Settled_example = settle_row-Settled 20 2 not_found waiting_fill

abbrev unlocked : ℕ → Bool
unlocked id = false

-- The second flush is left with the second row.
claim_exclusive_example :
    All
      (λ i. has_item (find_pending_outbox unlocked 100 1 database).0 i.id ≡ false)
      (find_pending_outbox unlocked 50000 10 (find_pending_outbox unlocked 100 1 database).1).0
claim_exclusive_example = claim_exclusive unlocked unlocked 100 50000 1 10 database (omega arith)

-- The live channel is down.
abbrev send : Channel → Text → Option Text
send live id = some (codes "refused")
send stream id = none

abbrev item : PendingItem
item = record {
  id = 1;
  external_fill_id = codes "F1";
  needs_live_publish = true;
  needs_stream_publish = false;
}

flush_item_outcome_example :
    After send 100 item.external_fill_id
      (λ r. text_eq r.external_fill_id item.external_fill_id ≡ true → is_unpublished r ≡ false)
      (flush_item send 100 item database)
flush_item_outcome_example =
    flush_item_outcome send 100 item database ((λ _. ((λ _. refl), (λ e. cc))), ((λ e. cc), tt))
