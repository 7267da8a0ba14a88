-- ===== src/Shards/Tests.antt =====
-- The shard assignment at a few workers and symbols.
use trading_worker.Base.{
  ◌≡◌, ◌↔◌, refl, true, not, ◌&&◌, List, [], ◌∷◌, Option, some, none, filter_by,
}
use trading_worker.Base.Text.{Text, codes, text_eq}
use trading_worker.Base.TextSet.{has_text}
use trading_worker.Shards.{
  Membership, HeartbeatPayload, normalize_symbols, owner_for, active_collector_membership, assign,
}
use trading_worker.Shards.Hash.{fnv1a32}
use trading_worker.Shards.Hash.{fnv1a_from, fnv_offset_basis, fnv1a32-eq-fnv1a}
use trading_worker.Shards.Owner.{IsOwner, owner_for_iff, owner_for-filter_by}
use trading_worker.Shards.Partition.{assigned_iff_owner}

abbrev worker_a : Text
worker_a = codes "a"

abbrev worker_b : Text
worker_b = codes "b"

-- The published value of FNV-1a at "a".
fnv1a32_a : fnv1a32 (codes "a") ≡ 0xe40c292c
unfolding fnv1a32
fnv1a32_a = refl

fnv1a32-eq-fnv1a_example : fnv1a32 (codes "a") ≡ fnv1a_from fnv_offset_basis (codes "a")
fnv1a32-eq-fnv1a_example = fnv1a32-eq-fnv1a (codes "a")

abbrev beat : Text → Option HeartbeatPayload
beat key = some (record { roles = some (codes "collector" ∷ []); ts = none })

abbrev seen : Membership
seen =
    active_collector_membership (λ t. none) 0 (λ t u. true) worker_a (some (codes "hb:b" ∷ [])) beat

-- Worker a sees worker b.
seen_both : seen.collector_ids ≡ worker_a ∷ worker_b ∷ []
unfolding active_collector_membership
seen_both = refl

abbrev both : Membership
both = record {
  collector_ids = worker_a ∷ worker_b ∷ [];
  heartbeats = [];
  parse_failures = 0;
  role_misses = 0;
}

owner_005930 : owner_for (codes "005930") both.collector_ids ≡ some worker_a
unfolding owner_for
owner_005930 = refl

owner_for_iff_example :
    (owner_for (codes "005930") both.collector_ids ≡ some worker_a)
    ↔ IsOwner (codes "005930") both.collector_ids worker_a
owner_for_iff_example = owner_for_iff (codes "005930") both.collector_ids worker_a

-- Worker b leaves: worker a keeps what it owned.
owner_for-filter_by_example :
    owner_for (codes "005930") (filter_by (λ t. not (text_eq t worker_b)) both.collector_ids)
    ≡ some worker_a
owner_for-filter_by_example =
    owner_for-filter_by (codes "005930") (λ t. not (text_eq t worker_b)) both.collector_ids worker_a
      owner_005930 refl

abbrev asked : List Text
asked = codes " 005930 " ∷ codes "" ∷ codes "005930" ∷ []

assigned_iff_owner_example :
    has_text ((assign worker_a both asked []).0).assigned_symbols (codes "005930")
    ≡ has_text (normalize_symbols asked) (codes "005930") && text_eq worker_a worker_a
assigned_iff_owner_example =
    assigned_iff_owner worker_a both asked [] (codes "005930") worker_a
      ((owner_for_iff (codes "005930") both.collector_ids worker_a).0 owner_005930)

asked_once : normalize_symbols asked ≡ codes "005930" ∷ []
unfolding normalize_symbols
asked_once = refl
