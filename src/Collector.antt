-- ===== src/Collector.antt =====
-- roles/collector: the plan of the subscriptions and the ranges that are known to be empty.
pub mod Subscriptions
pub mod EmptyRanges
pub mod Catchup
