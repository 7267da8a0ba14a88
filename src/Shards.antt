-- ===== src/Shards.antt =====
-- roles/collector/service/collector-shard-assignment.service.ts: which collector serves which symbol.
-- Redis is a parameter: the answers to its scans, and the heartbeats that it holds; so are the text order
-- of the locale and the reading of a date. A worker with no Redis or with a failing one sees itself alone.
pub mod Hash
pub mod Owner
pub mod Partition
mod Tests
use trading_worker.Base.{
  ℕ, zero, suc, ◌+◌, ◌-◌, ◌*◌, ◌%◌, ◌^◌, Bool, true, false, not, ◌&&◌, ◌||◌, List, [], ◌∷◌, ◌++◌,
  Option, some, none, ltb, ◌==◌, if◌then◌else◌, length, map, take, exists, sort_by, filter_by,
}
use mathlib.Core.Option
use trading_worker.Base.Text.{Text, codes, text_eq, opt_eq, is_empty, trim}
use trading_worker.Base.TextSet.{text_leb, has_text, unique}
use trading_worker.Base.TextMap.{lookup, assign as map_set}
use trading_worker.Shards.Hash.{fnv1a32}

unfoldable pub normalize_symbols : List Text → List Text
unfolding filter_by trim sort_by unique
normalize_symbols symbols =
    sort_by text_leb (unique (filter_by (λ s. not (is_empty s)) (map trim symbols)))

-- `-1`, below every score.
abbrev pub beats : ℕ → Option ℕ → Bool
beats score none = true
beats score (some best_score) = ltb best_score score

-- `${symbol}:${collector}`
unfoldable pub score_of : Text → Text → ℕ
unfolding fnv1a32
score_of symbol collector = fnv1a32 (symbol ++ b':' ∷ collector)

unfoldable pub owner_loop : Text → Option Text → Option ℕ → List Text → Option Text
unfolding score_of
owner_loop symbol best best_score [] = best
owner_loop symbol best best_score (collector ∷ rest) =
    let score = score_of symbol collector in
    let won = beats score best_score in
    owner_loop symbol (if won then some collector else best)
      (if won then some score else best_score) rest

abbrev first_of : List Text → Option Text
first_of [] = none
first_of (t ∷ texts) = some t

-- `undefined` where there is no collector.
unfoldable pub owner_for : Text → List Text → Option Text
unfolding owner_loop
owner_for symbol active_collectors =
    owner_loop symbol (first_of active_collectors) none active_collectors

pub record CollectorHeartbeatSnapshot : Type 0 where
  pub instance_id : Text
  pub last_beat_at : Option Text
  pub age_ms : Option ℕ

-- What `parseJson` makes of a value: `none` where it is missing, no JSON or no object. The roles are `none`
-- if they are no array, and the time if it is no text.
pub record HeartbeatPayload : Type 0 where
  pub roles : Option (List Text)
  pub ts : Option Text

pub record Membership : Type 0 where
  pub collector_ids : List Text
  pub heartbeats : List (Text × CollectorHeartbeatSnapshot)
  pub parse_failures : ℕ
  pub role_misses : ℕ

-- The answers to the scans, as they come: a cursor and a batch each. `none` is a scan that has not ended.
unfoldable pub scan_all : List (Text × List Text) → Option (List Text)
scan_all [] = none
scan_all ((cursor, batch) ∷ answers) =
    let rest = Option.map (λ keys. batch ++ keys) (scan_all answers) in
    if text_eq cursor (codes "0") then some batch else rest

-- `keys[i].split(':').at(-1)`
unfoldable pub last_segment : Text → Text → Text
last_segment segment [] = segment
last_segment segment (c ∷ key) = last_segment (if c == b':' then [] else segment ++ c ∷ []) key

abbrev is_collector : Option (List Text) → Bool
is_collector none = false
is_collector (some roles) = has_text roles (codes "collector")

module _ (parse_date : Text → Option ℕ) (now : ℕ) where
  unfoldable pub heartbeat_age_ms : Text → Option ℕ
  heartbeat_age_ms value = Option.map (λ parsed. now - parsed) (parse_date value)

  abbrev pub snapshot_of : Text → Option Text → CollectorHeartbeatSnapshot
  snapshot_of id none = record { instance_id = id; last_beat_at = none; age_ms = none }
  snapshot_of id (some ts) = record {
    instance_id = id;
    last_beat_at = some ts;
    age_ms = heartbeat_age_ms ts;
  }

  unfoldable pub add_beat : Text → Option HeartbeatPayload → Membership → Membership
  unfolding map_set heartbeat_age_ms
  add_beat id none m = record m { parse_failures = m.parse_failures + 1 }
  add_beat id (some payload) m =
      if is_collector payload.roles
      then record m {
        collector_ids =
            if has_text m.collector_ids id then m.collector_ids else m.collector_ids ++ id ∷ [];
        heartbeats = map_set id (snapshot_of id payload.ts) m.heartbeats;
      }
      else record m { role_misses = m.role_misses + 1 }

  -- A key with no instance id is passed over.
  unfoldable pub add_key : Text → Option HeartbeatPayload → Membership → Membership
  unfolding last_segment add_beat
  add_key key payload m =
      let id = last_segment [] key in if is_empty id then m else add_beat id payload m

  unfoldable pub add_keys : (Text → Option HeartbeatPayload) → List Text → Membership → Membership
  unfolding add_key
  add_keys beat [] m = m
  add_keys beat (key ∷ keys) m = add_keys beat keys (add_key key (beat key) m)

  abbrev pub alone : Text → Membership
  alone self = record {
    collector_ids = self ∷ [];
    heartbeats = (self, record { instance_id = self; last_beat_at = none; age_ms = none }) ∷ [];
    parse_failures = 0;
    role_misses = 0;
  }

  -- `scanned` is `none` where there is no Redis, or where it throws.
  unfoldable pub active_collector_membership :
      (Text → Text → Bool)
      → Text
      → Option (List Text)
      → (Text → Option HeartbeatPayload)
      → Membership
  unfolding add_keys sort_by
  active_collector_membership locale_leb self none beat = alone self
  active_collector_membership locale_leb self (some keys) beat =
      let m = add_keys beat (sort_by text_leb keys) (alone self) in
      record m {
        collector_ids = sort_by text_leb m.collector_ids;
        heartbeats = sort_by (λ a b. locale_leb a.0 b.0) m.heartbeats;
      }

-- The loop over the symbols that fills `ownerBySymbol`.
unfoldable pub set_owners :
    List Text → List Text → List (Text × Option Text) → List (Text × Option Text)
unfolding map_set owner_for
set_owners active [] owners = owners
set_owners active (symbol ∷ symbols) owners =
    set_owners active symbols (map_set symbol (owner_for symbol active) owners)

unfoldable pub owners_of : List Text → List Text → List (Text × Option Text)
unfolding set_owners
owners_of active symbols = set_owners active symbols []

abbrev joined : Option (Option Text) → Option Text
joined none = none
joined (some owner) = owner

-- `previous && previous !== owner`
abbrev is_takeover : Option Text → Option Text → Bool
is_takeover none owner = false
is_takeover (some previous) owner = not (is_empty previous) && not (opt_eq owner previous)

abbrev text_of : Option Text → Text
text_of none = codes "undefined"
text_of (some t) = t

unfoldable pub takeovers :
    List (Text × Option Text) → List (Text × Option Text) → List (Text × Text × Text)
unfolding lookup
takeovers last [] = []
takeovers last ((symbol, owner) ∷ owners) =
    let previous = joined (lookup symbol last) in
    let rest = takeovers last owners in
    if is_takeover previous owner then (symbol, text_of previous, text_of owner) ∷ rest else rest

pub record CollectorShardAssignment : Type 0 where
  pub assigned_symbols : List Text
  pub global_desired_count : ℕ
  pub global_desired_sample : List Text
  pub active_collectors : List Text
  pub collector_heartbeats : List (Text × CollectorHeartbeatSnapshot)
  pub owner_by_symbol : List (Text × Option Text)
  pub is_lease_configured : Bool
  pub takeover_events : List (Text × Text × Text)
  pub heartbeat_parse_failures : ℕ
  pub heartbeat_role_misses : ℕ

unfoldable pub assigned_to : Text → List (Text × Option Text) → List Text → List Text
unfolding filter_by lookup
assigned_to self owners symbols =
    filter_by (λ symbol. opt_eq (joined (lookup symbol owners)) self) symbols

-- `assign`: the assignment, and the owners to compare with at the next call.
unfoldable pub assign :
    Text
    → Membership
    → List Text
    → List (Text × Option Text)
    → CollectorShardAssignment × List (Text × Option Text)
unfolding normalize_symbols owners_of takeovers assigned_to
assign self membership symbols last_owner_by_symbol =
    let normalized = normalize_symbols symbols in
    let owners = owners_of membership.collector_ids normalized in
    (
      record {
        assigned_symbols = assigned_to self owners normalized;
        global_desired_count = length normalized;
        global_desired_sample = take 10 normalized;
        active_collectors = membership.collector_ids;
        collector_heartbeats = membership.heartbeats;
        owner_by_symbol = owners;
        is_lease_configured = ltb 1 (length membership.collector_ids);
        takeover_events = take 10 (takeovers last_owner_by_symbol owners);
        heartbeat_parse_failures = membership.parse_failures;
        heartbeat_role_misses = membership.role_misses;
      },
      owners,
    )
