-- ===== src/Shards/Partition.antt =====
-- `assign` of collector-shard-assignment.service.ts at all workers that see the same active collectors.
use trading_worker.Base.{◌≡◌, refl, arith, ◌&&◌, List, [], ◌∷◌, Option, some, if◌then◌else◌}
use trading_worker.Base.Text.{Text, text_eq, text_eq_iff, opt_eq}
use trading_worker.Base.TextSet.{has_text, has_text-filter_by}
use trading_worker.Base.TextMap.{lookup, lookup-assign}
use trading_worker.Base.TextMap.{assign as map_set}
use trading_worker.Shards.{
  Membership, normalize_symbols, owner_for, set_owners, owners_of, joined, assigned_to, assign,
}
use trading_worker.Shards.Owner.{IsOwner, owner_for_iff}

lookup-set_owners :
    (active symbols : List Text) (owners : List (Text × Option Text)) (s : Text)
    → lookup s (set_owners active symbols owners)
      ≡ (if has_text symbols s then some (owner_for s active) else lookup s owners)
unfolding set_owners
lookup-set_owners active [] owners s = refl
lookup-set_owners active (symbol ∷ symbols) owners s =
    rw
      (
        lookup-set_owners active symbols (map_set symbol (owner_for symbol active) owners) s,
        lookup-assign symbol s (owner_for symbol active) owners,
      )
      (ground (arith, text_eq_iff symbol s))

-- What a worker takes of the symbols: those that the active collectors' scores give it.
has_text-assigned_to :
    (self : Text) (active symbols : List Text) (s owner : Text)
    → owner_for s active ≡ some owner
    → has_text (assigned_to self (owners_of active symbols) symbols) s
      ≡ has_text symbols s && text_eq owner self
unfolding assigned_to owners_of
has_text-assigned_to self active symbols s owner e = ground (
  arith,
  has_text-filter_by (λ symbol. opt_eq (joined (lookup symbol (set_owners active symbols []))) self)
      symbols s,
  lookup-set_owners active symbols [] s,
)

-- A worker is assigned exactly those of the symbols asked for, trimmed, whose owner it is: the owner is the
-- active collector with the highest score for the symbol, the first of those. So workers that see the same
-- collectors divide the symbols, each to one of them.
pub assigned_iff_owner :
    (self : Text) (m : Membership) (symbols : List Text) (last : List (Text × Option Text))
    (s owner : Text)
    → IsOwner s m.collector_ids owner
    → has_text ((assign self m symbols last).0).assigned_symbols s
      ≡ has_text (normalize_symbols symbols) s && text_eq owner self
unfolding assign
assigned_iff_owner self m symbols last s owner w =
    has_text-assigned_to self m.collector_ids (normalize_symbols symbols) s owner
      ((owner_for_iff s m.collector_ids owner).1 w)
