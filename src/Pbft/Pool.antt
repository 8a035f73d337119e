-- ===== src/Pbft/Pool.antt =====
-- LockFreeCollectorPool (platform/consensus/ordering/pbft/lock_free_collector_pool.cpp): a ring of
-- collectors. The capacity C is a power of two, so
-- `seq & mask_` is seq % 2C, and `idx ^ capacity_`, which flips the highest bit of an index below
-- 2C, is (idx + C) % 2C.
pub mod Capacity
pub mod Window
use resilientdb.Common.{
  number_keys, leb, if◌then◌else◌, get_elem?, set, ◌==◌, ℕ, zero, suc, ◌+◌, ◌*◌, ◌%◌, ◌^◌, Bool,
  Option, none, some, List, [], ◌∷◌,
}
use resilientdb.Pbft.Collector.{Collector, new_collector}

-- The loop of GetCapacity from `i` on. A shift by 32 or more is undefined, so 32 rounds of fuel
-- are all that a uint32_t has.
unfoldable pub capacity_from : ℕ → ℕ → ℕ → ℕ
capacity_from zero i size = 2 ^ i
capacity_from (suc fuel) i size =
    let more = capacity_from fuel (i + 1) size in if leb (2 ^ i) size then more else 2 ^ i

-- GetCapacity.
unfoldable pub get_capacity : ℕ → ℕ
get_capacity size = capacity_from 32 0 size

pub record CollectorPool : Type 0 where
  pub capacity : ℕ
  pub has_executor : Bool
  pub enable_viewchange : Bool
  pub collectors : List Collector

-- `n` collectors, for the numbers from `i` on.
unfoldable pub collectors_from : ℕ → ℕ → Bool → Bool → List Collector
collectors_from zero i has_executor enable_viewchange = []
collectors_from (suc n) i has_executor enable_viewchange =
    new_collector i has_executor enable_viewchange
    ∷ collectors_from n (i + 1) has_executor enable_viewchange

-- A pool with a given capacity.
unfoldable pub pool_of : ℕ → Bool → Bool → CollectorPool
unfolding collectors_from
pool_of capacity has_executor enable_viewchange = record {
  capacity = capacity;
  has_executor = has_executor;
  enable_viewchange = enable_viewchange;
  collectors = collectors_from (2 * capacity) 0 has_executor enable_viewchange;
}

-- The constructor; `size * 2` is a uint32_t.
unfoldable pub new_pool : ℕ → Bool → Bool → CollectorPool
unfolding pool_of
new_pool size has_executor enable_viewchange =
    pool_of (get_capacity (size * 2 % 2 ^ 32)) has_executor enable_viewchange

-- `seq & mask_`.
unfoldable pub index_of : CollectorPool → ℕ → ℕ
index_of p seq = seq % (2 * p.capacity)

-- GetCollector; `none` if the index is out of the vector.
unfoldable pub get_collector : CollectorPool → ℕ → Option Collector
unfolding index_of
get_collector p seq = get_elem? p.collectors (index_of p seq)

-- What a call on the collector that GetCollector returned leaves in the pool.
unfoldable pub set_collector : CollectorPool → ℕ → Collector → CollectorPool
unfolding index_of
set_collector p seq c = record p { collectors = set p.collectors (index_of p seq) c }

-- `idx ^ capacity_`.
unfoldable pub other_half : CollectorPool → ℕ → ℕ
other_half p idx = (idx + p.capacity) % (2 * p.capacity)

-- Update, with the collector that stands at the number's index.
unfoldable pub update_at : CollectorPool → ℕ → Collector → CollectorPool
unfolding other_half index_of
update_at p seq c =
    if c.seq == seq
    then record p {
      collectors =
          set p.collectors (other_half p (index_of p seq))
            (new_collector (seq + p.capacity) p.has_executor p.enable_viewchange);
    }
    else p

-- Update.
unfoldable pub update : CollectorPool → ℕ → CollectorPool
unfolding get_collector update_at
update p seq = elim (get_collector p seq) [ none ↦ p | some c ↦ update_at p seq c ]

-- The updates that the executor announces while it goes from number 1 to `n`.
unfoldable pub updates : CollectorPool → ℕ → CollectorPool
updates p zero = p
updates p (suc n) = update (updates p n) (suc n)
