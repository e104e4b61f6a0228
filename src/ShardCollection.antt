-- ===== src/ShardCollection.antt =====
-- asyncloguploader/shard_collection.go: the shards of a logger, and the channel on which shards
-- wait for the flush worker. A pointer to a shard is its index in `shards`, which is its id.
pub mod Build
pub mod Writes
pub mod Tests
use logger_double_buffer.Base.{
  ℕ, zero, suc, ◌+◌, ◌-◌, ◌*◌, ◌/◌, ◌%◌, ◌^◌, ◌≡◌, Bool, true, false, ◌||◌, Option, none, some,
  List, [], ◌∷◌, ◌++◌, map, ltb, leb, ◌==◌, if◌then◌else◌, ◌>>=◌, length, get_elem?, set,
}
use logger_double_buffer.Base.Int.{ℤ, pos, negsuc, not_positive, div, lt_pos, pos_part}
use logger_double_buffer.Base.Int32
use logger_double_buffer.Base.Int32.{is_negative}
use logger_double_buffer.Base.Bytes.{Bytes}
use logger_double_buffer.Shard
use logger_double_buffer.Shard.{Side, Shard, header_offset}

-- A buffered channel of shard pointers: what waits in it, and its size.
pub record Channel : Type 0 where
  pub queue : List ℕ
  pub size : ℕ

pub record ShardCollection : Type 0 where
  pub shards : List Shard
  pub num_shards : ℕ
  pub ready_shards : ℕ
  pub threshold : ℕ
  pub flush_chan : Option Channel

abbrev pub min_shard : ℕ
min_shard = 64 * 1024

abbrev pub default_shards : ℕ
default_shards = 8

-- The capacity of a shard and the number of shards that NewShardCollection settles on; `none` is
-- the panic of `make` at a negative length.
abbrev pub at_least_one : ℤ → Option ℕ
at_least_one (pos zero) = some 1
at_least_one (pos (suc n)) = some (suc n)
at_least_one (negsuc n) = none

unfoldable pub layout : ℤ → ℤ → Option (ℕ × ℕ)
layout total_capacity num_shards =
    let n = (if not_positive num_shards then default_shards else pos_part num_shards) in
    let capacity = div total_capacity n in
    if lt_pos capacity min_shard
    then (at_least_one (div total_capacity min_shard) >>= λ k. some (min_shard, k))
    else some (pos_part capacity, n)

-- The loop that makes the shards `i`, `i + 1`, ...; an error of one is returned.
unfoldable pub new_shards : (ℕ → Side → ℕ → Option Bytes) → ℕ → ℕ → ℕ → Option (List Shard)
new_shards mmap capacity i zero = some []
new_shards mmap capacity i (suc n) = do
  shard ← Shard.new_shard (mmap i) capacity i
  shards ← new_shards mmap capacity (i + 1) n
  some (shard ∷ shards)

-- int32((numShards * 25) / 100), at least 1
unfoldable pub threshold_of : ℕ → ℕ
threshold_of n = let t = n * 25 / 100 % 2 ^ 32 in if t == 0 then 1 else t

-- NewShardCollection; the mappings that shard `i` gets are `mmap i`.
unfoldable pub new_shard_collection :
    (ℕ → Side → ℕ → Option Bytes) → ℤ → ℤ → Option Channel → Option ShardCollection
unfolding layout new_shards
new_shard_collection mmap total_capacity num_shards chan = layout total_capacity num_shards >>= λ l.
    new_shards mmap l.0 0 l.1 >>= λ shards. some (record {
      shards = shards;
      num_shards = l.1;
      ready_shards = 0;
      threshold = threshold_of l.1;
      flush_chan = chan;
    })

-- A send that does not block: a full channel loses the request.
abbrev pub try_send : ℕ → Channel → Channel
try_send i c = if ltb (length c.queue) c.size then record c { queue = c.queue ++ i ∷ [] } else c

-- EnqueueShardForFlush
unfoldable pub enqueue_shard_for_flush : ShardCollection → ℕ → ShardCollection
enqueue_shard_for_flush sc i = elim sc.flush_chan [
  | none ↦ sc
  | some c ↦ record sc { flush_chan = some (try_send i c) }
]

-- MarkShardReady
unfoldable pub mark_shard_ready : ShardCollection → Bool × ShardCollection
mark_shard_ready sc =
    let count = Int32.add sc.ready_shards 1 in
    (Int32.ge count sc.threshold, record sc { ready_shards = count })

unfoldable pub reset_ready_shards : ShardCollection → ShardCollection
reset_ready_shards sc = record sc { ready_shards = 0 }

unfoldable pub threshold_reached : ShardCollection → Bool
threshold_reached sc = Int32.ge sc.ready_shards sc.threshold

abbrev pub store_shard : ShardCollection → ℕ → Shard → ShardCollection
store_shard sc i s = record sc { shards = set sc.shards i s }

-- The end of Write: a shard that needs a flush is queued and counted.
pub announce : ShardCollection → ℕ → Bool → ShardCollection
unfolding enqueue_shard_for_flush mark_shard_ready
announce sc i needs_flush =
    if needs_flush then (mark_shard_ready (enqueue_shard_for_flush sc i)).1 else sc

-- Write; `pick` is what rand.IntN gave. The id is -1 for an empty payload.
unfoldable pub write : ShardCollection → ℕ → Bytes → Option (ℕ × Bool × ℤ × ShardCollection)
unfolding announce
write sc pick [] = some (0, false, negsuc 0, sc)
write sc pick (byte ∷ p) = do
  shard ← get_elem? sc.shards pick
  (n, needs_flush, shard') ← Shard.write shard (byte ∷ p)
  some (n, needs_flush, pos pick, announce (store_shard sc pick shard') pick needs_flush)

-- GetShard
unfoldable pub get_shard : ShardCollection → ℤ → Option Shard
get_shard sc (negsuc n) = none
get_shard sc (pos i) = if leb sc.num_shards i then none else get_elem? sc.shards i

-- GetReadyShards: the pointers of the shards that are full; `i` is the first index.
unfoldable pub ready_from : ℕ → List Shard → List ℕ
ready_from i [] = []
ready_from i (s ∷ ss) =
    let rest = ready_from (i + 1) ss in if Shard.is_full s then i ∷ rest else rest

unfoldable pub get_ready_shards : ShardCollection → List ℕ
unfolding ready_from
get_ready_shards sc = ready_from 0 sc.shards

unfoldable pub any : (Shard → Bool) → List Shard → Bool
any f [] = false
any f (s ∷ ss) = f s || any f ss

unfoldable pub has_data : ShardCollection → Bool
unfolding any
has_data sc = any Shard.has_data sc.shards

unfoldable pub any_shard_full : ShardCollection → Bool
unfolding any
any_shard_full sc = any Shard.is_full sc.shards

-- Reset
unfoldable pub reset_full : Shard → Shard
reset_full s = if Shard.is_full s then Shard.reset s else s

unfoldable pub reset : ShardCollection → ShardCollection
unfolding reset_full reset_ready_shards
reset sc = reset_ready_shards (record sc { shards = map reset_full sc.shards })

-- TotalBytes: int64 sums of int32 differences, of the active side of each shard.
abbrev pub sign_extend : ℕ → ℕ
sign_extend d = if is_negative d then d + (2 ^ 64 - 2 ^ 32) else d

unfoldable pub sum_bytes : List Shard → ℕ
sum_bytes [] = 0
sum_bytes (s ∷ ss) =
    (sign_extend ((Shard.offset s + 2 ^ 32 - header_offset) % 2 ^ 32) + sum_bytes ss) % 2 ^ 64

unfoldable pub total_bytes : ShardCollection → ℕ
unfolding sum_bytes
total_bytes sc = sum_bytes sc.shards

unfoldable pub close : ShardCollection → ShardCollection
close sc = record sc { shards = map Shard.close sc.shards }
