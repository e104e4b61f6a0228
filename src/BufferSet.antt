-- ===== src/BufferSet.antt =====
-- asynclogger/buffer_set.go: the buffers that a logger writes to together, one after another in turn.
-- Each operation runs alone, as in AsyncBuffer. A Go panic is `none`.
pub mod Room
pub mod Sequence
pub mod Rounds
pub mod Batch
use logger_double_buffer.Base.{
  ℕ, zero, suc, ◌+◌, ◌-◌, ◌%◌, ◌^◌, Bool, true, false, ◌||◌, Option, none, some, List, [], ◌∷◌, map,
  ◌==◌, leb, if◌then◌else◌, ◌>>=◌, get_elem?, set,
}
use logger_double_buffer.Base.Int.{ℤ, pos, negsuc}
use logger_double_buffer.Base.Bytes.{Bytes}
use logger_double_buffer.ShardCollection.{layout, sign_extend}
use logger_double_buffer.AsyncBuffer
use logger_double_buffer.AsyncBuffer.{Buffer}

pub record BufferSet : Type 0 where
  pub shards : List Buffer
  pub num_shards : ℕ
  pub id : ℕ
  pub counter : ℕ

-- The loop that makes the shards `i`, `i + 1`, ...; shard `i` lies at the address `addr i`.
unfoldable pub new_shards : (ℕ → ℕ) → ℕ → ℕ → ℕ → List Buffer
new_shards addr capacity i zero = []
new_shards addr capacity i (suc n) =
    AsyncBuffer.new_buffer (addr i) capacity (i % 2 ^ 32) ∷ new_shards addr capacity (i + 1) n

-- NewBufferSet, whose sizes are settled as NewShardCollection settles them.
unfoldable pub new_buffer_set : (ℕ → ℕ) → ℤ → ℤ → ℕ → Option BufferSet
unfolding new_shards
new_buffer_set addr total_capacity num_shards set_id = layout total_capacity num_shards >>= λ l.
    some (record { shards = new_shards addr l.0 0 l.1; num_shards = l.1; id = set_id; counter = 0 })

-- Write
unfoldable pub write : BufferSet → Bytes → Option (ℕ × Bool × ℤ × BufferSet)
write bs [] = some (0, false, negsuc 0, bs)
write bs (byte ∷ p) =
    if bs.num_shards == 0
    then none
    else let counter = (bs.counter + 1) % 2 ^ 64 in
      let idx = counter % bs.num_shards in
      get_elem? bs.shards idx >>= λ shard. AsyncBuffer.write shard (byte ∷ p) >>= λ r.
      some (r.0, r.1, pos idx, record bs { shards = set bs.shards idx r.2; counter = counter })

-- GetShard
unfoldable pub get_shard : BufferSet → ℤ → Option Buffer
get_shard bs (negsuc n) = none
get_shard bs (pos i) = if leb bs.num_shards i then none else get_elem? bs.shards i

unfoldable pub any : (Buffer → Bool) → List Buffer → Bool
any f [] = false
any f (b ∷ bs) = f b || any f bs

unfoldable pub has_data : BufferSet → Bool
unfolding any
has_data bs = any AsyncBuffer.has_data bs.shards

unfoldable pub any_shard_full : BufferSet → Bool
unfolding any
any_shard_full bs = any AsyncBuffer.is_full bs.shards

-- Reset
unfoldable pub reset : BufferSet → BufferSet
reset bs = record bs { shards = map AsyncBuffer.reset bs.shards }

-- TotalBytes: int64 sums of int32 differences.
unfoldable pub sum_bytes : List Buffer → ℕ
sum_bytes [] = 0
sum_bytes (b ∷ bs) = (sign_extend ((b.offset + 2 ^ 32 - 8) % 2 ^ 32) + sum_bytes bs) % 2 ^ 64

unfoldable pub total_bytes : BufferSet → ℕ
unfolding sum_bytes
total_bytes bs = sum_bytes bs.shards
