-- ===== src/ShardCollection/Tests.antt =====
-- Runs of a collection of two small shards.
use logger_double_buffer.Base.{
  ℕ, ◌*◌, ◌≤◌, ◌≡◌, ◌⊎◌, refl, Bool, none, some, List, [], ◌∷◌, arith, length, All,
}
use logger_double_buffer.Base.Int.{pos}
use logger_double_buffer.Shard
use logger_double_buffer.Shard.{Shard, align_size}
use logger_double_buffer.Shard.Invariant.{Fits}
use logger_double_buffer.Shard.Contents.{Messages}
use logger_double_buffer.Shard.Tests.{
  blank, no_messages, hello, hello-filled, greeted, one_message, greeted-IsValid,
  greeted-Represents, blank-IsValid, blank-Represents, mmap, mmap-length,
}
use logger_double_buffer.ShardCollection.{
  ShardCollection, min_shard, layout, new_shard_collection, new_shards, threshold_of, write,
}
use logger_double_buffer.ShardCollection.Build.{
  IsValid, layout_bounds, new_shard_collection-IsValid,
}
use logger_double_buffer.ShardCollection.Writes.{Held, Took, write_lem}

abbrev pub pair : ShardCollection
pair = record {
  shards = greeted ∷ blank 64 ∷ [];
  num_shards = 2;
  ready_shards = 0;
  threshold = 1;
  flush_chan = some (record { queue = []; size = 2 });
}

abbrev pub held : List Messages
held = one_message ∷ no_messages ∷ []

pub pair-Held : Held pair.shards held
pair-Held = (
  greeted-IsValid,
  greeted-Represents,
  (blank-IsValid 64 (omega arith) (omega arith), blank-Represents 64, tt),
)

pub pair-Fits : All (λ s. Fits s hello) pair.shards
pair-Fits = (omega arith, (omega arith, tt))

write_lem_example :
    (n : ℕ) × (flush : Bool) × (t : ShardCollection) × (ms' : List Messages) × (write pair 0 hello
      ≡ some (n, flush, pos 0, t))
    × Held t.shards ms'
    × (t.num_shards ≡ 2)
    × (length t.shards ≡ 2)
    × Took 0 hello n held ms'
    × All (λ s. Fits s hello) t.shards
write_lem_example = write_lem pair held 0 hello pair-Held (omega arith) pair-Fits hello-filled

laid_out : layout (pos 100_000) (pos 4) ≡ some (min_shard, 1)
unfolding layout
laid_out = refl

abbrev one : ℕ
one = 1

layout_bounds_example :
    (1 ≤ one)
    × (min_shard ≤ min_shard)
    × ((one * min_shard ≤ 100_000) ⊎ ((one ≡ 1) × (min_shard ≡ min_shard)))
layout_bounds_example = layout_bounds (pos 100_000) (pos 4) laid_out

abbrev built : ShardCollection
built = record {
  shards = record (blank 65536) { id = 0 } ∷ [];
  num_shards = 1;
  ready_shards = 0;
  threshold = 1;
  flush_chan = none;
}

construction : new_shard_collection (λ i side. mmap) (pos 100_000) (pos 4) none ≡ some built
unfolding new_shard_collection layout new_shards Shard.new_shard align_size threshold_of
construction = refl

new_shard_collection-IsValid_example : IsValid built
new_shard_collection-IsValid_example =
    new_shard_collection-IsValid (λ i side. mmap) (pos 100_000) (pos 4) none (λ i side. mmap-length)
      (omega arith) construction
