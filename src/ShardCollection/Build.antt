-- ===== src/ShardCollection/Build.antt =====
-- What NewShardCollection makes.
use logger_double_buffer.Base.{
  ℕ, zero, suc, ◌+◌, ◌-◌, ◌*◌, ◌^◌, ◌≤◌, ◌<◌, ◌≡◌, ◌⊎◌, ap, Option, some, List, ◌∷◌, arith, length,
  All, Option-cases, inl, inr,
}
use logger_double_buffer.Base.Int.{ℤ, pos, negsuc, pos_part}
use logger_double_buffer.Base.Bytes.{Bytes}
use logger_double_buffer.Shard.{Shard, Side, align_size, new_shard}
use logger_double_buffer.Shard.Invariant
use logger_double_buffer.Shard.Invariant.{new_shard-IsValid}
use logger_double_buffer.ShardCollection.{
  ShardCollection, Channel, min_shard, layout, new_shards, threshold_of, new_shard_collection,
}

pub record IsValid (sc : ShardCollection) : Type 0 where
  pub all_valid : All Invariant.IsValid sc.shards
  pub counted : length sc.shards ≡ sc.num_shards
  pub some_shard : 1 ≤ sc.num_shards
  pub reachable : 1 ≤ sc.threshold

-- Any layout has a shard at least, of 64 KiB at least, and together they take no more than the
-- total asked for, unless one minimal shard already does.
pub layout_bounds :
    (total num : ℤ) {capacity n : ℕ}
    → layout total num ≡ some (capacity, n)
    → (1 ≤ n)
      × (min_shard ≤ capacity)
      × ((n * capacity ≤ pos_part total) ⊎ ((n ≡ 1) × (capacity ≡ min_shard)))
unfolding layout
layout_bounds (pos total) (pos zero) e = ground arith
layout_bounds (pos total) (pos (suc k)) e = ground arith
layout_bounds (pos total) (negsuc k) e = ground arith
layout_bounds (negsuc total) num e = ground arith

new_shards-IsValid :
    (mmap : ℕ → Side → ℕ → Option Bytes) (capacity i n : ℕ) {shards : List Shard}
    → ((j : ℕ) (side : Side) (size : ℕ) (buf : Bytes)
        → mmap j side size ≡ some buf
        → length buf ≡ size)
    → 0 < capacity
    → align_size capacity < 2 ^ 31
    → new_shards mmap capacity i n ≡ some shards
    → All Invariant.IsValid shards × (length shards ≡ n)
unfolding new_shards
new_shards-IsValid mmap capacity i zero maps positive small e = ground arith
new_shards-IsValid mmap capacity i (suc n) {shards} maps positive small e =
    elim (Option-cases (new_shard (mmap i) capacity i)) [
      | inl failed ↦ ground arith
      | inr (s, made) ↦ elim (Option-cases (new_shards mmap capacity (i + 1) n)) [
        | inl failed ↦ ground arith
        | inr (rest, more) ↦
            let valid = new_shard-IsValid (mmap i) capacity i (maps i) positive small made in
            let valid_rest = new_shards-IsValid mmap capacity (i + 1) n maps positive small more in
            let shape : shards ≡ s ∷ rest = ground arith in
            rw shape ((valid, valid_rest.0), ap suc valid_rest.1)
      ]
    ]

threshold_of-pos : (n : ℕ) → 1 ≤ threshold_of n
unfolding threshold_of
threshold_of-pos n = ground arith

le-mul : (n c t : ℕ) → 1 ≤ n → n * c ≤ t → c ≤ t
le-mul n c t h k = grind arith

capacity_small :
    (n capacity : ℕ) {total : ℕ}
    → 1 ≤ n
    → (n * capacity ≤ total) ⊎ ((n ≡ 1) × (capacity ≡ min_shard))
    → total < 2 ^ 31 - 4096
    → align_size capacity < 2 ^ 31
unfolding align_size
capacity_small n capacity {total} h (inl k) small = omega (arith, le-mul n capacity total h k)
capacity_small n capacity h (inr k) small = omega arith

-- NewShardCollection: over mappings of the size asked for, with a total below 2 GiB less 4096 bytes
-- (the room that rounding up to a page may take), the collection that it returns has one valid shard
-- at least, as many as it counts, all of them valid, and a threshold of one at least.
pub new_shard_collection-IsValid :
    (mmap : ℕ → Side → ℕ → Option Bytes) (total num : ℤ) (chan : Option Channel)
    {sc : ShardCollection}
    → ((j : ℕ) (side : Side) (size : ℕ) (buf : Bytes)
        → mmap j side size ≡ some buf
        → length buf ≡ size)
    → pos_part total < 2 ^ 31 - 4096
    → new_shard_collection mmap total num chan ≡ some sc
    → IsValid sc
unfolding new_shard_collection
new_shard_collection-IsValid mmap total num chan {sc} maps small e =
    elim (Option-cases (layout total num)) [
      | inl failed ↦ ground arith
      | inr ((capacity, n), fits) ↦ elim (Option-cases (new_shards mmap capacity 0 n)) [
        | inl failed ↦ ground arith
        | inr (shards, made) ↦
            let bounds = layout_bounds total num fits in
            let valid =
              new_shards-IsValid mmap capacity 0 n maps (omega arith)
                (capacity_small n capacity bounds.0 bounds.2 small) made in
            let pos_t = threshold_of-pos n in ground arith
      ]
    ]
