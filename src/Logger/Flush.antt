-- ===== src/Logger/Flush.antt =====
-- flushShardsEnhanced: collecting the buffers of a list of shards, one batched write, and the reset.
use logger_double_buffer.Base.{
  ℕ, ◌+◌, ◌-◌, ◌%◌, ◌^◌, Bool, Option, some, List, [], ◌∷◌, ◌++◌, ltb, leb, ◌==◌, if◌then◌else◌,
  ◌>>=◌, get_elem?, length, drop,
}
use logger_double_buffer.Base.Int32
use logger_double_buffer.Base.Int32.{is_negative}
use logger_double_buffer.Base.Bytes.{Bytes, u32}
use logger_double_buffer.Shard
use logger_double_buffer.Shard.{
  Shard, Side, header_offset, active_side, other, buffer, store_buffer,
}
use logger_double_buffer.ShardCollection
use logger_double_buffer.ShardCollection.{ShardCollection, store_shard}
use logger_double_buffer.Logger.{Logger, FileWriter, Statistics, add_int64}

-- The loads of the inflight count that the two calls of GetData make for a shard.
pub record Loads : Type 0 where
  pub first : List ℕ
  pub second : List ℕ

-- The durations that a flush measures, in nanoseconds.
pub record Timing : Type 0 where
  pub semaphore_wait : ℕ
  pub writing : ℕ
  pub flushing : ℕ

abbrev pub millisecond : ℕ
millisecond = 1_000_000

-- The header in the first eight bytes: the capacity, and the bytes of valid data. The slice that
-- GetData returned is the buffer itself, so the buffer changes too.
unfoldable pub with_header : ℕ → ℕ → Bytes → Bytes
with_header capacity valid buf = u32 capacity ++ (u32 valid ++ drop header_offset buf)

-- int32 subtraction, and the guard against a negative result
unfoldable pub valid_bytes : ℕ → ℕ
valid_bytes offset =
    let d = (offset + 2 ^ 32 - header_offset) % 2 ^ 32 in if is_negative d then 0 else d

-- One of the two halves of the collecting loop: the inactive buffer of a shard, with its header.
unfoldable pub collect : Shard → List ℕ → Option (List Bytes × Shard)
unfolding with_header valid_bytes
collect s loads = Shard.get_data s loads >>= λ r.
    let x = other (active_side s.active) in
    let offset = Shard.get_inactive_offset s in
    let headed = with_header s.capacity (valid_bytes offset) in
    if length r.0 == 0
    then some ([], s)
    else if Int32.gt offset header_offset
    then (if leb header_offset (length r.0)
        then some (headed r.0 ∷ [], store_buffer x (headed (buffer x s)) s)
        else some ([], s))
    else some ([], s)

abbrev pub collect_inactive : Shard → List ℕ → Option (List Bytes × Shard)
collect_inactive s loads = if Shard.has_data s then collect s loads else some ([], s)

abbrev pub collect_active : Shard → List ℕ → Option (List Bytes × Shard)
collect_active s loads =
    if Int32.gt (Shard.offset s) header_offset
    then collect (Shard.try_swap s) loads
    else some ([], s)

-- Both halves, for one shard.
unfoldable pub collect_shard : Shard → Loads → Option (List Bytes × Shard)
unfolding collect
collect_shard s loads = collect_inactive s loads.first >>= λ r.
    collect_active r.1 loads.second >>= λ q. some (r.0 ++ q.0, q.1)

-- The shards of the list in their order: the buffers to write, the shards to reset, and the
-- collection with the headers in place.
unfoldable pub collect_all :
    ShardCollection → (ℕ → Loads) → List ℕ → Option (List Bytes × List ℕ × ShardCollection)
unfolding collect_shard
collect_all sc loads [] = some ([], [], sc)
collect_all sc loads (i ∷ ready) = do
  shard ← get_elem? sc.shards i
  (blocks, shard') ← collect_shard shard (loads i)
  (more, to_reset, sc') ← collect_all (store_shard sc i shard') loads ready
  some (blocks ++ more, (if length blocks == 0 then to_reset else i ∷ to_reset), sc')

-- Resetting the shards that were flushed.
unfoldable pub reset_shards : ShardCollection → List ℕ → Option ShardCollection
reset_shards sc [] = some sc
reset_shards sc (i ∷ is) = do
  shard ← get_elem? sc.shards i
  reset_shards (store_shard sc i (Shard.reset_enhanced shard)) is

-- The loop that raises an atomic maximum.
abbrev pub raise_max : ℕ → ℕ → ℕ
raise_max current d = if leb d current then current else d

-- The counters of the batched write.
unfoldable pub count_write : Statistics → ℕ → ℕ → Bool → Statistics
count_write st writing pwritev failed = record st {
  total_write_duration = add_int64 st.total_write_duration writing;
  max_write_duration = raise_max st.max_write_duration writing;
  total_pwritev_duration =
      if ltb 0 pwritev
      then add_int64 st.total_pwritev_duration pwritev
      else st.total_pwritev_duration;
  max_pwritev_duration =
      if ltb 0 pwritev then raise_max st.max_pwritev_duration pwritev else st.max_pwritev_duration;
  flush_errors = if failed then add_int64 st.flush_errors 1 else st.flush_errors;
  flushes = if failed then st.flushes else add_int64 st.flushes 1;
}

unfoldable pub count_flush : Statistics → Timing → Statistics
count_flush st t = record st {
  blocked_swaps =
      if ltb millisecond t.semaphore_wait then add_int64 st.blocked_swaps 1 else st.blocked_swaps;
  total_flush_duration = add_int64 st.total_flush_duration t.flushing;
  max_flush_duration = raise_max st.max_flush_duration t.flushing;
}

module _ {W : Type 0} (fw : FileWriter W) where
  -- The batched write, if there is anything to write.
  unfoldable pub write_batch : Logger W → Timing → List Bytes → Logger W
  unfolding count_write
  write_batch l t [] = l
  write_batch l t (b ∷ bs) =
      let r = fw.write_vectored l.file_writer (b ∷ bs) in
      record l {
        file_writer = r.0;
        stats = count_write l.stats t.writing (fw.get_last_pwritev_duration r.0) r.2;
      }

  -- flushShardsEnhanced. The queue depth goes up and down again.
  unfoldable pub flush_shards : Logger W → Timing → (ℕ → Loads) → List ℕ → Option (Logger W)
  unfolding write_batch collect_all reset_shards count_flush
  flush_shards l t loads ready = collect_all l.collection loads ready >>= λ c.
      let written = write_batch (record l { collection = c.2 }) t c.0 in
      reset_shards written.collection c.1 >>= λ sc. some (record written {
        collection = ShardCollection.reset_ready_shards sc;
        stats = count_flush written.stats t;
      })
