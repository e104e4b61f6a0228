-- ===== src/Logger.antt =====
-- asyncloguploader/logger.go: the logger over a shard collection and a file writer. `Flush` below
-- collects and writes shards, `Worker` has the flush worker, the ticker and Close.
-- The goroutines' steps run one after another here. What the surroundings decide is an argument:
-- the shard that is picked, whether the semaphore is acquired in time, the inflight counts that
-- GetData loads, and the durations measured.
pub mod Flush
pub mod Blocks
pub mod Halves
pub mod Resets
pub mod Batch
pub mod Worker
pub mod Accounting
pub mod Queue
mod Tests
use logger_double_buffer.Base.{
  ℕ, ◌+◌, ◌%◌, ◌^◌, ◌≡◌, Bool, true, false, Option, none, some, List, [], ◌∷◌, ltb, leb, ◌==◌,
  if◌then◌else◌, ◌>>=◌, set,
}
use logger_double_buffer.Base.Int.{ℤ, pos, negsuc, pos_part}
use logger_double_buffer.Base.Bytes.{Bytes}
use logger_double_buffer.Shard
use logger_double_buffer.Shard.{Shard}
use logger_double_buffer.ShardCollection
use logger_double_buffer.ShardCollection.{ShardCollection, store_shard}

-- Statistics; the counters are int64.
pub record Statistics : Type 0 where
  pub total_logs : ℕ
  pub dropped_logs : ℕ
  pub bytes_written : ℕ
  pub flushes : ℕ
  pub flush_errors : ℕ
  pub total_flush_duration : ℕ
  pub max_flush_duration : ℕ
  pub flush_queue_depth : ℕ
  pub blocked_swaps : ℕ
  pub total_write_duration : ℕ
  pub max_write_duration : ℕ
  pub total_pwritev_duration : ℕ
  pub max_pwritev_duration : ℕ

-- atomic.Int64.Add
abbrev pub add_int64 : ℕ → ℕ → ℕ
add_int64 n d = (n + d) % 2 ^ 64

-- The FileWriter interface, over the writer's state: the bytes written and whether there was an
-- error.
pub record FileWriter (W : Type 0) : Type 0 where
  pub write_vectored : W → List Bytes → W × ℕ × Bool
  pub get_last_pwritev_duration : W → ℕ
  pub close : W → W × Bool

pub record Logger (W : Type 0) : Type 0 where
  pub collection : ShardCollection
  pub file_writer : W
  pub stats : Statistics
  pub closed : Bool

abbrev pub count_attempt : Statistics → Statistics
count_attempt st = record st { total_logs = add_int64 st.total_logs 1 }

abbrev pub count_drop : Statistics → Statistics
count_drop st = record st { dropped_logs = add_int64 st.dropped_logs 1 }

abbrev pub count_bytes : ℕ → Statistics → Statistics
count_bytes n st = record st { bytes_written = add_int64 st.bytes_written n }

-- The end of a write attempt that took `n` bytes, after the last retry.
abbrev pub count_final : ℕ → Statistics → Statistics
count_final n st = if n == 0 then count_drop st else count_bytes n st

-- After a first retry that failed: `shard.trySwap()` if a flush is needed.
pub swap_if : Bool → Shard → Shard
swap_if needs_flush s = if needs_flush then Shard.try_swap s else s

-- Inside the per-shard semaphore: write again, swap, and write once more.
pub retry_shard : Shard → Bytes → Option (ℕ × Shard)
unfolding swap_if
retry_shard s p = do
  (n, needs_flush, s1) ← Shard.write s p
  elim (ltb 0 n) [
    | true ↦ some (n, s1)
    | false ↦ do (n', flush', s2) ← Shard.write (swap_if needs_flush s1) p; some (n', s2)
  ]

module _ {W : Type 0} where
  abbrev pub with_stats : (Statistics → Statistics) → Logger W → Logger W
  with_stats f l = record l { stats = f l.stats }

  -- The semaphore branch of LogBytes, on the shard that the first attempt chose.
  unfoldable pub retry_log : Logger W → ℤ → Bytes → Bool → Option (Logger W)
  unfolding retry_shard
  retry_log l shard_id p acquired = elim (ShardCollection.get_shard l.collection shard_id) [
    | none ↦ some (with_stats count_drop l)
    | some shard ↦
        if acquired
        then (retry_shard shard p >>= λ r. some (record l {
          collection = store_shard l.collection (pos_part shard_id) r.1;
          stats = count_final r.0 l.stats;
        }))
        else some (with_stats count_drop l)
  ]

  -- LogBytes
  unfoldable pub log_bytes : Logger W → ℕ → Bool → Bytes → Option (Logger W)
  unfolding retry_log
  log_bytes l pick acquired p =
      let attempted = with_stats count_attempt l in
      if l.closed
      then some (with_stats count_drop attempted)
      else (ShardCollection.write l.collection pick p >>= λ r.
          let written = record attempted { collection = r.3 } in
          if ltb 0 r.0
          then some (with_stats (count_bytes r.0) written)
          else retry_log written r.2 p acquired)
