-- ===== src/Logger/Tests.antt =====
-- Runs of a logger over two small shards, and a writer that counts what it writes.
use logger_double_buffer.Base.{ℕ, suc, ◌≡◌, refl, true, false, some, List, [], ◌∷◌, arith, length}
use logger_double_buffer.Base.Bytes.{Bytes}
use logger_double_buffer.Base.Int32
use logger_double_buffer.Shard
use logger_double_buffer.Shard.{Shard, Side, header_offset, reset_enhanced, offset_of}
use logger_double_buffer.Shard.Invariant.{IsValid}
use logger_double_buffer.Shard.Contents.{Messages, Represents}
use logger_double_buffer.Shard.Tests.{
  blank, hello, hello-filled, greeted, one_message, greeted-IsValid, greeted-Represents,
}
use logger_double_buffer.ShardCollection
use logger_double_buffer.ShardCollection.{ShardCollection}
use logger_double_buffer.ShardCollection.Writes.{Held}
use logger_double_buffer.ShardCollection.Tests.{pair, held, pair-Held, pair-Fits}
use logger_double_buffer.Logger.{Logger, Statistics, FileWriter, log_bytes}
use logger_double_buffer.Logger.Accounting.{Accounted, log_bytes-Accounted}
use logger_double_buffer.Logger.Flush.{Loads, Timing, collect_shard}
use logger_double_buffer.Logger.Blocks.{AllCarry}
use logger_double_buffer.Logger.Halves.{collect_shard_lem}
use logger_double_buffer.Logger.Flush.{flush_shards}
use logger_double_buffer.Logger.Resets.{Collected, clear_all}
use logger_double_buffer.Logger.Batch.{written, flush_shards_lem}
use logger_double_buffer.Logger.Worker.{
  in_list, add_all, close, drain_flush_channel, prepare_from, prepare, holds_data, final_flush,
}
use logger_double_buffer.Logger.Queue.{Unique}

abbrev zeros : Statistics
zeros = record {
  total_logs = 0;
  dropped_logs = 0;
  bytes_written = 0;
  flushes = 0;
  flush_errors = 0;
  total_flush_duration = 0;
  max_flush_duration = 0;
  flush_queue_depth = 0;
  blocked_swaps = 0;
  total_write_duration = 0;
  max_write_duration = 0;
  total_pwritev_duration = 0;
  max_pwritev_duration = 0;
}

abbrev logger : Logger ℕ
logger = record { collection = pair; file_writer = 0; stats = zeros; closed = false }

abbrev writer : FileWriter ℕ
writer = record {
  write_vectored = λ n buffers. (suc n, length buffers, false);
  get_last_pwritev_duration = λ n. 5;
  close = λ n. (n, false);
}

abbrev loads : Loads
loads = record { first = 0 ∷ []; second = 1 ∷ 0 ∷ [] }

abbrev timing : Timing
timing = record { semaphore_wait = 1; writing = 2; flushing = 3 }

log_bytes-Accounted_example :
    (l' : Logger ℕ) × (ms' : List Messages) × (log_bytes logger 0 true hello ≡ some l')
    × Held l'.collection.shards ms'
    × Accounted hello 0 zeros l'.stats held ms'
log_bytes-Accounted_example =
    log_bytes-Accounted logger held 0 true hello pair-Held refl (omega arith) pair-Fits hello-filled
      refl

collect_shard_lem_example :
    (bs : List Bytes) × (t : Shard) × (collect_shard greeted loads ≡ some (bs, t))
    × AllCarry 64 ((hello ∷ []) ∷ []) bs
    × IsValid t
    × IsValid (reset_enhanced t)
    × Represents (reset_enhanced t) (record { on_a = []; on_b = [] })
collect_shard_lem_example =
    collect_shard_lem greeted one_message loads greeted-IsValid greeted-Represents

both : Unique (0 ∷ 1 ∷ [])
unfolding in_list
both = (refl, (refl, tt))

flush_shards_lem_example :
    (bs : List Bytes) × (l' : Logger ℕ) × (flush_shards writer logger timing
        (λ i. loads)
        (0 ∷ 1 ∷ [])
      ≡ some l')
    × Collected pair.shards held (0 ∷ 1 ∷ []) bs
    × (l'.file_writer ≡ written writer 0 bs)
    × Held l'.collection.shards (clear_all (0 ∷ 1 ∷ []) held)
flush_shards_lem_example =
    flush_shards_lem writer logger held timing (λ i. loads) (0 ∷ 1 ∷ []) pair-Held both
      (omega arith, (omega arith, tt))

asked : in_list 2 (1 ∷ 2 ∷ 1 ∷ []) ≡ true
unfolding in_list
asked = refl

alone : Unique (3 ∷ [])
unfolding in_list
alone = (refl, tt)

abbrev idle : Logger ℕ
idle = record logger { collection = record pair { shards = blank 64 ∷ [] } }

abbrev closed_logger : Logger ℕ
closed_logger = record idle { closed = true; collection = ShardCollection.close (idle.collection) }

closing : close writer idle timing (λ i. loads) ≡ some (false, closed_logger)
unfolding close drain_flush_channel final_flush prepare_from prepare holds_data add_all Shard.offset
    Shard.has_data Int32.gt ShardCollection.close
closing = refl
