-- ===== src/AsyncLogger/Flush.antt =====
-- asynclogger/logger.go: flushSet, the flush worker, the ticker and Close.
use logger_double_buffer.Base.{
  ℕ, ◌+◌, Bool, true, false, Option, none, some, List, [], ◌∷◌, ◌++◌, ltb, leb, ◌==◌, if◌then◌else◌,
  ◌>>=◌, length,
}
use logger_double_buffer.Base.Int32
use logger_double_buffer.Base.Bytes.{Bytes}
use logger_double_buffer.Logger.{FileWriter}
use logger_double_buffer.Logger.Flush.{with_header, valid_bytes, raise_max, Timing, millisecond}
use logger_double_buffer.AsyncBuffer
use logger_double_buffer.AsyncBuffer.{Buffer}
use logger_double_buffer.BufferSet
use logger_double_buffer.BufferSet.{BufferSet}
use logger_double_buffer.AsyncLogger.{
  Logger, Which, Statistics, set_of, store_set, with_stats, add_int64, try_swap,
}

-- One round of the collecting loop: the buffer with its header put in place, if it has data.
unfoldable pub collect : Buffer → List (ℕ × ℕ) → Option (List Bytes × Buffer)
collect b loads =
    if Int32.gt b.offset 8
    then (AsyncBuffer.get_data b loads >>= λ (r : Bytes × Bool).
        if leb 8 (length r.0)
        then some (
          with_header b.capacity (valid_bytes b.offset) r.0 ∷ [],
          record b { bytes = with_header b.capacity (valid_bytes b.offset) b.bytes },
        )
        else none)
    else some ([], b)

-- The loop, over the shards `i`, `i + 1`, ...; `loads i` is what GetData loads for shard `i`.
unfoldable pub collect_all :
    (ℕ → List (ℕ × ℕ)) → ℕ → List Buffer → Option (List Bytes × List Buffer)
unfolding collect
collect_all loads i [] = some ([], [])
collect_all loads i (b ∷ bs) = do
  (blocks, b') ← collect b (loads i)
  (more, bs') ← collect_all loads (i + 1) bs
  some (blocks ++ more, b' ∷ bs')

-- The counters of the batched write.
unfoldable pub count_write : Statistics → ℕ → ℕ → ℕ → Bool → Statistics
count_write st n writing pwritev failed = record st {
  total_write_duration = add_int64 st.total_write_duration writing;
  max_write_duration = raise_max st.max_write_duration writing;
  total_pwritev_duration =
      if ltb 0 pwritev
      then add_int64 st.total_pwritev_duration pwritev
      else st.total_pwritev_duration;
  max_pwritev_duration =
      if ltb 0 pwritev then raise_max st.max_pwritev_duration pwritev else st.max_pwritev_duration;
  flush_errors = if failed then add_int64 st.flush_errors 1 else st.flush_errors;
  bytes_written = if failed then st.bytes_written else add_int64 st.bytes_written n;
  flushes = if failed then st.flushes else add_int64 st.flushes 1;
}

unfoldable pub count_flush : Statistics → Timing → Statistics
count_flush st t = record st {
  blocked_swaps =
      if ltb millisecond t.semaphore_wait then add_int64 st.blocked_swaps 1 else st.blocked_swaps;
  total_flush_duration = add_int64 st.total_flush_duration t.flushing;
  max_flush_duration = raise_max st.max_flush_duration t.flushing;
}

module _ {W : Type 0} where
  -- A tick: a swap, if the active set has data.
  unfoldable pub tick : Logger W → Logger W
  tick l = if BufferSet.has_data (set_of l.active l) then try_swap l else l

module _ {W : Type 0} (fw : FileWriter W) where
  -- The batched write, if there is anything to write.
  unfoldable pub write_batch : Logger W → Timing → List Bytes → Logger W
  unfolding count_write
  write_batch l t [] = l
  write_batch l t (x ∷ xs) =
      let r = fw.write_vectored l.file_writer (x ∷ xs) in
      record l {
        file_writer = r.0;
        stats = count_write l.stats r.1 t.writing (fw.get_last_pwritev_duration r.0) r.2;
      }

  -- flushSet. The queue depth goes up and down again.
  unfoldable pub flush_set : Logger W → Timing → (ℕ → List (ℕ × ℕ)) → Which → Option (Logger W)
  unfolding collect_all write_batch count_flush
  flush_set l t loads x =
      collect_all loads 0 (set_of x l).shards >>= λ (c : List Bytes × List Buffer).
      let written = write_batch l t c.0 in
      some (
        with_stats (λ st. count_flush st t)
          (store_set x (BufferSet.reset (record (set_of x written) { shards = c.1 })) written))

  -- The worker receives the set at the head of the channel.
  unfoldable pub receive : Logger W → Timing → (ℕ → List (ℕ × ℕ)) → Option (Logger W)
  unfolding flush_set
  receive l t loads = elim l.flush_chan [
    | [] ↦ some l
    | x ∷ queue ↦ flush_set (record l { flush_chan = queue }) t loads x
  ]

  -- drainFlushChannel, with the sets that wait in the channel.
  unfoldable pub drain_from :
      Logger W → Timing → (ℕ → List (ℕ × ℕ)) → List Which → Option (Logger W)
  unfolding flush_set
  drain_from l t loads [] = some (record l { flush_chan = [] })
  drain_from l t loads (x ∷ queue) =
      flush_set (record l { flush_chan = queue }) t loads x >>= λ l'. drain_from l' t loads queue

  -- Close's flush of one set, if it has data.
  unfoldable pub flush_rest : Logger W → Timing → (ℕ → List (ℕ × ℕ)) → Which → Option (Logger W)
  unfolding flush_set
  flush_rest l t loads x = if BufferSet.has_data (set_of x l) then flush_set l t loads x else some l

  -- The set that Close takes for the inactive one: the ids are compared.
  abbrev pub inactive_set : Logger W → Which
  inactive_set l = if (set_of l.active l).id == l.set_a.id then Which.b else Which.a

  -- The flushes of Close itself: the active set, and the other one.
  unfoldable pub final_flushes : Logger W → Timing → (ℕ → List (ℕ × ℕ)) → Option (Logger W)
  unfolding flush_rest
  final_flushes l t loads =
      flush_rest l t loads l.active >>= λ first. flush_rest first t loads (inactive_set first)

  -- Close, with the worker's drain before its own flushes; the Boolean is the writer's error. A
  -- second call does nothing.
  unfoldable pub close : Logger W → Timing → (ℕ → List (ℕ × ℕ)) → Option (Bool × Logger W)
  unfolding drain_from final_flushes
  close l t loads =
      if l.closed
      then some (false, l)
      else (drain_from (record l { closed = true }) t loads l.flush_chan >>= λ drained.
          final_flushes drained t loads >>= λ flushed.
          let closed_writer = fw.close flushed.file_writer in
          some (closed_writer.1, record flushed { file_writer = closed_writer.0 }))
