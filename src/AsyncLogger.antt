-- ===== src/AsyncLogger.antt =====
-- asynclogger/logger.go: the logger over two buffer sets, of which one is active. The goroutines'
-- calls run one after another here, so that a compare-and-swap succeeds. What the surroundings decide
-- is an argument: whether the semaphore is acquired in time, the counters that GetData loads, and the
-- durations measured. `Flush` below has flushSet, the workers and Close.
pub mod Flush
pub mod Untouched
pub mod Messages
pub mod History
pub mod Build
mod Tests
pub mod Outcomes
pub mod Accounting
pub mod Swaps
pub mod Batches
pub mod Drains
pub mod Closing
pub mod Sets
pub mod Collects
use logger_double_buffer.Base.{
  ℕ, ◌+◌, ◌%◌, ◌^◌, Bool, true, false, ◌&&◌, Option, none, some, List, [], ◌∷◌, ◌++◌, ltb, leb,
  ◌==◌, if◌then◌else◌, ◌>>=◌, length,
}
use logger_double_buffer.Base.Int.{ℤ}
use logger_double_buffer.Base.Bytes.{Bytes}
use logger_double_buffer.BufferSet
use logger_double_buffer.BufferSet.{BufferSet, new_buffer_set}

-- Statistics; the counters are int64.
pub record Statistics : Type 0 where
  pub total_logs : ℕ
  pub dropped_logs : ℕ
  pub bytes_written : ℕ
  pub flushes : ℕ
  pub flush_errors : ℕ
  pub set_swaps : ℕ
  pub total_flush_duration : ℕ
  pub max_flush_duration : ℕ
  pub flush_queue_depth : ℕ
  pub blocked_swaps : ℕ
  pub total_write_duration : ℕ
  pub max_write_duration : ℕ
  pub total_pwritev_duration : ℕ
  pub max_pwritev_duration : ℕ

-- A pointer to one of the two sets.
pub data Which : Type 0 where
  a b : Which

abbrev pub other : Which → Which
other Which.a = Which.b
other Which.b = Which.a

pub record Logger (W : Type 0) : Type 0 where
  pub set_a : BufferSet
  pub set_b : BufferSet
  pub active : Which
  pub file_writer : W
  pub flush_chan : List Which
  pub next_id : ℕ
  pub swapping : Bool
  pub closed : Bool
  pub stats : Statistics

abbrev pub flush_chan_size : ℕ
flush_chan_size = 2

abbrev pub no_statistics : Statistics
no_statistics = record {
  total_logs = 0;
  dropped_logs = 0;
  bytes_written = 0;
  flushes = 0;
  flush_errors = 0;
  set_swaps = 0;
  total_flush_duration = 0;
  max_flush_duration = 0;
  flush_queue_depth = 0;
  blocked_swaps = 0;
  total_write_duration = 0;
  max_write_duration = 0;
  total_pwritev_duration = 0;
  max_pwritev_duration = 0;
}

-- atomic.Int64.Add
abbrev pub add_int64 : ℕ → ℕ → ℕ
add_int64 n d = (n + d) % 2 ^ 64

abbrev pub count_attempt : Statistics → Statistics
count_attempt st = record st { total_logs = add_int64 st.total_logs 1 }

abbrev pub count_drop : Statistics → Statistics
count_drop st = record st { dropped_logs = add_int64 st.dropped_logs 1 }

abbrev pub count_swap : Statistics → Statistics
count_swap st = record st { set_swaps = add_int64 st.set_swaps 1 }

-- A send that does not block: a full channel loses the request.
abbrev pub try_send : Which → List Which → List Which
try_send x queue = if ltb (length queue) flush_chan_size then queue ++ x ∷ [] else queue

module _ {W : Type 0} where
  abbrev pub set_of : Which → Logger W → BufferSet
  set_of Which.a l = l.set_a
  set_of Which.b l = l.set_b

  abbrev pub store_set : Which → BufferSet → Logger W → Logger W
  store_set Which.a bs l = record l { set_a = bs }
  store_set Which.b bs l = record l { set_b = bs }

  abbrev pub with_stats : (Statistics → Statistics) → Logger W → Logger W
  with_stats f l = record l { stats = f l.stats }

  -- New, once the configuration is valid and the file writer is open.
  unfoldable pub new_logger : (Which → ℕ → ℕ) → ℤ → ℤ → W → Option (Logger W)
  new_logger addr buffer_size num_shards w = do
    set_a ← new_buffer_set (addr Which.a) buffer_size num_shards 0
    set_b ← new_buffer_set (addr Which.b) buffer_size num_shards 1
    some (record {
      set_a = set_a;
      set_b = set_b;
      active = Which.a;
      file_writer = w;
      flush_chan = [];
      next_id = 2;
      swapping = false;
      closed = false;
      stats = no_statistics;
    })

  -- The set that trySwap takes for the next one: the ids are compared, not the pointers.
  abbrev pub next_set : Logger W → Which
  next_set l = if (set_of l.active l).id == l.set_a.id then Which.b else Which.a

  -- trySwap past the guard, up to the release of the guard.
  abbrev pub swap_to : Which → Logger W → Logger W
  swap_to next l =
      let id = (l.next_id + 1) % 2 ^ 32 in
      let tagged =
        store_set next (record (set_of next l) { id = id }) (record l { next_id = id }) in
      record tagged {
        active = next;
        flush_chan = try_send l.active l.flush_chan;
        stats = count_swap l.stats;
      }

  -- trySwap
  unfoldable pub try_swap : Logger W → Logger W
  try_swap l = if l.swapping then l else swap_to (next_set l) l

  abbrev pub swap_if : Bool → Logger W → Logger W
  swap_if needs_flush l = if needs_flush then try_swap l else l

  -- activeSet.Write: the bytes taken, whether to flush, and the logger after it.
  abbrev pub write_active : Logger W → Bytes → Option (ℕ × Bool × Logger W)
  write_active l p = BufferSet.write (set_of l.active l) p >>= λ (r : ℕ × Bool × ℤ × BufferSet).
      some (r.0, r.1, store_set l.active r.3 l)

  -- The last attempt of LogBytes.
  unfoldable pub last_attempt : Logger W → Bytes → Option (Logger W)
  last_attempt l p = write_active l p >>= λ (r : ℕ × Bool × Logger W).
      some (if r.0 == 0 then with_stats count_drop r.2 else r.2)

  -- The branch of LogBytes that holds a permit of the swap semaphore.
  unfoldable pub retry_log : Logger W → Bytes → Option (Logger W)
  unfolding last_attempt
  retry_log l p = write_active l p >>= λ (r : ℕ × Bool × Logger W). elim (ltb 0 r.0) [
    | true ↦ some (swap_if r.1 r.2)
    | false ↦ last_attempt (swap_if r.1 r.2) p
  ]

  -- LogBytes
  unfoldable pub log_bytes : Logger W → Bool → Bytes → Option (Logger W)
  unfolding retry_log
  log_bytes l acquired p =
      let attempted = with_stats count_attempt l in
      if l.closed
      then some (with_stats count_drop attempted)
      else (write_active attempted p >>= λ (r : ℕ × Bool × Logger W). elim (ltb 0 r.0) [
        | true ↦ some (swap_if r.1 r.2)
        | false ↦ if acquired then retry_log r.2 p else some (with_stats count_drop r.2)
      ])
