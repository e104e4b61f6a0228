-- ===== src/AsyncLogger/Tests.antt =====
-- A small logger whose file writer keeps what it is given, and the theorems at it.
use logger_double_buffer.Base.{
  ℕ, ◌+◌, ◌*◌, ◌≤◌, ◌≡◌, ◌≢◌, refl, Bool, true, false, some, List, [], ◌∷◌, ◌++◌, arith, replicate,
}
use logger_double_buffer.Base.Bytes.{Bytes, u32}
use logger_double_buffer.Logger.{FileWriter}
use logger_double_buffer.Base.{Option, none}
use logger_double_buffer.Logger.Flush.{Timing, with_header, valid_bytes}
use logger_double_buffer.BufferSet.Rounds.{SetHolds}
use logger_double_buffer.Base.Int32
use logger_double_buffer.Base.Bytes.{copy_range, write_at}
use logger_double_buffer.AsyncBuffer
use logger_double_buffer.BufferSet
use logger_double_buffer.AsyncBuffer.{Buffer}
use logger_double_buffer.BufferSet.{BufferSet}
use logger_double_buffer.BufferSet.Room.{Holds}
use logger_double_buffer.BufferSet.Batch.{none_of}
use logger_double_buffer.AsyncLogger.{
  Logger, Which, no_statistics, count_attempt, set_of, other, try_swap, log_bytes, new_logger,
}
use logger_double_buffer.AsyncLogger.Flush.{close, tick, receive}
use logger_double_buffer.AsyncLogger.History.{
  History, start, accepted, ticked, received, Conserved, History-Conserved,
}
use logger_double_buffer.AsyncLogger.Sets.{Contents, AllHold, capacities_of}
use logger_double_buffer.AsyncLogger.Swaps.{IsTagged, Swapped, try_swap-Swapped, swap_twice}
use logger_double_buffer.AsyncLogger.Outcomes.{Settled}
use logger_double_buffer.AsyncLogger.Accounting.{log_bytes-Settled}
use logger_double_buffer.Base.Int.{pos}
use logger_double_buffer.ShardCollection.{layout}
use logger_double_buffer.AsyncLogger.Build.{IsFresh, new_logger-IsFresh}
use logger_double_buffer.AsyncLogger.Batches.{Batches}
use logger_double_buffer.AsyncLogger.Drains.{Wrote}
use logger_double_buffer.AsyncLogger.Closing.{close_lem}

-- A disk that keeps the calls, and fails from the second one on.
abbrev fails_after : List (List Bytes) → Bool
fails_after [] = false
fails_after (call ∷ calls) = true

abbrev disk : FileWriter (List (List Bytes))
disk = record {
  write_vectored = λ calls xs. (calls ++ xs ∷ [], 64, fails_after calls);
  get_last_pwritev_duration = λ calls. 5;
  close = λ calls. (calls, false);
}

abbrev buffer_of : Bytes → ℕ → Buffer
buffer_of bytes offset = record {
  bytes = bytes;
  offset = offset;
  capacity = 64;
  id = 0;
  ready_for_flush = false;
  write_count = 0;
  writes_started = 0;
  writes_completed = 0;
}

abbrev set_with : ℕ → Buffer → BufferSet
set_with id b = record { shards = b ∷ []; num_shards = 1; id = id; counter = 0 }

abbrev greeting : Bytes
greeting = 1 ∷ 2 ∷ 3 ∷ []

abbrev greeted : Buffer
greeted = buffer_of (replicate 8 0 ++ 3 ∷ 0 ∷ 0 ∷ 0 ∷ 1 ∷ 2 ∷ 3 ∷ replicate 49 0) 15

abbrev blank : Buffer
blank = buffer_of (replicate 64 0) 8

-- The set b waits in the channel; the set a is active and holds a message.
abbrev sample : Logger (List (List Bytes))
sample = record {
  set_a = set_with 3 greeted;
  set_b = set_with 2 blank;
  active = Which.a;
  file_writer = [];
  flush_chan = Which.b ∷ [];
  next_id = 3;
  swapping = false;
  closed = false;
  stats = no_statistics;
}

abbrev sample_messages : Contents
sample_messages Which.a = (greeting ∷ []) ∷ []
sample_messages Which.b = [] ∷ []

greeted-Holds : Holds greeted (greeting ∷ [])
unfolding u32
greeted-Holds = record {
  whole = refl;
  low = omega arith;
  inside = omega arith;
  small = omega arith;
  content = refl;
}

blank-Holds : Holds blank []
blank-Holds = record {
  whole = refl;
  low = omega arith;
  inside = omega arith;
  small = omega arith;
  content = refl;
}

sample-AllHold : AllHold 100 sample sample_messages
sample-AllHold Which.a = record {
  held = (greeted-Holds, omega arith, tt);
  counted = refl;
  enough = omega arith;
}
sample-AllHold Which.b = record {
  held = (blank-Holds, omega arith, tt);
  counted = refl;
  enough = omega arith;
}

greeting-full : greeting ≢ []
greeting-full e = absurd (cc)

sample-distinct : sample.set_a.id ≢ sample.set_b.id
sample-distinct e = absurd (omega arith)

idle_sample-IsTagged : IsTagged (record sample { flush_chan = [] })
idle_sample-IsTagged = record {
  distinct = sample-distinct;
  below = λ x. elim x as (λ k. (set_of k (record sample { flush_chan = [] })).id ≤ 3) [
    | Which.a ↦ omega arith
    | Which.b ↦ omega arith
  ];
}

log_bytes-Settled_example :
    Settled 100 greeting
      (count_attempt sample.stats)
      sample_messages
      (log_bytes sample true greeting)
log_bytes-Settled_example =
    log_bytes-Settled 100 greeting (omega arith) greeting-full sample sample_messages true
      sample-AllHold refl

close_lem_example :
    (bs : List Bytes) × (u : List (List Bytes)) × (l' : Logger (List (List Bytes))) × (close disk
        sample
        (record { semaphore_wait = 7; writing = 8; flushing = 9 })
        (λ i. [])
      ≡ some ((disk.close u).1, l'))
    × Batches
        (λ x. capacities_of x sample)
        sample_messages
        (sample.flush_chan ++ sample.active ∷ other sample.active ∷ [])
        bs
    × Wrote disk sample.file_writer bs u
    × (l'.file_writer ≡ (disk.close u).0)
    × AllHold 100 l' (λ x. none_of (sample_messages x))
close_lem_example =
    close_lem disk 100 (record { semaphore_wait = 7; writing = 8; flushing = 9 }) (λ i. []) sample
      sample_messages sample-AllHold sample-distinct refl

try_swap-Swapped_example :
    Swapped
      (record sample { flush_chan = [] })
      (try_swap (record sample { flush_chan = [] }))
      Which.b
try_swap-Swapped_example =
    try_swap-Swapped (record sample { flush_chan = [] }) idle_sample-IsTagged refl (omega arith)

swap_twice_example :
    ((try_swap (try_swap (record sample { flush_chan = [] }))).active ≡ Which.a)
    × ((try_swap (try_swap (record sample { flush_chan = [] }))).flush_chan
        ≡ Which.a ∷ Which.b ∷ [])
    × ((set_of Which.a (try_swap (try_swap (record sample { flush_chan = [] })))).shards
        ≡ greeted ∷ [])
swap_twice_example =
    swap_twice (record sample { flush_chan = [] }) idle_sample-IsTagged refl refl (omega arith)

layout_small : layout (pos 600_000) (pos 4) ≡ some (150_000, 4)
unfolding layout
layout_small = refl

new_logger-IsFresh_example :
    (l : Logger (List (List Bytes))) × (new_logger (λ x i. 4096 * i + 512) (pos 600_000) (pos 4) []
      ≡ some l)
    × IsFresh 1000 4 [] l
new_logger-IsFresh_example =
    new_logger-IsFresh (λ x i. 4096 * i + 512) (pos 600_000) (pos 4) [] 1000 150_000 4 layout_small
      (omega arith)

-- A new logger with small buffers, and a life of it: a message, a tick and a flush.
abbrev small_logger : Logger (List (List Bytes))
small_logger = record {
  set_a = set_with 0 blank;
  set_b = set_with 1 blank;
  active = Which.a;
  file_writer = [];
  flush_chan = [];
  next_id = 2;
  swapping = false;
  closed = false;
  stats = no_statistics;
}

small_logger-IsFresh : IsFresh 100 1 [] small_logger
small_logger-IsFresh = record {
  holds = λ x. elim x as (λ k. SetHolds 100 (set_of k small_logger) ([] ∷ [])) [
    | Which.a ↦ record {
      held = (blank-Holds, omega arith, tt);
      counted = refl;
      enough = omega arith;
    }
    | Which.b ↦ record {
      held = (blank-Holds, omega arith, tt);
      counted = refl;
      enough = omega arith;
    }
  ];
  tagged = record {
    distinct = λ e. omega arith;
    below = λ x. elim x as (λ k. (set_of k small_logger).id ≤ 2) [
      | Which.a ↦ omega arith
      | Which.b ↦ omega arith
    ];
  };
  opened = refl;
  free = refl;
  idle = refl;
  writer = refl;
}

abbrev timing : Timing
timing = record { semaphore_wait = 7; writing = 8; flushing = 9 }

abbrev or_small : Option (Logger (List (List Bytes))) → Logger (List (List Bytes))
or_small none = small_logger
or_small (some l) = l

abbrev logged : Logger (List (List Bytes))
logged = or_small (log_bytes small_logger true greeting)

abbrev written_out : Logger (List (List Bytes))
written_out = or_small (receive disk (tick logged) timing (λ i. []))

written_out-History : History disk 100 small_logger written_out (greeting ∷ [])
unfolding log_bytes tick receive BufferSet.write AsyncBuffer.write Int32.ge Int32.add copy_range
    write_at u32 Int32.nine_tenths BufferSet.has_data AsyncBuffer.has_data Int32.gt try_swap
    AsyncBuffer.get_data
written_out-History =
    received timing (λ i. [])
      (ticked (accepted greeting true start (omega arith) greeting-full refl refl refl)) refl

-- The writer got one block, with the message behind the header.
written_out-block :
    written_out.file_writer
    ≡ ((64 ∷ 0 ∷ 0 ∷ 0 ∷ 7 ∷ 0 ∷ 0 ∷ 0 ∷ 3 ∷ 0 ∷ 0 ∷ 0 ∷ 1 ∷ 2 ∷ 3 ∷ replicate 49 0) ∷ []) ∷ []
unfolding log_bytes tick receive BufferSet.write AsyncBuffer.write Int32.ge Int32.add copy_range
    write_at u32 Int32.nine_tenths BufferSet.has_data AsyncBuffer.has_data Int32.gt try_swap
    AsyncBuffer.get_data with_header valid_bytes
written_out-block = refl

History-Conserved_example : Conserved disk 100 [] written_out (greeting ∷ [])
History-Conserved_example =
    History-Conserved disk 100 [] 1 small_logger written_out (greeting ∷ []) small_logger-IsFresh
      written_out-History
