-- ===== src/AsyncBuffer.antt =====
-- asynclogger/buffer.go: one buffer, written by many goroutines, and asynclogger/shard.go, which
-- passes every call on to it. Here each operation runs alone, so that a compare-and-swap succeeds;
-- AsyncBuffer/Steps has the operations of several writers interleaved. A Go panic is `none`.
pub mod Steps
pub mod Slices
pub mod Layout
pub mod Moves
pub mod Puts
pub mod Known
pub mod Order
pub mod Linear
pub mod Fresh
pub mod Runs
pub mod Schedules
pub mod Tests
pub mod Alone
use logger_double_buffer.Base.{
  ℕ, zero, suc, ◌+◌, ◌-◌, ◌*◌, ◌/◌, ◌%◌, ◌^◌, ◌≡◌, Bool, true, false, ◌&&◌, not, Option, none, some,
  List, [], ◌∷◌, ltb, leb, ◌==◌, if◌then◌else◌, ◌>>=◌, length, take, drop, replicate,
}
use logger_double_buffer.Base.Int32
use logger_double_buffer.Base.Int32.{int32, is_negative}
use logger_double_buffer.Base.Bytes.{Bytes, u32, copy_range}

pub record Buffer : Type 0 where
  pub bytes : Bytes
  pub offset : ℕ
  pub capacity : ℕ
  pub id : ℕ
  pub ready_for_flush : Bool
  pub write_count : ℕ
  pub writes_started : ℕ
  pub writes_completed : ℕ

abbrev pub alignment_size : ℕ
alignment_size = 4096

-- alignSize
unfoldable pub align_size : ℕ → ℕ
align_size size = (size + alignment_size - 1) / alignment_size * alignment_size

-- The offset of allocAlignedBuffer into its allocation, which starts at the address `addr`.
abbrev pub aligned_start : ℕ → ℕ
aligned_start addr =
    let offset = alignment_size - addr % alignment_size in
    if offset == alignment_size then 0 else offset

-- allocAlignedBuffer
unfoldable pub alloc_aligned_buffer : ℕ → ℕ → Bytes
unfolding align_size
alloc_aligned_buffer addr size =
    take (align_size size)
      (drop (aligned_start addr) (replicate (align_size size + alignment_size) 0))

-- NewBuffer
unfoldable pub new_buffer : ℕ → ℕ → ℕ → Buffer
unfolding alloc_aligned_buffer align_size
new_buffer addr capacity id = record {
  bytes = alloc_aligned_buffer addr (align_size (capacity + 8));
  offset = 8;
  capacity = int32 (align_size (capacity + 8));
  id = id;
  ready_for_flush = false;
  write_count = 0;
  writes_started = 0;
  writes_completed = 0;
}

-- atomic.Int64.Add(1)
abbrev pub increment : ℕ → ℕ
increment n = (n + 1) % 2 ^ 64

abbrev pub length_prefix_size : ℕ
length_prefix_size = 4

-- int32(totalSize)
abbrev pub total_size : Bytes → ℕ
total_size p = int32 (length_prefix_size + length p)

-- The two copies of Write: the length prefix at `current`, and the payload up to `new_offset`.
abbrev pub put_prefix : Bytes → ℕ → Bytes → Option Bytes
put_prefix bytes current p =
    copy_range bytes current (Int32.add current length_prefix_size) (u32 (length p))

abbrev pub put_payload : Bytes → ℕ → ℕ → Bytes → Option Bytes
put_payload bytes current new_offset p =
    copy_range bytes (Int32.add current length_prefix_size) new_offset p

-- The counters that a write raises.
abbrev pub start : Buffer → Buffer
start b = record b { writes_started = increment b.writes_started }

abbrev pub complete : Buffer → Buffer
complete b = record b { writes_completed = increment b.writes_completed }

abbrev pub tally : Buffer → Buffer
tally b = record b { write_count = increment b.write_count }

-- The end of Write.
abbrev pub nearly_full : Buffer → ℕ → Bool
nearly_full b new_offset = Int32.ge new_offset (Int32.nine_tenths b.capacity)

abbrev pub finish : Buffer → ℕ → ℕ → ℕ × Bool × Buffer
finish b total new_offset =
    if nearly_full b new_offset
    then (total, true, record b { ready_for_flush = true })
    else (total, false, b)

-- Write from the reservation on.
unfoldable pub fill : Buffer → ℕ → ℕ → Bytes → Option (ℕ × Bool × Buffer)
fill b current new_offset p = do
  let started = start (record b { offset = new_offset })
  prefixed ← put_prefix started.bytes current p
  bytes ← put_payload prefixed current new_offset p
  some (
      finish (tally (complete (record started { bytes = bytes }))) (length_prefix_size + length p)
        new_offset)

-- Write
unfoldable pub write : Buffer → Bytes → Option (ℕ × Bool × Buffer)
unfolding fill
write b [] = some (0, false, b)
write b (byte ∷ p) =
    if b.ready_for_flush
    then some (0, true, b)
    else let new_offset = Int32.add b.offset (total_size (byte ∷ p)) in
      if Int32.ge new_offset b.capacity
      then some (0, true, record b { ready_for_flush = true })
      else fill b b.offset new_offset (byte ∷ p)

-- The loop of GetData: whether, in one of the rounds before the deadline, the two counters that it
-- loads are equal.
unfoldable pub wait_completed : List (ℕ × ℕ) → Bool
wait_completed [] = false
wait_completed ((started, completed) ∷ loads) =
    if started == completed then true else wait_completed loads

-- GetData; the slice is the buffer itself.
unfoldable pub get_data : Buffer → List (ℕ × ℕ) → Option (Bytes × Bool)
unfolding wait_completed
get_data b loads =
    if not (is_negative b.capacity) && leb b.capacity (length b.bytes)
    then some (take b.capacity b.bytes, wait_completed loads)
    else none

-- Reset
unfoldable pub reset : Buffer → Buffer
reset b = record b { offset = 8; ready_for_flush = false; writes_started = 0; writes_completed = 0 }

-- DataSize
unfoldable pub data_size : Buffer → ℕ
data_size b = if Int32.gt b.offset 8 then (b.offset + 2 ^ 32 - 8) % 2 ^ 32 else 0

unfoldable pub has_data : Buffer → Bool
has_data b = Int32.gt b.offset 8

unfoldable pub is_full : Buffer → Bool
is_full b = b.ready_for_flush
