-- ===== src/Shard.antt =====
-- asyncloguploader/shard.go: a shard with two mmap'd buffers, one being written and one waiting
-- to be flushed. The operations run here one after another: a compare-and-swap succeeds, and
-- nothing changes between two reads of one field.
-- A Go panic is `none`. A nil slice is the empty list, which mmap never returns.
pub mod Invariant
pub mod Contents
pub mod Outcome
pub mod Reset
pub mod Threshold
pub mod Tests
use logger_double_buffer.Base.{
  ℕ, ◌+◌, ◌-◌, ◌*◌, ◌/◌, ◌%◌, ◌^◌, ◌≡◌, Bool, true, false, ◌&&◌, not, Option, none, some, List, [],
  ◌∷◌, ltb, leb, ◌==◌, if◌then◌else◌, ◌>>=◌, length, take, replicate,
}
use logger_double_buffer.Base.Int32
use logger_double_buffer.Base.Int32.{int32, is_negative}
use logger_double_buffer.Base.Bytes.{Bytes, u32, copy_range}

-- What `activeBuffer` points to; `none` is the nil pointer.
pub data Side : Type 0 where
  a b : Side

pub record Shard : Type 0 where
  pub buffer_a : Bytes
  pub buffer_b : Bytes
  pub active : Option Side
  pub offset_a : ℕ
  pub offset_b : ℕ
  pub capacity : ℕ
  pub id : ℕ
  pub swapping : Bool
  pub ready_for_flush : Bool
  pub inflight_a : ℕ
  pub inflight_b : ℕ

abbrev pub header_offset : ℕ
header_offset = 8

abbrev pub alignment_size : ℕ
alignment_size = 4096

abbrev pub length_prefix_size : ℕ
length_prefix_size = 4

-- alignSize: the next multiple of 4096.
unfoldable pub align_size : ℕ → ℕ
align_size size = (size + alignment_size - 1) / alignment_size * alignment_size

-- The code's own tests `activeBufPtr == &s.bufferA` in the writer and `== nil || == &s.bufferA`
-- in the readers differ on nil; this is the readers'.
abbrev pub active_side : Option Side → Side
active_side none = Side.a
active_side (some x) = x

abbrev pub other : Side → Side
other Side.a = Side.b
other Side.b = Side.a

abbrev pub buffer : Side → Shard → Bytes
buffer Side.a s = s.buffer_a
buffer Side.b s = s.buffer_b

abbrev pub offset_of : Side → Shard → ℕ
offset_of Side.a s = s.offset_a
offset_of Side.b s = s.offset_b

abbrev pub inflight : Side → Shard → ℕ
inflight Side.a s = s.inflight_a
inflight Side.b s = s.inflight_b

abbrev pub store_buffer : Side → Bytes → Shard → Shard
store_buffer Side.a x s = record s { buffer_a = x }
store_buffer Side.b x s = record s { buffer_b = x }

abbrev pub store_offset : Side → ℕ → Shard → Shard
store_offset Side.a x s = record s { offset_a = x }
store_offset Side.b x s = record s { offset_b = x }

abbrev pub store_inflight : Side → ℕ → Shard → Shard
store_inflight Side.a x s = record s { inflight_a = x }
store_inflight Side.b x s = record s { inflight_b = x }

-- atomic.Int64: Add(1) and Add(-1).
abbrev pub increment : ℕ → ℕ
increment n = (n + 1) % 2 ^ 64

abbrev pub decrement : ℕ → ℕ
decrement n = (n + 2 ^ 64 - 1) % 2 ^ 64

-- allocMmapBuffer over unix.Mmap: the mapping of that many bytes, or its error.
unfoldable pub alloc_mmap_buffer : (ℕ → Option Bytes) → ℕ → Option Bytes
alloc_mmap_buffer mmap size = mmap (align_size size)

-- NewShard, with the mapping that each side gets; an error of either is returned, as `none`, and the
-- first mapping is then given back.
unfoldable pub new_shard : (Side → ℕ → Option Bytes) → ℕ → ℕ → Option Shard
unfolding alloc_mmap_buffer
new_shard mmap capacity id = do
  let aligned_cap = align_size capacity
  buffer_a ← alloc_mmap_buffer (mmap Side.a) aligned_cap
  buffer_b ← alloc_mmap_buffer (mmap Side.b) aligned_cap
  some (record {
    buffer_a = buffer_a;
    buffer_b = buffer_b;
    active = some Side.a;
    offset_a = header_offset;
    offset_b = header_offset;
    capacity = int32 aligned_cap;
    id = id;
    swapping = false;
    ready_for_flush = false;
    inflight_a = 0;
    inflight_b = 0;
  })

-- trySwap
pub swap_active : Shard → Option Side → Shard
swap_active s none = s
swap_active s (some x) = record s { active = some (other x); ready_for_flush = true }

unfoldable pub try_swap : Shard → Shard
unfolding swap_active
try_swap s = if s.swapping then s else record (swap_active s s.active) { swapping = false }

-- The end of Write: the 10% test, after the payload is in the buffer.
pub finish_write : Shard → ℕ → ℕ → ℕ × Bool × Shard
unfolding try_swap
finish_write s total new_offset =
    if Int32.ge new_offset (Int32.nine_tenths s.capacity)
    then (total, true, record (try_swap s) { ready_for_flush = true })
    else (total, false, s)

-- The shard with the reservation made and the range filled, the inflight count up and down again.
abbrev pub filled_shard : Side → ℕ → Bytes → Shard → Shard
filled_shard x new_offset bytes s =
    let begun = store_inflight x (increment (inflight x s)) (store_offset x new_offset s) in
    let written = store_buffer x bytes begun in
    store_inflight x (decrement (inflight x written)) written

-- The copy of Write into the reserved range.
pub fill : Side → Shard → Bytes → ℕ → ℕ → Option Shard
fill x s p current new_offset = do
  let body = Int32.add current length_prefix_size
  prefixed ← copy_range (buffer x s) current body (u32 (length p))
  bytes ← copy_range prefixed body new_offset p
  some (filled_shard x new_offset bytes s)

-- Write from the reservation on, to the side that the active pointer shows.
pub write_to : Side → Shard → Bytes → Option (ℕ × Bool × Shard)
write_to x s p =
    let total = length_prefix_size + length p in
    let current = offset_of x s in
    let new_offset = Int32.add current (int32 total) in
    let full = some (0, true, record s { ready_for_flush = true }) in
    if Int32.ge new_offset s.capacity
    then full
    else if ltb (length (buffer x s)) new_offset && not (is_negative new_offset)
    then full
    else (fill x s p current new_offset >>= λ t. some (finish_write t total new_offset))

unfoldable pub write : Shard → Bytes → Option (ℕ × Bool × Shard)
unfolding write_to fill finish_write
write s [] = some (0, false, s)
write s (byte ∷ p) = elim s.active [ none ↦ some (0, true, s) | some x ↦ write_to x s (byte ∷ p) ]

-- The loop of GetData: the inflight counts that it loads before the deadline.
unfoldable pub wait_inflight : List ℕ → Bool
wait_inflight [] = false
wait_inflight (n ∷ loads) = if n == 0 then true else wait_inflight loads

-- inactiveBuf[:s.capacity]
abbrev pub slice_to : Bytes → ℕ → Option Bytes
slice_to buf n = if not (is_negative n) && leb n (length buf) then some (take n buf) else none

-- GetData; the slice is the inactive buffer itself, and the caller writes through it.
pub data_of : Bytes → ℕ → Bool → Option (Bytes × Bool)
data_of [] capacity completed = some ([], false)
data_of (x ∷ buf) capacity completed =
    slice_to (x ∷ buf) capacity >>= λ data'. some (data', completed)

unfoldable pub get_data : Shard → List ℕ → Option (Bytes × Bool)
unfolding wait_inflight data_of
get_data s loads =
    data_of (buffer (other (active_side s.active)) s) s.capacity (wait_inflight loads)

unfoldable pub get_inactive_offset : Shard → ℕ
get_inactive_offset s = offset_of (other (active_side s.active)) s

unfoldable pub offset : Shard → ℕ
offset s = offset_of (active_side s.active) s

unfoldable pub has_data : Shard → Bool
has_data s = Int32.gt (offset_of (other (active_side s.active)) s) header_offset

unfoldable pub is_full : Shard → Bool
is_full s = s.ready_for_flush

abbrev clear : Side → Shard → Shard
clear x s = store_inflight x 0 (store_offset x header_offset s)

-- ResetEnhanced
unfoldable pub reset_enhanced : Shard → Shard
unfolding offset get_inactive_offset
reset_enhanced s =
    let active_has_data = Int32.gt (offset s) header_offset in
    let inactive_has_data = Int32.gt (get_inactive_offset s) header_offset in
    let cleared =
      if active_has_data && inactive_has_data
      then clear Side.a (clear Side.b s)
      else if inactive_has_data
      then clear (other (active_side s.active)) s
      else s in
    record cleared { ready_for_flush = false }

unfoldable pub reset : Shard → Shard
unfolding reset_enhanced
reset s = reset_enhanced s

-- Close: the mappings are gone and the slices nil.
unfoldable pub close : Shard → Shard
close s = record s { buffer_a = []; buffer_b = [] }
