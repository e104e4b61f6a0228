-- ===== src/AsyncBuffer/Fresh.antt =====
-- asynclogger/buffer.go, NewBuffer and Reset, and asynclogger/directio_linux.go, allocAlignedBuffer:
-- the buffers that they leave.
use logger_double_buffer.Base.{
  ℕ, ◌+◌, ◌%◌, ◌^◌, ◌≤◌, ◌<◌, ◌≡◌, refl, ◌∙◌, arith, length, drop, replicate, length-take,
  length-drop, length-replicate,
}
use logger_double_buffer.AsyncBuffer.{
  Buffer, alignment_size, align_size, aligned_start, alloc_aligned_buffer, new_buffer, reset,
}
use logger_double_buffer.AsyncBuffer.Runs.{IsReady}

align_size-idempotent : (n : ℕ) → align_size (align_size n) ≡ align_size n
unfolding align_size
align_size-idempotent n = omega arith

-- Rounding up adds less than one alignment.
align_size-bounds :
    (n : ℕ)
    → 0 < n
    → (n ≤ align_size n) × (align_size n < n + alignment_size) × (4096 ≤ align_size n)
unfolding align_size
align_size-bounds n h = (omega arith, omega arith, omega arith)

aligned_start-lt : (addr : ℕ) → aligned_start addr < alignment_size
aligned_start-lt addr = ground arith

-- Wherever the allocation starts, the buffer cut from it has the aligned size, and starts at a multiple
-- of the alignment.
pub alloc_aligned_buffer-length :
    (addr size : ℕ)
    → (length (alloc_aligned_buffer addr size) ≡ align_size size)
      × ((addr + aligned_start addr) % alignment_size ≡ 0)
unfolding alloc_aligned_buffer
alloc_aligned_buffer-length addr size = (
  omega (
    arith,
    length-take {A = ℕ} (align_size size)
        (drop (aligned_start addr) (replicate (align_size size + alignment_size) 0)),
    length-drop {A = ℕ} (aligned_start addr) (replicate (align_size size + alignment_size) 0),
    length-replicate {A = ℕ} (align_size size + alignment_size) 0,
    aligned_start-lt addr,
  ),
  ground arith,
)

-- A new buffer, where the capacity asked for, the largest payload and 8192 bytes (for the header, the
-- rounding up to a page and a length prefix) together stay below 2^31, is ready for writers wherever
-- its memory lies.
pub new_buffer-IsReady :
    (addr capacity id limit : ℕ)
    → capacity + (limit + 8192) < 2 ^ 31
    → IsReady limit (new_buffer addr capacity id)
unfolding new_buffer
new_buffer-IsReady addr capacity id limit small =
    let (lo, hi, page) = align_size-bounds (capacity + 8) (omega arith) in
    record {
      empty = refl;
      whole =
          (alloc_aligned_buffer-length addr (align_size (capacity + 8))).0
          ∙ (align_size-idempotent (capacity + 8) ∙ omega arith);
      room = omega arith;
      small = omega arith;
    }

-- A reset makes a buffer that is ready from any whose bytes are whole, whatever it holds.
pub reset-IsReady :
    (limit : ℕ) (b : Buffer)
    → length (b.bytes) ≡ b.capacity
    → 8 < b.capacity
    → b.capacity + (limit + 4) < 2 ^ 31
    → IsReady limit (reset b)
unfolding reset
reset-IsReady limit b whole room small = record {
  empty = refl;
  whole = whole;
  room = room;
  small = small;
}
