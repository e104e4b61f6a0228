-- ===== src/Shard/Invariant.antt =====
-- The invariant of a shard, and that every operation keeps it.
use logger_double_buffer.Base.{
  ℕ, ◌+◌, ◌%◌, ◌^◌, ◌≤◌, ◌<◌, ◌≡◌, ◌≢◌, refl, Bool, true, false, Option, none, some, [], ◌∷◌, arith,
  ltb, leb, length, Option-cases, le→leb, lt→leb, le→ltb, ◌∙◌, inl, inr,
}
use native.Mathlib.Decide.{dec_lt}
use logger_double_buffer.Base.Int32
use logger_double_buffer.Base.Bytes.{
  Bytes, u32, copy_range, write_at, copy_range-eq, length-write_at, length-u32,
}
use logger_double_buffer.Shard.{
  Shard, Side, header_offset, align_size, active_side, buffer, offset_of, new_shard, try_swap,
  finish_write, write_to, write, fill, filled_shard, reset_enhanced,
}

-- The largest payload for which no int32 sum of Write wraps, over the capacity.
abbrev pub Fits : Shard → Bytes → Type 0
Fits s p = s.capacity + length p + 4 < 2 ^ 31

pub record IsValid (s : Shard) : Type 0 where
  pub length_a : length s.buffer_a ≡ s.capacity
  pub length_b : length s.buffer_b ≡ s.capacity
  pub pointed : s.active ≢ none
  pub settled : s.swapping ≡ false
  pub small : s.capacity < 2 ^ 31
  pub start_a : header_offset ≤ s.offset_a
  pub start_b : header_offset ≤ s.offset_b
  pub room_a : s.offset_a < s.capacity
  pub room_b : s.offset_b < s.capacity

-- The buffer with the record of a payload at its offset: the length prefix, then the payload.
abbrev pub recorded : Side → Shard → Bytes → Bytes
recorded x s p =
    write_at (write_at (buffer x s) (offset_of x s) (u32 (length p))) (offset_of x s + 4) p

-- What Write leaves behind when the payload goes in.
abbrev pub filled : Side → Shard → Bytes → Shard
filled x s p = filled_shard x (offset_of x s + (4 + length p)) (recorded x s p) s

-- The invariant, at one side.
pub record SideValid (x : Side) (s : Shard) : Type 0 where
  pub full_length : length (buffer x s) ≡ s.capacity
  pub start : header_offset ≤ offset_of x s
  pub room : offset_of x s < s.capacity

pub side_valid : (x : Side) {s : Shard} → IsValid s → SideValid x s
side_valid Side.a v = omega arith
side_valid Side.b v = omega arith

module _ (x : Side) (s : Shard) (p : Bytes) (v : IsValid s) (small : Fits s p) where
  new_offset-eq :
      Int32.add (offset_of x s) ((4 + length p) % 2 ^ 32) ≡ offset_of x s + (4 + length p)
  new_offset-eq =
      let w = side_valid x v in
      omega (arith, Int32.add-eq (offset_of x s) ((4 + length p) % 2 ^ 32))

  body-eq : Int32.add (offset_of x s) 4 ≡ offset_of x s + 4
  body-eq = let w = side_valid x v in omega (arith, Int32.add-eq (offset_of x s) 4)

  ge-eq :
      Int32.ge (offset_of x s + (4 + length p)) s.capacity
      ≡ leb s.capacity (offset_of x s + (4 + length p))
  ge-eq =
      let w = side_valid x v in
      Int32.ge-eq (offset_of x s + (4 + length p)) s.capacity (omega arith) v.small

  pub write_to_full :
      s.capacity ≤ offset_of x s + (4 + length p)
      → write_to x s p ≡ some (0, true, record s { ready_for_flush = true })
  unfolding write_to
  write_to_full h = rw (new_offset-eq, ge-eq, le→leb _ _ h)

  prefix_copied :
      offset_of x s + (4 + length p) < s.capacity
      → copy_range (buffer x s) (offset_of x s) (offset_of x s + 4) (u32 (length p))
        ≡ some (write_at (buffer x s) (offset_of x s) (u32 (length p)))
  prefix_copied h =
      let w = side_valid x v in
      copy_range-eq (buffer x s) (offset_of x s) (u32 (length p))
        (omega (arith, length-u32 (length p))) _ (omega (arith, length-u32 (length p)))
        (omega arith)

  payload_copied :
      offset_of x s + (4 + length p) < s.capacity
      → copy_range
          (write_at (buffer x s) (offset_of x s) (u32 (length p)))
          (offset_of x s + 4)
          (offset_of x s + (4 + length p))
          p
        ≡ some (
            write_at (write_at (buffer x s) (offset_of x s) (u32 (length p))) (offset_of x s + 4) p)
  payload_copied h =
      let w = side_valid x v in
      let same =
        length-write_at (buffer x s) (offset_of x s) (u32 (length p))
          (omega (arith, length-u32 (length p))) in
      copy_range-eq (write_at (buffer x s) (offset_of x s) (u32 (length p))) (offset_of x s + 4) p
        (omega arith) _ (omega arith) (omega arith)

  not_over :
      offset_of x s + (4 + length p) < s.capacity
      → ltb (length (buffer x s)) (offset_of x s + (4 + length p)) ≡ false
  not_over h = let w = side_valid x v in le→ltb _ _ (omega arith)

  fill-eq :
      offset_of x s + (4 + length p) < s.capacity
      → fill x s p (offset_of x s) (offset_of x s + (4 + length p)) ≡ some (filled x s p)
  unfolding fill
  fill-eq h = rw (body-eq, prefix_copied h, payload_copied h)

  pub write_to_room :
      offset_of x s + (4 + length p) < s.capacity
      → write_to x s p
        ≡ some (finish_write (filled x s p) (4 + length p) (offset_of x s + (4 + length p)))
  unfolding write_to
  write_to_room h = rw (new_offset-eq, ge-eq, lt→leb _ _ h, not_over h, fill-eq h)

  length-recorded :
      offset_of x s + (4 + length p) < s.capacity → length (recorded x s p) ≡ s.capacity
  length-recorded h =
      let w = side_valid x v in
      let same =
        length-write_at (buffer x s) (offset_of x s) (u32 (length p))
          (omega (arith, length-u32 (length p))) in
      omega (
        arith,
        length-write_at (write_at (buffer x s) (offset_of x s) (u32 (length p))) (offset_of x s + 4)
            p (omega arith),
      )

pub filled-IsValid :
    (x : Side) (s : Shard) (p : Bytes)
    → IsValid s
    → Fits s p
    → offset_of x s + (4 + length p) < s.capacity
    → IsValid (filled x s p)
filled-IsValid Side.a s p v small h = ground (arith, length-recorded Side.a s p v small h)
filled-IsValid Side.b s p v small h = ground (arith, length-recorded Side.b s p v small h)

pub try_swap-IsValid : {s : Shard} → IsValid s → IsValid (try_swap s)
unfolding try_swap
try_swap-IsValid v = ground arith

pub finish_write-IsValid : {s : Shard} (n m : ℕ) → IsValid s → IsValid (finish_write s n m).2
unfolding finish_write
finish_write-IsValid {s} n m v = ground (arith, try_swap-IsValid v)

-- ResetEnhanced keeps the invariant.
pub reset_enhanced-IsValid : {s : Shard} → IsValid s → IsValid (reset_enhanced s)
unfolding reset_enhanced
reset_enhanced-IsValid v = ground arith

-- A shard whose pointer is set has a side that writers use.
pub pointed_side : {s : Shard} → IsValid s → s.active ≡ some (active_side s.active)
pointed_side v = ground arith

pub write-eq :
    (s : Shard) (p : Bytes) {x : Side} → p ≢ [] → s.active ≡ some x → write s p ≡ write_to x s p
unfolding write
write-eq s [] ne e = absurd (ne refl)
write-eq s (byte ∷ p) ne e = rw e

pub write_to-IsValid :
    (x : Side) (s : Shard) (p : Bytes)
    → IsValid s
    → Fits s p
    → (r : ℕ × Bool × Shard) × (write_to x s p ≡ some r) × IsValid r.2
write_to-IsValid x s p v small = elim (dec_lt (offset_of x s + (4 + length p)) s.capacity) [
  | yes h ↦
      (_, write_to_room x s p v small h, finish_write-IsValid _ _ (filled-IsValid x s p v small h))
  | no h ↦ (_, write_to_full x s p v small (omega arith), ground arith)
]

-- Write returns, without a panic, a shard that is valid again, if no int32 sum wraps.
pub write-IsValid :
    (s : Shard) (p : Bytes)
    → IsValid s
    → Fits s p
    → (r : ℕ × Bool × Shard) × (write s p ≡ some r) × IsValid r.2
unfolding write
write-IsValid s [] v small = (_, refl, v)
write-IsValid s (byte ∷ p) v small =
    let (r, e, w) = write_to-IsValid (active_side s.active) s (byte ∷ p) v small in
    (r, write-eq s (byte ∷ p) (λ q. cc) (pointed_side v) ∙ e, w)

align_size-idempotent : (n : ℕ) → align_size (align_size n) ≡ align_size n
unfolding align_size
align_size-idempotent n = omega arith

align_size-pos : (n : ℕ) → 0 < n → 4096 ≤ align_size n
unfolding align_size
align_size-pos n h = omega arith

-- Over mappings that have the size asked for, NewShard, where it returns a shard, of a capacity
-- above 0 that is below 2 GiB when aligned, returns a valid one.
pub new_shard-IsValid :
    (mmap : Side → ℕ → Option Bytes) (capacity id : ℕ) {s : Shard}
    → ((side : Side) (n : ℕ) (buf : Bytes) → mmap side n ≡ some buf → length buf ≡ n)
    → 0 < capacity
    → align_size capacity < 2 ^ 31
    → new_shard mmap capacity id ≡ some s
    → IsValid s
unfolding new_shard
new_shard-IsValid mmap capacity id maps pos small e =
    let size = align_size (align_size capacity) in
    elim (Option-cases (mmap Side.a size)) [
      | inl failed ↦ ground arith
      | inr (buf_a, mapped_a) ↦ elim (Option-cases (mmap Side.b size)) [
        | inl failed ↦ ground arith
        | inr (buf_b, mapped_b) ↦ ground (
          arith,
          maps Side.a _ buf_a mapped_a,
          maps Side.b _ buf_b mapped_b,
          align_size-idempotent capacity,
          align_size-pos capacity pos,
        )
      ]
    ]
