-- ===== src/Shard/Threshold.antt =====
-- When Write asks for a flush: nine tenths of the capacity, as int32 arithmetic computes them.
use logger_double_buffer.Base.{
  ◌+◌, ◌*◌, ◌/◌, ◌≤◌, ◌<◌, ◌≡◌, ◌≢◌, ◌∙◌, ap, true, some, [], arith, leb, length,
}
use logger_double_buffer.Base.Int32
use logger_double_buffer.Base.Int32.{max_nine_tenths, nine_tenths-eq, ge-nine_tenths_wrapped}
use logger_double_buffer.Base.Bytes.{Bytes}
use logger_double_buffer.Shard.{Shard, offset_of, write, active_side}
use logger_double_buffer.Shard.Invariant.{IsValid, Fits, pointed_side}
use logger_double_buffer.Shard.Contents.{Messages, Represents, write_appends}

module _ (s : Shard) (p : Bytes) (m : Messages) (v : IsValid s) (small : Fits s p) (ne : p ≢ [])
    (r : Represents s m) where
  -- On a valid shard with a capacity of at most 238609294 bytes, a payload that is not empty and
  -- has room asks for a flush exactly if the offset after it is at least nine tenths of the
  -- capacity, rounded down.
  pub write-threshold :
      offset_of (active_side s.active) s + (4 + length p) < s.capacity
      → s.capacity ≤ max_nine_tenths
      → (t : Shard) × (write s p
          ≡ some (
            4 + length p,
            leb (s.capacity * 9 / 10) (offset_of (active_side s.active) s + (4 + length p)),
            t,
          ))
  write-threshold room low =
      let k = offset_of (active_side s.active) s + (4 + length p) in
      let (t, e, _, _, _) = write_appends s p m v small ne (pointed_side v) room r in
      let exact : Int32.ge k (Int32.nine_tenths s.capacity) ≡ leb (s.capacity * 9 / 10) k =
        ap (Int32.ge k) (nine_tenths-eq s.capacity low)
        ∙ Int32.ge-eq k (s.capacity * 9 / 10) (omega arith) (omega arith) in
      (t, e ∙ ap (λ b. some (4 + length p, b, t)) exact)

  -- On a valid shard with a larger capacity, up to twice as large, the int32 product has wrapped:
  -- every payload that is not empty and has room asks for a flush, however empty the buffer is.
  pub write-threshold_wrapped :
      offset_of (active_side s.active) s + (4 + length p) < s.capacity
      → max_nine_tenths < s.capacity
      → s.capacity ≤ 2 * max_nine_tenths
      → (t : Shard) × (write s p ≡ some (4 + length p, true, t))
  write-threshold_wrapped room low high =
      let k = offset_of (active_side s.active) s + (4 + length p) in
      let (t, e, _, _, _) = write_appends s p m v small ne (pointed_side v) room r in
      (
        t,
        e
            ∙ ap (λ b. some (4 + length p, b, t))
                (ge-nine_tenths_wrapped s.capacity k low high (omega arith)),
      )
