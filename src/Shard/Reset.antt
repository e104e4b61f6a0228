-- ===== src/Shard/Reset.antt =====
-- What the flusher relies on: GetData, the offsets as it reads them, and ResetEnhanced.
use logger_double_buffer.Base.{
  ℕ, ◌^◌, ◌<◌, ◌≡◌, Bool, some, List, [], ◌∷◌, arith, length, take, ltb, take_all, drop_all,
  length-take,
}
use logger_double_buffer.Base.Int32
use logger_double_buffer.Base.Bytes.{Bytes}
use logger_double_buffer.Shard.{
  Shard, Side, header_offset, buffer, offset_of, reset_enhanced, active_side, other, offset,
  get_inactive_offset, get_data, data_of, wait_inflight,
}
use logger_double_buffer.Shard.Invariant.{IsValid, side_valid}
use logger_double_buffer.Shard.Contents.{Messages, Represents, contents}

abbrev pub inactive_side : Shard → Side
inactive_side s = other (active_side s.active)

data_of-whole :
    (buf : Bytes) (capacity : ℕ) (completed : Bool)
    → length buf ≡ capacity
    → 0 < capacity
    → capacity < 2 ^ 31
    → data_of buf capacity completed ≡ some (buf, completed)
unfolding data_of
data_of-whole [] capacity completed e h small = absurd (omega arith)
data_of-whole (x ∷ buf) capacity completed e h small = ground (arith, take_all capacity (x ∷ buf))

-- GetData gives the whole inactive buffer.
pub get_data-whole :
    (s : Shard) (loads : List ℕ)
    → IsValid s
    → get_data s loads ≡ some (buffer (inactive_side s) s, wait_inflight loads)
unfolding get_data
get_data-whole s loads v =
    let w = side_valid (inactive_side s) v in
    data_of-whole (buffer (inactive_side s) s) s.capacity (wait_inflight loads) w.full_length
      (omega arith) v.small

-- The signed test against the header, on a valid shard.
pub gt-header :
    (x : Side) {s : Shard}
    → IsValid s
    → Int32.gt (offset_of x s) header_offset ≡ ltb header_offset (offset_of x s)
gt-header x {s} v =
    let w = side_valid x v in Int32.gt-eq (offset_of x s) 8 (omega arith) (omega arith)

pub contents-at_header : (x : Side) (s : Shard) → offset_of x s ≡ header_offset → contents x s ≡ []
contents-at_header x s e =
    drop_all header_offset (take (offset_of x s) (buffer x s))
      (omega (arith, length-take (offset_of x s) (buffer x s)))

reset_offsets :
    (s : Shard)
    → IsValid s
    → (header_offset < offset_of (active_side s.active) s
        → header_offset < offset_of (inactive_side s) s)
    → ((reset_enhanced s).offset_a ≡ header_offset) × ((reset_enhanced s).offset_b ≡ header_offset)
unfolding reset_enhanced offset get_inactive_offset
reset_offsets s v both =
    ground (arith, gt-header (active_side s.active) v, gt-header (inactive_side s) v)

-- ResetEnhanced leaves both sides of a valid shard empty, unless only the active one has data.
pub reset_enhanced-clears :
    (s : Shard)
    → IsValid s
    → (header_offset < offset_of (active_side s.active) s
        → header_offset < offset_of (inactive_side s) s)
    → Represents (reset_enhanced s) (record { on_a = []; on_b = [] })
reset_enhanced-clears s v both =
    let e = reset_offsets s v both in
    record {
      side_a = contents-at_header Side.a (reset_enhanced s) e.0;
      side_b = contents-at_header Side.b (reset_enhanced s) e.1;
    }

-- Where the inactive side of a valid shard has no data, ResetEnhanced keeps all messages, those
-- of the active side, for the next flush.
pub reset_enhanced-keeps :
    (s : Shard) (m : Messages)
    → IsValid s
    → Represents s m
    → offset_of (inactive_side s) s ≡ header_offset
    → Represents (reset_enhanced s) m
unfolding reset_enhanced offset get_inactive_offset
reset_enhanced-keeps s m v r h = record {
  side_a = ground (arith, r.side_a, gt-header (inactive_side s) v);
  side_b = ground (arith, r.side_b, gt-header (inactive_side s) v);
}
