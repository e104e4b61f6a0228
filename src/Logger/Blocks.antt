-- ===== src/Logger/Blocks.antt =====
-- What a flush takes from one shard: a block for each side that holds messages, the waiting side
-- first, after which the shard can be reset with nothing left behind.
use logger_double_buffer.Base.{
  ℕ, ◌≤◌, ◌<◌, ◌≡◌, ◌≢◌, refl, sym, ◌∙◌, ap, some, List, [], ◌∷◌, ◌++◌, arith, length, take, drop,
  length-append, length-drop, length-take, take-append-drop, drop-take, drop-append_le,
}
use logger_double_buffer.Base.Bytes.{Bytes, u32, length-u32}
use logger_double_buffer.Shard
use logger_double_buffer.Shard.{
  Shard, Side, header_offset, active_side, other, buffer, offset_of, store_buffer, try_swap,
  reset_enhanced, wait_inflight,
}
use logger_double_buffer.Shard.Invariant.{IsValid, side_valid}
use logger_double_buffer.Shard.Contents.{encode, Messages, messages, Represents, Represents-side}
use logger_double_buffer.Shard.Outcome.{length-contents}
use logger_double_buffer.Shard.Reset.{inactive_side, get_data-whole, gt-header}
use logger_double_buffer.Logger.Flush.{collect, with_header, valid_bytes}

-- A block on disk: the header with the capacity and the size of the records, the records of the
-- messages, and what is left of the buffer.
pub record Carries (capacity : ℕ) (ms : List Bytes) (block : Bytes) : Type 0 where
  pub tail : Bytes
  pub is_block : block ≡ u32 capacity ++ (u32 (length (encode ms)) ++ (encode ms ++ tail))
  pub full_size : length block ≡ capacity

pub drop-split :
    (n : ℕ) (buf : Bytes) → 8 ≤ n → n ≤ length buf → drop 8 buf ≡ drop 8 (take n buf) ++ drop n buf
drop-split n buf h k =
    ap (drop 8) (sym (take-append-drop n buf))
    ∙ drop-append_le (take n buf) (drop n buf) 8 (omega (arith, length-take n buf))

pub length-with_header :
    (capacity n : ℕ) (buf : Bytes)
    → 8 ≤ length buf
    → length (with_header capacity n buf) ≡ length buf
unfolding with_header
length-with_header capacity n buf h = omega (
  arith,
  length-append (u32 capacity) (u32 n ++ drop 8 buf),
  length-append (u32 n) (drop 8 buf),
  length-u32 capacity,
  length-u32 n,
  length-drop 8 buf,
)

valid_bytes-eq :
    (x : Side) {s : Shard} {m : Messages}
    → IsValid s
    → Represents s m
    → valid_bytes (offset_of x s) ≡ length (encode (messages x m))
unfolding valid_bytes
valid_bytes-eq x {s} v r =
    let w = side_valid x v in ground (arith, length-contents x v, ap length (Represents-side x r))

pub with_header-Carries :
    (x : Side) {s : Shard} {m : Messages}
    → IsValid s
    → Represents s m
    → Carries s.capacity
        (messages x m)
        (with_header s.capacity (valid_bytes (offset_of x s)) (buffer x s))
unfolding with_header
with_header-Carries x {s} {m} v r =
    let w = side_valid x v in
    record {
      tail = drop (offset_of x s) (buffer x s);
      is_block = rw (
        valid_bytes-eq x v r,
        drop-split (offset_of x s) (buffer x s) w.start (omega arith),
        Represents-side x r,
      );
      full_size =
          length-with_header s.capacity (valid_bytes (offset_of x s)) (buffer x s) (omega arith)
          ∙ w.full_length;
    }

pub store_buffer-IsValid :
    (x : Side) (buf : Bytes) {s : Shard}
    → IsValid s
    → length buf ≡ s.capacity
    → IsValid (store_buffer x buf s)
store_buffer-IsValid Side.a buf v e = ground arith
store_buffer-IsValid Side.b buf v e = ground arith

pub collect-eq :
    (s : Shard) (loads : List ℕ)
    → IsValid s
    → header_offset < offset_of (inactive_side s) s
    → let headed =
        with_header s.capacity
          (valid_bytes (offset_of (inactive_side s) s))
          (buffer (inactive_side s) s) in
      collect s loads ≡ some (headed ∷ [], store_buffer (inactive_side s) headed s)
unfolding collect Shard.get_inactive_offset
collect-eq s loads v h =
    let w = side_valid (inactive_side s) v in
    rw (get_data-whole s loads v) (ground (arith, gt-header (inactive_side s) v))

pub take-with_header :
    (k capacity n : ℕ) (buf : Bytes)
    → drop 8 (take k (with_header capacity n buf)) ≡ drop 8 (take k buf)
unfolding with_header u32
take-with_header k capacity n buf =
    drop-take 8 k (with_header capacity n buf) ∙ sym (drop-take 8 k buf)

-- A header moves no message.
pub Represents-header :
    (x : Side) (capacity n : ℕ) {s : Shard} {m : Messages}
    → Represents s m
    → Represents (store_buffer x (with_header capacity n (buffer x s)) s) m
Represents-header Side.a capacity n {s} r = record {
  side_a = take-with_header s.offset_a capacity n s.buffer_a ∙ r.side_a;
  side_b = r.side_b;
}
Represents-header Side.b capacity n {s} r = record {
  side_a = r.side_a;
  side_b = take-with_header s.offset_b capacity n s.buffer_b ∙ r.side_b;
}

-- The messages that a side's block must carry, if it needs one.
abbrev pub groups : List Bytes → List (List Bytes)
groups [] = []
groups (p ∷ ps) = (p ∷ ps) ∷ []

abbrev pub AllCarry : ℕ → List (List Bytes) → List Bytes → Type 0
AllCarry capacity [] [] = Unit
AllCarry capacity [] (b ∷ bs) = ⊥
AllCarry capacity (g ∷ gs) [] = ⊥
AllCarry capacity (g ∷ gs) (b ∷ bs) = Carries capacity g b × AllCarry capacity gs bs

pub AllCarry-append :
    (capacity : ℕ) (gs hs : List (List Bytes)) (bs cs : List Bytes)
    → AllCarry capacity gs bs
    → AllCarry capacity hs cs
    → AllCarry capacity (gs ++ hs) (bs ++ cs)
AllCarry-append capacity [] hs [] cs p q = q
AllCarry-append capacity [] hs (b ∷ bs) cs p q = absurd p
AllCarry-append capacity (g ∷ gs) hs [] cs p q = absurd p
AllCarry-append capacity (g ∷ gs) hs (b ∷ bs) cs p q =
    (p.0, AllCarry-append capacity gs hs bs cs p.1 q)

pub groups-of :
    (capacity : ℕ) (ms : List Bytes) (b : Bytes)
    → ms ≢ []
    → Carries capacity ms b
    → AllCarry capacity (groups ms) (b ∷ [])
groups-of capacity [] b ne c = absurd (ne refl)
groups-of capacity (p ∷ ps) b ne c = (c, tt)
