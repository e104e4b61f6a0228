-- ===== src/Shard/Contents.antt =====
-- What the two buffers of a shard hold: the records of the messages that Write accepted.
use logger_double_buffer.Base.{
  ℕ, ◌+◌, ◌≤◌, ◌<◌, ◌≡◌, ◌≢◌, refl, ◌∙◌, ap, true, some, List, [], ◌∷◌, ◌++◌, arith, append_assoc,
  append-nil, length, take, drop, length-take, drop-append_le,
}
use logger_double_buffer.Base.Int32
use logger_double_buffer.Base.Bytes.{
  Bytes, u32, write_at, length-write_at, take-write_at, length-u32,
}
use logger_double_buffer.Shard.{
  Shard, Side, header_offset, buffer, offset_of, finish_write, write, other,
}
use logger_double_buffer.Shard.Invariant.{
  IsValid, side_valid, Fits, recorded, filled, filled-IsValid, finish_write-IsValid, write-eq,
  write_to_room, write_to_full,
}

-- buf[headerOffset:offset] of a side.
abbrev pub contents : Side → Shard → Bytes
contents x s = drop header_offset (take (offset_of x s) (buffer x s))

-- A record: the length prefix and the payload.
abbrev pub record_of : Bytes → Bytes
record_of p = u32 (length p) ++ p

abbrev pub encode : List Bytes → Bytes
encode [] = []
encode (p ∷ ps) = record_of p ++ encode ps

pub encode-append : (ps qs : List Bytes) → encode (ps ++ qs) ≡ encode ps ++ encode qs
encode-append [] qs = refl
encode-append (p ∷ ps) qs = simp (encode-append ps qs, append_assoc)

module _ (x : Side) (s : Shard) (p : Bytes) (v : IsValid s)
    (room : offset_of x s + (4 + length p) < s.capacity) where
  take-recorded :
      take (offset_of x s + (4 + length p)) (recorded x s p)
      ≡ take (offset_of x s) (buffer x s) ++ record_of p
  take-recorded =
      let w = side_valid x v in
      let u = length-u32 (length p) in
      let same = length-write_at (buffer x s) (offset_of x s) (u32 (length p)) (omega arith) in
      let e : offset_of x s + (4 + length p) ≡ offset_of x s + 4 + length p = omega arith in
      let e' : offset_of x s + 4 ≡ offset_of x s + length (u32 (length p)) = omega arith in
      rw
        (
          e,
          take-write_at (write_at (buffer x s) (offset_of x s) (u32 (length p))) (offset_of x s + 4)
              p (omega arith),
        )
        (rw (e', take-write_at (buffer x s) (offset_of x s) (u32 (length p)) (omega arith))
          (append_assoc (take (offset_of x s) (buffer x s)) (u32 (length p)) p))

contents-filled :
    (x : Side) (s : Shard) (p : Bytes)
    → IsValid s
    → offset_of x s + (4 + length p) < s.capacity
    → contents x (filled x s p) ≡ contents x s ++ record_of p
contents-filled Side.a s p v room = rw (take-recorded Side.a s p v room) (
    drop-append_le (take s.offset_a s.buffer_a) (record_of p) 8
      (omega (arith, length-take s.offset_a s.buffer_a)))
contents-filled Side.b s p v room = rw (take-recorded Side.b s p v room) (
    drop-append_le (take s.offset_b s.buffer_b) (record_of p) 8
      (omega (arith, length-take s.offset_b s.buffer_b)))

contents-filled-other :
    (x : Side) (s : Shard) (p : Bytes) → contents (other x) (filled x s p) ≡ contents (other x) s
contents-filled-other Side.a s p = refl
contents-filled-other Side.b s p = refl

contents-finish_write :
    (x : Side) (s : Shard) (n m : ℕ) → contents x (finish_write s n m).2 ≡ contents x s
unfolding finish_write
contents-finish_write Side.a s n m = ground arith
contents-finish_write Side.b s n m = ground arith

-- The abstract shard: the messages on each side, oldest first.
pub record Messages : Type 0 where
  pub on_a : List Bytes
  pub on_b : List Bytes

abbrev pub messages : Side → Messages → List Bytes
messages Side.a m = m.on_a
messages Side.b m = m.on_b

-- Write on the abstract shard.
abbrev pub append_to : Side → Bytes → Messages → Messages
append_to Side.a p m = record m { on_a = m.on_a ++ p ∷ [] }
append_to Side.b p m = record m { on_b = m.on_b ++ p ∷ [] }

pub record Represents (s : Shard) (m : Messages) : Type 0 where
  pub side_a : contents Side.a s ≡ encode m.on_a
  pub side_b : contents Side.b s ≡ encode m.on_b

pub Represents-side :
    (x : Side) {s : Shard} {m : Messages} → Represents s m → contents x s ≡ encode (messages x m)
Represents-side Side.a r = r.side_a
Represents-side Side.b r = r.side_b

pub encode-snoc : (ps : List Bytes) (p : Bytes) → encode (ps ++ p ∷ []) ≡ encode ps ++ record_of p
encode-snoc ps p = simp (encode-append, append-nil)

Represents-filled :
    (x : Side) (s : Shard) (p : Bytes) (m : Messages)
    → IsValid s
    → offset_of x s + (4 + length p) < s.capacity
    → Represents s m
    → Represents (filled x s p) (append_to x p m)
Represents-filled Side.a s p m v room r = record {
  side_a = rw (contents-filled Side.a s p v room, encode-snoc, r.side_a);
  side_b = r.side_b;
}
Represents-filled Side.b s p m v room r = record {
  side_a = r.side_a;
  side_b = rw (contents-filled Side.b s p v room, encode-snoc, r.side_b);
}

Represents-finish_write :
    {s : Shard} {m : Messages} (n k : ℕ) → Represents s m → Represents (finish_write s n k).2 m
Represents-finish_write {s} n k r = record {
  side_a = contents-finish_write Side.a s n k ∙ r.side_a;
  side_b = contents-finish_write Side.b s n k ∙ r.side_b;
}

finish_write-reply :
    (s : Shard) (n k : ℕ) {c : ℕ}
    → s.capacity ≡ c
    → finish_write s n k ≡ (n, Int32.ge k (Int32.nine_tenths c), (finish_write s n k).2)
unfolding finish_write
finish_write-reply s n k e = ground arith

capacity-filled : (x : Side) (s : Shard) (p : Bytes) → (filled x s p).capacity ≡ s.capacity
capacity-filled Side.a s p = refl
capacity-filled Side.b s p = refl

capacity-finish_write : (s : Shard) (n k : ℕ) → (finish_write s n k).2.capacity ≡ s.capacity
unfolding finish_write
capacity-finish_write s n k = ground arith

-- On a valid shard, a payload that is not empty and has room, with no int32 sum that wraps, goes
-- to the end of the messages of the active side, and no other message changes. The caller gets
-- the number of bytes taken, and is told to flush from nine tenths of the capacity on, as int32
-- computes them.
pub write_appends :
    (s : Shard) (p : Bytes) (m : Messages) {x : Side}
    → IsValid s
    → Fits s p
    → p ≢ []
    → s.active ≡ some x
    → offset_of x s + (4 + length p) < s.capacity
    → Represents s m
    → (t : Shard) × (write s p
        ≡ some (
          4 + length p,
          Int32.ge (offset_of x s + (4 + length p)) (Int32.nine_tenths s.capacity),
          t,
        ))
      × IsValid t
      × Represents t (append_to x p m)
      × (t.capacity ≡ s.capacity)
write_appends s p m {x} v small ne e room r =
    let n = 4 + length p in
    let k = offset_of x s + n in
    let t = filled x s p in
    (
      (finish_write t n k).2,
      write-eq s p ne e
          ∙ (write_to_room x s p v small room
              ∙ ap some (finish_write-reply t n k (capacity-filled x s p))),
      finish_write-IsValid n k (filled-IsValid x s p v small room),
      Represents-finish_write n k (Represents-filled x s p m v room r),
      capacity-finish_write t n k ∙ capacity-filled x s p,
    )

-- A payload with no room is refused: nothing is taken, and the shard is only marked for a flush.
pub write_refuses :
    (s : Shard) (p : Bytes) {x : Side}
    → IsValid s
    → Fits s p
    → p ≢ []
    → s.active ≡ some x
    → s.capacity ≤ offset_of x s + (4 + length p)
    → write s p ≡ some (0, true, record s { ready_for_flush = true })
write_refuses s p {x} v small ne e none_left =
    write-eq s p ne e ∙ write_to_full x s p v small none_left
