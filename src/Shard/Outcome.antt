-- ===== src/Shard/Outcome.antt =====
-- Every branch of Write and of the swap and reset, on the abstract shard.
use native.Mathlib.Decide.{dec_lt}
use logger_double_buffer.Base.{
  ℕ, ◌+◌, ◌≤◌, ◌<◌, ◌≡◌, ◌≢◌, ◌⊎◌, ◌↔◌, length-append, inl, inr, refl, ap, Bool, true, some, List,
  [], ◌∷◌, arith, length, take, length-take, length-drop,
}
use logger_double_buffer.Base.Bytes.{Bytes, u32, length-u32}
use logger_double_buffer.Shard.{
  Shard, Side, header_offset, buffer, offset_of, write, try_swap, active_side,
}
use logger_double_buffer.Shard.Invariant.{IsValid, side_valid, Fits, pointed_side}
use logger_double_buffer.Shard.Contents.{
  contents, encode, Messages, messages, append_to, Represents, Represents-side, write_appends,
  write_refuses, record_of,
}

-- What Write did with a payload: nothing taken, or all of it, at the end of one side.
abbrev pub Stored : Side → Bytes → ℕ → Messages → Messages → Type 0
Stored x p n m m' = ((n ≡ 0) × (m' ≡ m)) ⊎ ((n ≡ 4 + length p) × (m' ≡ append_to x p m))

-- On a valid shard, with a payload that is not empty and stays below 2 GiB together with the
-- capacity, Write takes the payload whole, at the end of the active side's messages, or changes
-- no message: it never panics, keeps the shard valid, reports 0 where it took nothing, and asks
-- for a flush whenever it took nothing.
pub write_outcome :
    (s : Shard) (p : Bytes) (m : Messages)
    → IsValid s
    → Fits s p
    → p ≢ []
    → Represents s m
    → (n : ℕ) × (flush : Bool) × (t : Shard) × (m' : Messages) × (write s p ≡ some (n, flush, t))
      × IsValid t
      × Represents t m'
      × (t.capacity ≡ s.capacity)
      × Stored (active_side s.active) p n m m'
      × ((0 < n) ⊎ (flush ≡ true))
write_outcome s p m v small ne r =
    let x = active_side s.active in
    elim (dec_lt (offset_of x s + (4 + length p)) s.capacity) [
      | yes room ↦
          let (t, e, w, q, c) = write_appends s p m v small ne (pointed_side v) room r in
          (_, _, t, _, e, w, q, c, inr (refl, refl), inl (omega arith))
      | no full ↦ (
        0,
        true,
        record s { ready_for_flush = true },
        m,
        write_refuses s p v small ne (pointed_side v) (omega arith),
        ground arith,
        record { side_a = r.side_a; side_b = r.side_b },
        refl,
        inl (refl, refl),
        inr refl,
      )
    ]

-- A swap moves no message.
pub try_swap-Represents : (s : Shard) (m : Messages) → Represents s m → Represents (try_swap s) m
unfolding try_swap
try_swap-Represents s m r = record {
  side_a = ground (arith, r.side_a);
  side_b = ground (arith, r.side_b);
}

pub length-contents :
    (x : Side) {s : Shard} → IsValid s → length (contents x s) + header_offset ≡ offset_of x s
length-contents x {s} v =
    let w = side_valid x v in
    omega (
      arith,
      length-drop header_offset (take (offset_of x s) (buffer x s)),
      length-take (offset_of x s) (buffer x s),
    )

length-encode-pos : (p : Bytes) (ps : List Bytes) → 4 ≤ length (encode (p ∷ ps))
length-encode-pos p ps = omega (
  arith,
  length-append (record_of p) (encode ps),
  length-append (u32 (length p)) p,
  length-u32 (length p),
)

-- A side of a valid shard stands at the header exactly when it holds no message.
pub empty_iff :
    (x : Side) {s : Shard} {m : Messages}
    → IsValid s
    → Represents s m
    → (offset_of x s ≡ header_offset) ↔ (messages x m ≡ [])
empty_iff x {s} {m} v r = (at_header (messages x m) (Represents-side x r), empty)
  where
    at_header :
        (ps : List Bytes) → contents x s ≡ encode ps → offset_of x s ≡ header_offset → ps ≡ []
    at_header [] e h = refl
    at_header (p ∷ ps) e h =
        absurd (omega (arith, length-contents x v, ap length e, length-encode-pos p ps))

    empty : messages x m ≡ [] → offset_of x s ≡ header_offset
    empty e = omega (
      arith,
      length-contents x v,
      ap length (Represents-side x r),
      ap (λ ps. length (encode ps)) e,
    )
