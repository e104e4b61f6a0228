-- ===== src/AsyncBuffer/Tests.antt =====
-- Runs of small buffers, and the theorems at them.
use logger_double_buffer.Base.{
  ℕ, ◌+◌, ◌<◌, ◌%◌, ◌^◌, ◌≡◌, refl, inl, inr, true, false, Option, none, some, List, [], ◌∷◌, ◌++◌,
  arith, ◌==◌, length, take, drop, replicate, Bool-cases,
}
use logger_double_buffer.Base.Int32
use logger_double_buffer.Base.Bytes.{Bytes, u32, copy_range, write_at}
use logger_double_buffer.Shard.Contents.{encode}
use logger_double_buffer.AsyncBuffer.{
  Buffer, reset, get_data, new_buffer, alloc_aligned_buffer, alignment_size, aligned_start,
  align_size,
}
use logger_double_buffer.AsyncBuffer.Steps.{Pc, advance, System, Reach, here, at_rest}
use logger_double_buffer.AsyncBuffer.Layout.{size}
use logger_double_buffer.AsyncBuffer.Linear.{InWrite}
use logger_double_buffer.AsyncBuffer.Runs.{IsReady, Settled, Reach-advance, Reach-contents}
use logger_double_buffer.AsyncBuffer.Schedules.{Move, go, begin, play, play-Reach, get_data-early}
use logger_double_buffer.AsyncBuffer.Fresh.{
  alloc_aligned_buffer-length, new_buffer-IsReady, reset-IsReady,
}

abbrev blank : Buffer
blank = record {
  bytes = replicate 64 0;
  offset = 8;
  capacity = 64;
  id = 1;
  ready_for_flush = false;
  write_count = 0;
  writes_started = 0;
  writes_completed = 0;
}

blank-IsReady : IsReady 10 blank
blank-IsReady = record { empty = refl; whole = refl; room = omega arith; small = omega arith }

abbrev or_blank : Option System → System
or_blank none = at_rest blank
or_blank (some s) = s

-- Two goroutines load the same offset; the second one's compare-and-swap fails, and it tries again;
-- then their copies cross.
abbrev crossing : List Move
crossing =
    begin 0 (1 ∷ 2 ∷ 3 ∷ [])
    ∷ begin 1 (7 ∷ 8 ∷ [])
    ∷ go 0
    ∷ go 1
    ∷ go 0
    ∷ go 1
    ∷ go 0
    ∷ go 1
    ∷ go 1
    ∷ go 1
    ∷ go 1
    ∷ go 1
    ∷ go 1
    ∷ go 0
    ∷ go 0
    ∷ []

abbrev crossed : System
crossed = or_blank (play 10 crossing (at_rest blank))

abbrev copied : System
copied = or_blank (play 10 (crossing ++ go 0 ∷ go 1 ∷ []) (at_rest blank))

crossed-Reach : Reach 10 blank crossed
unfolding advance Int32.ge Int32.add copy_range write_at u32
crossed-Reach = play-Reach 10 blank crossing (at_rest blank) crossed here refl

copied-Reach : Reach 10 blank copied
unfolding advance Int32.ge Int32.add copy_range write_at u32
copied-Reach = play-Reach 10 blank (crossing ++ go 0 ∷ go 1 ∷ []) (at_rest blank) copied here refl

copied-Settled : (i : ℕ) → Settled (copied.pc i)
unfolding advance Int32.ge Int32.add copy_range write_at u32
copied-Settled i = elim (Bool-cases (0 == i)) [
  | inl first ↦ elim (Bool-cases (1 == i)) [
    | inl second ↦ rw (first, second) tt
    | inr other ↦ rw (first, other) tt
  ]
  | inr later ↦ elim (Bool-cases (1 == i)) [
    | inl second ↦ rw (later, second) tt
    | inr other ↦ rw (later, other) tt
  ]
]

copied_offset : copied.buffer.offset ≡ 21
unfolding advance Int32.ge Int32.add copy_range write_at u32
copied_offset = refl

copied_whole : length (copied.buffer.bytes) ≡ copied.buffer.capacity
unfolding advance Int32.ge Int32.add copy_range write_at u32
copied_whole = refl

copied_room : 8 < copied.buffer.capacity
unfolding advance Int32.ge Int32.add copy_range write_at u32
copied_room = omega arith

copied_small : copied.buffer.capacity + (10 + 4) < 2 ^ 31
unfolding advance Int32.ge Int32.add copy_range write_at u32
copied_small = omega arith

copied_order : copied.accepted ≡ (1 ∷ 2 ∷ 3 ∷ []) ∷ (7 ∷ 8 ∷ []) ∷ []
unfolding advance Int32.ge Int32.add copy_range write_at u32
copied_order = refl

crossed-InWrite : InWrite (crossed.pc 1)
unfolding advance Int32.ge Int32.add copy_range write_at u32
crossed-InWrite = tt

Reach-advance_example :
    (r : Buffer × Pc × List Bytes) × (advance crossed.buffer (crossed.pc 1) ≡ some r)
Reach-advance_example = Reach-advance 10 blank crossed 1 blank-IsReady crossed-Reach crossed-InWrite

Reach-contents_example :
    (drop 8 (take (copied.buffer.offset) (copied.buffer.bytes)) ≡ encode (copied.accepted))
    × (copied.buffer.offset < copied.buffer.capacity)
Reach-contents_example = Reach-contents 10 blank copied blank-IsReady copied-Reach copied-Settled

get_data-early_example :
    (s : System) × Reach 10 blank s
    × (s.accepted ≡ (1 ∷ 2 ∷ 3 ∷ []) ∷ [])
    × (s.buffer.offset ≡ 8 + size (1 ∷ 2 ∷ 3 ∷ []))
    × (get_data (s.buffer) ((s.buffer.writes_started, s.buffer.writes_completed) ∷ [])
        ≡ some (blank.bytes, true))
get_data-early_example =
    get_data-early 10 blank 1 (2 ∷ 3 ∷ []) [] blank-IsReady refl refl (omega arith) (omega arith)

new_buffer-IsReady_example : IsReady 100 (new_buffer 4000 60 7)
new_buffer-IsReady_example = new_buffer-IsReady 4000 60 7 100 (omega arith)

alloc_aligned_buffer-length_example :
    (length (alloc_aligned_buffer 4000 68) ≡ align_size 68)
    × ((4000 + aligned_start 4000) % alignment_size ≡ 0)
alloc_aligned_buffer-length_example = alloc_aligned_buffer-length 4000 68

reset-IsReady_example : IsReady 10 (reset (copied.buffer))
reset-IsReady_example = reset-IsReady 10 (copied.buffer) copied_whole copied_room copied_small
