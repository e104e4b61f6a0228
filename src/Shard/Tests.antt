-- ===== src/Shard/Tests.antt =====
-- Runs of Shard on small buffers.
use logger_double_buffer.Base.{
  ℕ, ◌*◌, ◌/◌, ◌^◌, ◌<◌, ◌≡◌, ◌≢◌, ◌⊎◌, refl, Bool, true, false, Option, some, [], ◌∷◌, ◌++◌, arith,
  leb, length, replicate, length-replicate,
}
use logger_double_buffer.Base.Int32
use logger_double_buffer.Base.Bytes.{Bytes, u32, copy_range, write_at}
use logger_double_buffer.Shard.{Shard, Side, write, new_shard, reset_enhanced, align_size}
use logger_double_buffer.Shard.Invariant.{IsValid, new_shard-IsValid}
use logger_double_buffer.Shard.Contents.{Messages, Represents, append_to, write_appends}
use logger_double_buffer.Shard.Outcome.{Stored, write_outcome}
use logger_double_buffer.Shard.Reset.{
  reset_enhanced-clears, reset_enhanced-keeps, contents-at_header,
}
use logger_double_buffer.Shard.Threshold.{write-threshold, write-threshold_wrapped}

abbrev pub blank : ℕ → Shard
blank n = record {
  buffer_a = replicate n 0;
  buffer_b = replicate n 0;
  active = some Side.a;
  offset_a = 8;
  offset_b = 8;
  capacity = n;
  id = 0;
  swapping = false;
  ready_for_flush = false;
  inflight_a = 0;
  inflight_b = 0;
}

abbrev pub no_messages : Messages
no_messages = record { on_a = []; on_b = [] }

abbrev pub hello : Bytes
hello = 104 ∷ 101 ∷ 108 ∷ 108 ∷ 111 ∷ []

pub hello-filled : hello ≢ []
hello-filled e = cc

pub blank-IsValid : (n : ℕ) → 8 < n → n < 2 ^ 31 → IsValid (blank n)
blank-IsValid n h k = record {
  length_a = length-replicate n 0;
  length_b = length-replicate n 0;
  pointed = λ e. cc;
  settled = refl;
  small = k;
  start_a = omega arith;
  start_b = omega arith;
  room_a = h;
  room_b = h;
}

pub blank-Represents : (n : ℕ) → Represents (blank n) no_messages
blank-Represents n = record {
  side_a = contents-at_header Side.a (blank n) refl;
  side_b = contents-at_header Side.b (blank n) refl;
}

-- A shard whose active side has the message `hello`.
abbrev pub greeted : Shard
greeted = record (blank 64) {
  buffer_a = replicate 8 0 ++ (5 ∷ 0 ∷ 0 ∷ 0 ∷ hello) ++ replicate 47 0;
  offset_a = 17;
}

abbrev pub one_message : Messages
one_message = record { on_a = hello ∷ []; on_b = [] }

pub greeted-IsValid : IsValid greeted
greeted-IsValid = record {
  length_a = refl;
  length_b = refl;
  pointed = λ e. cc;
  settled = refl;
  small = omega arith;
  start_a = omega arith;
  start_b = omega arith;
  room_a = omega arith;
  room_b = omega arith;
}

pub greeted-Represents : Represents greeted one_message
unfolding u32
greeted-Represents = record { side_a = refl; side_b = refl }

greeted_run : write (blank 64) hello ≡ some (9, false, greeted)
unfolding write copy_range write_at u32 Int32.ge Int32.add Int32.nine_tenths
greeted_run = refl

write_outcome_example :
    (n : ℕ) × (flush : Bool) × (t : Shard) × (m' : Messages) × (write greeted hello
      ≡ some (n, flush, t))
    × IsValid t
    × Represents t m'
    × (t.capacity ≡ 64)
    × Stored Side.a hello n one_message m'
    × ((0 < n) ⊎ (flush ≡ true))
write_outcome_example =
    write_outcome greeted hello one_message greeted-IsValid (omega arith) hello-filled
      greeted-Represents

write_appends_example :
    (t : Shard) × (write greeted hello ≡ some (9, Int32.ge 26 (Int32.nine_tenths 64), t))
    × IsValid t
    × Represents t (append_to Side.a hello one_message)
    × (t.capacity ≡ 64)
write_appends_example =
    write_appends greeted hello one_message greeted-IsValid (omega arith) hello-filled refl
      (omega arith) greeted-Represents

abbrev zero_byte : ℕ
zero_byte = 0

-- Mappings that never fail.
abbrev pub mmap : ℕ → Option Bytes
mmap n = some (replicate n 0)

pub mmap-length : (n : ℕ) (buf : Bytes) → mmap n ≡ some buf → length buf ≡ n
mmap-length n buf e =
    let size : length (replicate n zero_byte) ≡ n = length-replicate n zero_byte in ground arith

align_small : align_size 100 < 2 ^ 31
unfolding align_size
align_small = omega arith

made : new_shard (λ side. mmap) 100 3 ≡ some (record (blank 4096) { id = 3 })
unfolding new_shard align_size
made = refl

new_shard-IsValid_example : IsValid (record (blank 4096) { id = 3 })
new_shard-IsValid_example =
    new_shard-IsValid (λ side. mmap) 100 3 (λ side. mmap-length) (omega arith) align_small made

-- A shard with the message `hello` on both sides.
abbrev doubled : Shard
doubled = record greeted {
  buffer_b = replicate 8 0 ++ (5 ∷ 0 ∷ 0 ∷ 0 ∷ hello) ++ replicate 47 0;
  offset_b = 17;
  ready_for_flush = true;
}

doubled-IsValid : IsValid doubled
doubled-IsValid = record {
  length_a = refl;
  length_b = refl;
  pointed = λ e. cc;
  settled = refl;
  small = omega arith;
  start_a = omega arith;
  start_b = omega arith;
  room_a = omega arith;
  room_b = omega arith;
}

reset_enhanced-clears_example : Represents (reset_enhanced doubled) no_messages
reset_enhanced-clears_example = reset_enhanced-clears doubled doubled-IsValid (λ h. omega arith)

reset_enhanced-keeps_example : Represents (reset_enhanced greeted) one_message
reset_enhanced-keeps_example =
    reset_enhanced-keeps greeted one_message greeted-IsValid greeted-Represents refl

write-threshold_example : (t : Shard) × (write greeted hello ≡ some (9, leb (64 * 9 / 10) 26, t))
write-threshold_example =
    write-threshold greeted hello one_message greeted-IsValid (omega arith) hello-filled
      greeted-Represents (omega arith) (omega arith)

-- 256 MiB a shard.
abbrev large : ℕ
large = 268_435_456

write-threshold_wrapped_example : (t : Shard) × (write (blank large) hello ≡ some (9, true, t))
write-threshold_wrapped_example =
    write-threshold_wrapped (blank large) hello no_messages
      (blank-IsValid large (omega arith) (omega arith)) (omega arith) hello-filled
      (blank-Represents large) (omega arith) (omega arith) (omega arith)
