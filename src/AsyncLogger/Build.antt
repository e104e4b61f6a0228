-- ===== src/AsyncLogger/Build.antt =====
-- asynclogger/logger.go, New, with asynclogger/buffer_set.go, NewBufferSet: the logger that calls start
-- with.
use logger_double_buffer.Base.{
  ℕ, zero, suc, ◌+◌, ◌%◌, ◌<◌, ◌≤◌, ◌^◌, ◌≡◌, refl, ap, false, some, List, [], arith, length, take,
  drop_all, length-take, replicate,
}
use logger_double_buffer.Base.Int.{ℤ}
use logger_double_buffer.Base.Bytes.{Bytes}
use logger_double_buffer.ShardCollection.{layout}
use logger_double_buffer.ShardCollection.Build.{layout_bounds}
use logger_double_buffer.AsyncBuffer.{Buffer, new_buffer}
use logger_double_buffer.AsyncBuffer.Runs.{IsReady}
use logger_double_buffer.AsyncBuffer.Fresh.{new_buffer-IsReady}
use logger_double_buffer.BufferSet.{BufferSet, new_shards, new_buffer_set}
use logger_double_buffer.BufferSet.Room.{Holds}
use logger_double_buffer.BufferSet.Rounds.{HeldAll, SetHolds}
use logger_double_buffer.AsyncLogger.{Logger, Which, set_of, new_logger, no_statistics}
use logger_double_buffer.AsyncLogger.Sets.{AllHold}
use logger_double_buffer.AsyncLogger.Swaps.{IsTagged}

-- A buffer that is ready for writers holds nothing.
IsReady-Holds : (limit : ℕ) (b : Buffer) → IsReady limit b → Holds b []
IsReady-Holds limit b v = record {
  whole = v.whole;
  low = omega (arith, v.empty);
  inside = omega (arith, v.empty, v.room);
  small = omega (arith, v.small);
  content =
      drop_all 8 (take (b.offset) (b.bytes))
        (omega (arith, v.empty, length-take (b.offset) (b.bytes)));
}

-- The messages of a set of `n` new buffers.
abbrev pub nothing : ℕ → List (List Bytes)
nothing n = replicate n []

new_shards-HeldAll :
    (addr : ℕ → ℕ) (capacity i n limit : ℕ)
    → capacity + (limit + 8192) < 2 ^ 31
    → HeldAll limit (new_shards addr capacity i n) (nothing n)
      × (length (new_shards addr capacity i n) ≡ n)
unfolding new_shards
new_shards-HeldAll addr capacity i zero limit small = (tt, refl)
new_shards-HeldAll addr capacity i (suc n) limit small =
    let v = new_buffer-IsReady (addr i) capacity (i % 2 ^ 32) limit small in
    let (rest, size) = new_shards-HeldAll addr capacity (i + 1) n limit small in
    (
      (
        IsReady-Holds limit (new_buffer (addr i) capacity (i % 2 ^ 32)) v,
        omega (arith, v.small),
        rest,
      ),
      ap suc size,
    )

module _ (addr : ℕ → ℕ) (total num : ℤ) (id limit : ℕ) {capacity n : ℕ}
    (fits : layout total num ≡ some (capacity, n))
    (small : capacity + (limit + 8192) < 2 ^ 31) where
  abbrev fresh : BufferSet
  fresh = record { shards = new_shards addr capacity 0 n; num_shards = n; id = id; counter = 0 }

  new_buffer_set-eq : new_buffer_set addr total num id ≡ some fresh
  unfolding new_buffer_set
  new_buffer_set-eq = rw fits refl

  fresh-SetHolds : SetHolds limit fresh (nothing n)
  fresh-SetHolds =
      let (held, size) = new_shards-HeldAll addr capacity 0 n limit small in
      let bounds = layout_bounds total num fits in
      record { held = held; counted = size; enough = omega arith }

-- The logger over two new sets.
abbrev fresh_logger : {W : Type 0} → BufferSet → BufferSet → W → Logger W
fresh_logger set_a set_b w = record {
  set_a = set_a;
  set_b = set_b;
  active = Which.a;
  file_writer = w;
  flush_chan = [];
  next_id = 2;
  swapping = false;
  closed = false;
  stats = no_statistics;
}

module _ {W : Type 0} (limit n : ℕ) (set_a set_b : BufferSet) (w : W) where
  fresh-AllHold :
      SetHolds limit set_a (nothing n)
      → SetHolds limit set_b (nothing n)
      → AllHold limit (fresh_logger set_a set_b w) (λ x. nothing n)
  fresh-AllHold h k Which.a = h
  fresh-AllHold h k Which.b = k

module _ {W : Type 0} (set_a set_b : BufferSet) (w : W) (zero_a : set_a.id ≡ 0)
    (one_b : set_b.id ≡ 1) where
  fresh-IsTagged : IsTagged (fresh_logger set_a set_b w)
  fresh-IsTagged = record { distinct = λ e. omega arith; below = low }
    where
      low : (x : Which) → (set_of x (fresh_logger set_a set_b w)).id ≤ 2
      low Which.a = omega arith
      low Which.b = omega arith

-- A new logger.
pub record IsFresh {W : Type 0} (limit n : ℕ) (w : W) (l : Logger W) : Type 0 where
  pub holds : AllHold limit l (λ x. nothing n)
  pub tagged : IsTagged l
  pub opened : l.closed ≡ false
  pub free : l.swapping ≡ false
  pub idle : l.flush_chan ≡ []
  pub writer : l.file_writer ≡ w

-- Where the capacity of a buffer that NewBufferSet settles on, the payloads of at most `limit` bytes
-- and 8192 bytes (for the header, the rounding up to a page and a length prefix) together stay below
-- 2^31, New returns a logger: its two sets hold nothing, their ids tell them apart, it is
-- open, no swap is under way and nothing waits to be flushed, wherever the buffers lie in memory.
pub new_logger-IsFresh :
    {W : Type 0} (addr : Which → ℕ → ℕ) (total num : ℤ) (w : W) (limit capacity n : ℕ)
    → layout total num ≡ some (capacity, n)
    → capacity + (limit + 8192) < 2 ^ 31
    → (l : Logger W) × (new_logger addr total num w ≡ some l) × IsFresh limit n w l
unfolding new_logger
new_logger-IsFresh {W} addr total num w limit capacity n fits small =
    let ea = new_buffer_set-eq (addr Which.a) total num 0 limit fits small in
    let eb = new_buffer_set-eq (addr Which.b) total num 1 limit fits small in
    let set_a = fresh (addr Which.a) total num 0 limit fits small in
    let set_b = fresh (addr Which.b) total num 1 limit fits small in
    (
      fresh_logger set_a set_b w,
      rw (ea, eb) refl,
      record {
        holds =
            fresh-AllHold limit n set_a set_b w
              (fresh-SetHolds (addr Which.a) total num 0 limit fits small)
              (fresh-SetHolds (addr Which.b) total num 1 limit fits small);
        tagged = fresh-IsTagged set_a set_b w refl refl;
        opened = refl;
        free = refl;
        idle = refl;
        writer = refl;
      },
    )
