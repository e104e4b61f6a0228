-- ===== src/AsyncBuffer/Steps.antt =====
-- asynclogger/buffer.go, Write by several goroutines at once: each goroutine goes through Write one
-- atomic operation or copy at a time, in any order with the others. A copy is one step, as if all
-- its bytes were written at once. Reset is not among the steps: the runs are those between two
-- flushes.
use logger_double_buffer.Base.{
  ℕ, ◌+◌, ◌≤◌, ◌≡◌, ◌≢◌, Bool, true, false, Option, none, some, List, [], ◌∷◌, ◌++◌, arith, ◌==◌,
  if◌then◌else◌, ◌>>=◌, length,
}
use logger_double_buffer.Base.Int32
use logger_double_buffer.Base.Bytes.{Bytes}
use logger_double_buffer.AsyncBuffer.{
  Buffer, total_size, length_prefix_size, put_prefix, put_payload, start, complete, tally,
  nearly_full,
}

-- Where a goroutine stands in Write, with its payload and the offset that it loaded.
pub data Pc : Type 0 where
  idle : Pc
  entered waiting refusing : Bytes → Pc
  reserving reserved prefixing copying completing tallying ending : Bytes → ℕ → Pc
  returned : ℕ → Bool → Pc

-- newOffset
abbrev pub end_of : Bytes → ℕ → ℕ
end_of p current = Int32.add current (total_size p)

-- The next operation of a goroutine: the buffer, where it stands after it, and the payload whose
-- range it has just reserved, if any. `none` where there is no operation left, or a panic.
unfoldable pub advance : Buffer → Pc → Option (Buffer × Pc × List Bytes)
advance b idle = none
advance b (entered []) = some (b, returned 0 false, [])
advance b (entered (byte ∷ p)) =
    some (b, (if b.ready_for_flush then returned 0 true else waiting (byte ∷ p)), [])
advance b (waiting p) =
    some (
      b,
      (if Int32.ge (end_of p b.offset) b.capacity then refusing p else reserving p b.offset),
      [],
    )
advance b (refusing p) = some (record b { ready_for_flush = true }, returned 0 true, [])
advance b (reserving p c) =
    if b.offset == c
    then some (record b { offset = end_of p c }, reserved p c, p ∷ [])
    else some (b, entered p, [])
advance b (reserved p c) = some (start b, prefixing p c, [])
advance b (prefixing p c) =
    put_prefix b.bytes c p >>= λ bytes. some (record b { bytes = bytes }, copying p c, [])
advance b (copying p c) = put_payload b.bytes c (end_of p c) p >>= λ bytes.
    some (record b { bytes = bytes }, completing p c, [])
advance b (completing p c) = some (complete b, tallying p c, [])
advance b (tallying p c) = some (tally b, ending p c, [])
advance b (ending p c) =
    if nearly_full b (end_of p c)
    then some
        (record b { ready_for_flush = true }, returned (length_prefix_size + length p) true, [])
    else some (b, returned (length_prefix_size + length p) false, [])
advance b (returned n flush) = none

-- The buffer, where each goroutine stands, and a record of the payloads in the order in which their
-- ranges were reserved.
pub record System : Type 0 where
  pub buffer : Buffer
  pub pc : ℕ → Pc
  pub accepted : List Bytes

abbrev pub update : (ℕ → Pc) → ℕ → Pc → ℕ → Pc
update f i p j = if i == j then p else f j

pub update-same : (f : ℕ → Pc) (i : ℕ) (p : Pc) → update f i p i ≡ p
update-same f i p = ground arith

pub update-other : (f : ℕ → Pc) (i j : ℕ) (p : Pc) → i ≢ j → update f i p j ≡ f j
update-other f i j p ne = ground arith

-- A step of some goroutine: an operation, a call of Write with a payload of at most `limit` bytes,
-- or the return to the caller.
pub data Step (limit : ℕ) (s t : System) : Type 0 where
  operation :
      (i : ℕ) (b : Buffer) (p : Pc) (new : List Bytes)
      → advance s.buffer (s.pc i) ≡ some (b, p, new)
      → t ≡ record { buffer = b; pc = update (s.pc) i p; accepted = s.accepted ++ new }
      → Step limit s t
  call :
      (i : ℕ) (p : Bytes)
      → s.pc i ≡ idle
      → length p ≤ limit
      → t ≡ record s { pc = update (s.pc) i (entered p) }
      → Step limit s t
  leave :
      (i n : ℕ) (flush : Bool)
      → s.pc i ≡ returned n flush
      → t ≡ record s { pc = update (s.pc) i idle }
      → Step limit s t

-- Nobody is in Write.
abbrev pub at_rest : Buffer → System
at_rest b = record { buffer = b; pc = λ i. idle; accepted = [] }

pub data Reach (limit : ℕ) (b : Buffer) : System → Type 0 where
  here : Reach limit b (at_rest b)
  next : {s t : System} → Reach limit b s → Step limit s t → Reach limit b t
