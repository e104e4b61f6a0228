-- ===== src/AsyncBuffer/Alone.antt =====
-- asynclogger/buffer.go: one goroutine alone in Write, and the operations that it makes.
use logger_double_buffer.Base.{
  ℕ, zero, suc, ◌+◌, ap, ◌∙◌, ◌≡◌, refl, inl, inr, Bool, true, false, Option, none, some, List, [],
  ◌∷◌, ◌==◌, ==_iff, if◌then◌else◌, ◌>>=◌, length, Bool-cases,
}
use logger_double_buffer.Base.Int32
use logger_double_buffer.Base.Bytes.{Bytes}
use logger_double_buffer.AsyncBuffer.{
  Buffer, write, fill, length_prefix_size, put_prefix, put_payload, nearly_full, finish, start,
  complete, tally,
}
use logger_double_buffer.AsyncBuffer.Linear.{InWrite}
use logger_double_buffer.AsyncBuffer.Steps.{
  Pc, entered, waiting, reserving, reserved, prefixing, copying, completing, tallying, ending,
  refusing, idle, returned, advance, end_of,
}

-- The operations of a goroutine up to its return.
pub alone : ℕ → Buffer → Pc → Option (ℕ × Bool × Buffer)
alone fuel b (returned n flush) = some (n, flush, b)
alone zero b q = none
alone (suc fuel) b q = advance b q >>= λ (r : Buffer × Pc × List Bytes). alone fuel r.0 r.1

alone-bind :
    (n : ℕ) (b : Buffer) (q : Pc)
    → InWrite q
    → alone (suc n) b q ≡ (advance b q >>= λ (r : Buffer × Pc × List Bytes). alone n r.0 r.1)
unfolding alone
alone-bind n b idle there = absurd there
alone-bind n b (entered p) there = refl
alone-bind n b (waiting p) there = refl
alone-bind n b (refusing p) there = refl
alone-bind n b (reserving p c) there = refl
alone-bind n b (reserved p c) there = refl
alone-bind n b (prefixing p c) there = refl
alone-bind n b (copying p c) there = refl
alone-bind n b (completing p c) there = refl
alone-bind n b (tallying p c) there = refl
alone-bind n b (ending p c) there = refl
alone-bind n b (returned m flush) there = absurd there

alone-returned :
    (n m : ℕ) (b : Buffer) (flush : Bool) → alone n b (returned m flush) ≡ some (m, flush, b)
unfolding alone
alone-returned zero m b flush = refl
alone-returned (suc n) m b flush = refl

alone-advance :
    (n m : ℕ) (b b' : Buffer) (q q' : Pc) (new : List Bytes)
    → InWrite q
    → advance b q ≡ some (b', q', new)
    → m ≡ suc n
    → alone m b q ≡ alone n b' q'
alone-advance n m b b' q q' new there e at =
    ap (λ k. alone k b q) at
    ∙ (alone-bind n b q there ∙ ap (λ o. o >>= λ (r : Buffer × Pc × List Bytes). alone n r.0 r.1) e)

-- The end of Write.
alone-ending :
    (b : Buffer) (p : Bytes) (c : ℕ)
    → alone 1 b (ending p c) ≡ some (finish b (length_prefix_size + length p) (end_of p c))
unfolding advance
alone-ending b p c = elim (Bool-cases (nearly_full b (end_of p c))) [
  | inl full ↦ rw full (
      alone-advance 0 1 b (record b { ready_for_flush = true }) (ending p c)
        (returned (length_prefix_size + length p) true) [] tt (rw full refl) refl
      ∙ alone-returned 0 (length_prefix_size + length p) (record b { ready_for_flush = true }) true)
  | inr room ↦ rw room (
      alone-advance 0 1 b b (ending p c) (returned (length_prefix_size + length p) false) [] tt
        (rw room refl) refl
      ∙ alone-returned 0 (length_prefix_size + length p) b false)
]

alone-completing :
    (b : Buffer) (p : Bytes) (c : ℕ)
    → alone 3 b (completing p c)
      ≡ some (finish (tally (complete b)) (length_prefix_size + length p) (end_of p c))
unfolding advance
alone-completing b p c =
    alone-advance 2 3 b (complete b) (completing p c) (tallying p c) [] tt refl refl
    ∙ (alone-advance 1 2 (complete b) (tally (complete b)) (tallying p c) (ending p c) [] tt refl
          refl
        ∙ alone-ending (tally (complete b)) p c)

-- The copy of the payload, and what follows it.
abbrev payload_on : Buffer → Bytes → ℕ → Option (ℕ × Bool × Buffer)
payload_on b p c = put_payload b.bytes c (end_of p c) p >>= λ bytes. some (
    finish (tally (complete (record b { bytes = bytes }))) (length_prefix_size + length p)
      (end_of p c))

copied :
    (b : Buffer) (p : Bytes) (c : ℕ) (o : Option Bytes)
    → ((o >>= λ bytes. some (record b { bytes = bytes }, completing p c, []))
        >>= λ (r : Buffer × Pc × List Bytes). alone 3 r.0 r.1)
      ≡ (o >>= λ bytes. some (
          finish
            (tally (complete (record b { bytes = bytes })))
            (length_prefix_size + length p)
            (end_of p c)))
copied b p c none = refl
copied b p c (some xs) = alone-completing (record b { bytes = xs }) p c

alone-copying : (b : Buffer) (p : Bytes) (c : ℕ) → alone 4 b (copying p c) ≡ payload_on b p c
unfolding advance
alone-copying b p c =
    alone-bind 3 b (copying p c) tt ∙ copied b p c (put_payload b.bytes c (end_of p c) p)

-- The copy of the length prefix, and what follows it.
prefixed :
    (b : Buffer) (p : Bytes) (c : ℕ) (o : Option Bytes)
    → ((o >>= λ bytes. some (record b { bytes = bytes }, copying p c, []))
        >>= λ (r : Buffer × Pc × List Bytes). alone 4 r.0 r.1)
      ≡ (o >>= λ bytes. payload_on (record b { bytes = bytes }) p c)
prefixed b p c none = refl
prefixed b p c (some xs) = alone-copying (record b { bytes = xs }) p c

alone-prefixing :
    (b : Buffer) (p : Bytes) (c : ℕ)
    → alone 5 b (prefixing p c)
      ≡ (put_prefix b.bytes c p >>= λ bytes. payload_on (record b { bytes = bytes }) p c)
unfolding advance
alone-prefixing b p c = alone-bind 4 b (prefixing p c) tt ∙ prefixed b p c (put_prefix b.bytes c p)

-- The reservation, and what follows it.
alone-reserving :
    (b : Buffer) (p : Bytes)
    → alone 7 b (reserving p (b.offset)) ≡ fill b (b.offset) (end_of p (b.offset)) p
unfolding advance fill
alone-reserving b p =
    let same : (b.offset == b.offset) ≡ true = (==_iff (b.offset) (b.offset)).1 refl in
    alone-advance 6 7 b (record b { offset = end_of p (b.offset) }) (reserving p (b.offset))
      (reserved p (b.offset)) (p ∷ []) tt (rw same refl) refl
    ∙ (alone-advance 5 6 (record b { offset = end_of p (b.offset) })
          (start (record b { offset = end_of p (b.offset) })) (reserved p (b.offset))
          (prefixing p (b.offset)) [] tt refl refl
        ∙ alone-prefixing (start (record b { offset = end_of p (b.offset) })) p (b.offset))

alone-waiting :
    (b : Buffer) (p : Bytes)
    → alone 8 b (waiting p) ≡ (
        if Int32.ge (end_of p (b.offset)) b.capacity
        then some (0, true, record b { ready_for_flush = true })
        else fill b (b.offset) (end_of p (b.offset)) p)
unfolding advance
alone-waiting b p = elim (Bool-cases (Int32.ge (end_of p (b.offset)) (b.capacity))) [
  | inl full ↦ rw full (
      alone-advance 7 8 b b (waiting p) (refusing p) [] tt (rw full refl) refl
      ∙ (alone-advance 6 7 b (record b { ready_for_flush = true }) (refusing p) (returned 0 true) []
            tt refl refl
          ∙ alone-returned 6 0 (record b { ready_for_flush = true }) true))
  | inr room ↦ rw room (
      alone-advance 7 8 b b (waiting p) (reserving p (b.offset)) [] tt (rw room refl) refl
      ∙ alone-reserving b p)
]

alone-entered :
    (b : Buffer) (byte : ℕ) (p : Bytes) (full : Bool)
    → b.ready_for_flush ≡ full
    → alone 9 b (entered (byte ∷ p)) ≡ (
        if full
        then some (0, true, b)
        else if Int32.ge (end_of (byte ∷ p) (b.offset)) b.capacity
        then some (0, true, record b { ready_for_flush = true })
        else fill b (b.offset) (end_of (byte ∷ p) (b.offset)) (byte ∷ p))
unfolding advance
alone-entered b byte p true e =
    alone-advance 8 9 b b (entered (byte ∷ p)) (returned 0 true) [] tt (rw e refl) refl
    ∙ alone-returned 8 0 b true
alone-entered b byte p false e =
    alone-advance 8 9 b b (entered (byte ∷ p)) (waiting (byte ∷ p)) [] tt (rw e refl) refl
    ∙ alone-waiting b (byte ∷ p)

-- A goroutine that no other one disturbs, whatever the buffer: nine operations make up Write, with the
-- same results, the same buffer and the same panics.
pub alone-write : (b : Buffer) (p : Bytes) → alone 9 b (entered p) ≡ write b p
unfolding advance write fill
alone-write b [] = alone-bind 8 b (entered []) tt ∙ alone-returned 8 0 b false
alone-write b (byte ∷ p) = alone-entered b byte p (b.ready_for_flush) refl
