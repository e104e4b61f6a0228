-- ===== src/AsyncBuffer/Schedules.antt =====
-- Schedules: a run given as a list of moves, to carry runs out. And the moment between the
-- reservation of a range in Write and the raise of writesStarted, as GetData sees it.
use logger_double_buffer.Base.{
  ℕ, ◌+◌, ◌≤◌, ◌<◌, ◌^◌, ◌≡◌, refl, ap, subst, inl, inr, ◌∙◌, true, false, Option, none, some, List,
  [], ◌∷◌, ◌++◌, arith, ◌==◌, ==_iff, leb, leb→le, Bool-cases, if◌then◌else◌, ◌>>=◌, length,
  take_all,
}
use logger_double_buffer.Base.Bytes.{Bytes}
use logger_double_buffer.AsyncBuffer.{Buffer, get_data, wait_completed}
use logger_double_buffer.AsyncBuffer.Runs.{IsReady}
use logger_double_buffer.AsyncBuffer.Layout.{size}
use logger_double_buffer.AsyncBuffer.Known.{end_of-eq}
use logger_double_buffer.Base.Int32
use logger_double_buffer.Base.Int32.{is_negative}
use logger_double_buffer.AsyncBuffer.Steps.{
  Pc, idle, entered, waiting, refusing, reserving, reserved, prefixing, copying, completing,
  tallying, ending, returned, update, advance, end_of, System, Step, operation, call, leave, Reach,
  here, next,
}

-- A move of one goroutine.
pub data Move : Type 0 where
  go : ℕ → Move
  begin : ℕ → Bytes → Move
  exit : ℕ → Move

abbrev entering : ℕ → System → ℕ → Bytes → Pc → Option System
entering limit s i p idle =
    if leb (length p) limit then some (record s { pc = update (s.pc) i (entered p) }) else none
entering limit s i p _ = none

abbrev leaving : System → ℕ → Pc → Option System
leaving s i (returned n flush) = some (record s { pc = update (s.pc) i idle })
leaving s i _ = none

abbrev pub perform : ℕ → Move → System → Option System
perform limit (go i) s = advance s.buffer (s.pc i) >>= λ (r : Buffer × Pc × List Bytes).
    some (record { buffer = r.0; pc = update (s.pc) i r.1; accepted = s.accepted ++ r.2 })
perform limit (begin i p) s = entering limit s i p (s.pc i)
perform limit (exit i) s = leaving s i (s.pc i)

abbrev pub play : ℕ → List Move → System → Option System
play limit [] s = some s
play limit (m ∷ ms) s = perform limit m s >>= λ t. play limit ms t

bind-some {ℓ κ} :
    {A : Type ℓ} {B : Type κ} (o : Option A) (f : A → Option B) (b : B)
    → (o >>= f) ≡ some b
    → (a : A) × (o ≡ some a) × (f a ≡ some b)
bind-some none f b e = absurd (cc)
bind-some (some a) f b e = (a, refl, e)

module _ (limit : ℕ) (s t : System) (i : ℕ) where
  entering-Step :
      (p : Bytes) (q : Pc) → s.pc i ≡ q → entering limit s i p q ≡ some t → Step limit s t
  entering-Step p idle at e = elim (Bool-cases (leb (length p) limit)) [
    | inl short ↦
        let made : entering limit s i p idle
            ≡ some (record s { pc = update (s.pc) i (entered p) }) =
          rw short refl in
        call i p at (leb→le (length p) limit short) (cc)
    | inr long ↦ let made : entering limit s i p idle ≡ none = rw long refl in absurd (cc)
  ]
  entering-Step p (entered q) at e = absurd (cc)
  entering-Step p (waiting q) at e = absurd (cc)
  entering-Step p (refusing q) at e = absurd (cc)
  entering-Step p (reserving q c) at e = absurd (cc)
  entering-Step p (reserved q c) at e = absurd (cc)
  entering-Step p (prefixing q c) at e = absurd (cc)
  entering-Step p (copying q c) at e = absurd (cc)
  entering-Step p (completing q c) at e = absurd (cc)
  entering-Step p (tallying q c) at e = absurd (cc)
  entering-Step p (ending q c) at e = absurd (cc)
  entering-Step p (returned n flush) at e = absurd (cc)

  leaving-Step : (q : Pc) → s.pc i ≡ q → leaving s i q ≡ some t → Step limit s t
  leaving-Step idle at e = absurd (cc)
  leaving-Step (entered q) at e = absurd (cc)
  leaving-Step (waiting q) at e = absurd (cc)
  leaving-Step (refusing q) at e = absurd (cc)
  leaving-Step (reserving q c) at e = absurd (cc)
  leaving-Step (reserved q c) at e = absurd (cc)
  leaving-Step (prefixing q c) at e = absurd (cc)
  leaving-Step (copying q c) at e = absurd (cc)
  leaving-Step (completing q c) at e = absurd (cc)
  leaving-Step (tallying q c) at e = absurd (cc)
  leaving-Step (ending q c) at e = absurd (cc)
  leaving-Step (returned n flush) at e = leave i n flush at (cc)

perform-Step : (limit : ℕ) (m : Move) (s t : System) → perform limit m s ≡ some t → Step limit s t
perform-Step limit (go i) s t e =
    let ((b, q, new), made, at) =
      bind-some (advance s.buffer (s.pc i))
        (λ (r : Buffer × Pc × List Bytes).
          some (record { buffer = r.0; pc = update (s.pc) i r.1; accepted = s.accepted ++ r.2 }))
        t e in
    operation i b q new made (cc)
perform-Step limit (begin i p) s t e = entering-Step limit s t i p (s.pc i) refl e
perform-Step limit (exit i) s t e = leaving-Step limit s t i (s.pc i) refl e

pub play-Reach :
    (limit : ℕ) (b : Buffer) (ms : List Move) (s t : System)
    → Reach limit b s
    → play limit ms s ≡ some t
    → Reach limit b t
play-Reach limit b [] s t h e = subst (Reach limit b) (cc) h
play-Reach limit b (m ∷ ms) s t h e =
    let (u, made, rest) = bind-some (perform limit m s) (play limit ms) t e in
    play-Reach limit b ms u t (next h (perform-Step limit m s u made)) rest

-- A goroutine that has just reserved the range of its payload.
abbrev holding : Buffer → Bytes → System
holding b p = record {
  buffer = record b { offset = end_of p (b.offset) };
  pc =
      update
        (update (update (update (λ i. idle) 0 (entered p)) 0 (waiting p)) 0
          (reserving p (b.offset)))
        0 (reserved p (b.offset));
  accepted = p ∷ [];
}

holding-Reach :
    (limit : ℕ) (b : Buffer) (byte : ℕ) (p : Bytes)
    → length (byte ∷ p) ≤ limit
    → b.ready_for_flush ≡ false
    → Int32.ge (end_of (byte ∷ p) (b.offset)) (b.capacity) ≡ false
    → Reach limit b (holding b (byte ∷ p))
unfolding advance
holding-Reach limit b byte p short free room =
    let same : (b.offset == b.offset) ≡ true = (==_iff (b.offset) (b.offset)).1 refl in
    next
      (next
        (next (next here (call 0 (byte ∷ p) refl short refl))
          (operation 0 b (waiting (byte ∷ p)) [] (rw free refl) refl))
        (operation 0 b (reserving (byte ∷ p) (b.offset)) [] (rw room refl) refl))
      (operation 0 (record b { offset = end_of (byte ∷ p) (b.offset) })
        (reserved (byte ∷ p) (b.offset)) ((byte ∷ p) ∷ []) (rw same refl) refl)

-- On a buffer that starts empty, with equal counters, and for a payload that fits, there is a run in
-- which the payload's range is reserved, the offset counts it, and GetData answers that every write
-- is complete, at its first look and with the bytes of before the write.
pub get_data-early :
    (limit : ℕ) (b : Buffer) (byte : ℕ) (p : Bytes) (loads : List (ℕ × ℕ))
    → IsReady limit b
    → b.ready_for_flush ≡ false
    → b.writes_started ≡ b.writes_completed
    → length (byte ∷ p) ≤ limit
    → 8 + size (byte ∷ p) < b.capacity
    → (s : System) × Reach limit b s
      × (s.accepted ≡ (byte ∷ p) ∷ [])
      × (s.buffer.offset ≡ 8 + size (byte ∷ p))
      × (get_data (s.buffer) ((s.buffer.writes_started, s.buffer.writes_completed) ∷ loads)
          ≡ some (b.bytes, true))
unfolding get_data wait_completed
get_data-early limit b byte p loads v free even short room =
    let (empty, whole, small) : (b.offset ≡ 8)
        × (length (b.bytes) ≡ b.capacity)
        × (b.capacity + (limit + 4) < 2 ^ 31) =
      (v.empty, v.whole, v.small) in
    let end : end_of (byte ∷ p) (b.offset) ≡ b.offset + size (byte ∷ p) =
      end_of-eq (byte ∷ p) (b.offset) (omega arith) in
    let test : Int32.ge (end_of (byte ∷ p) (b.offset)) (b.capacity) ≡ false =
      ap (λ n. Int32.ge n (b.capacity)) end
      ∙ (Int32.ge-eq (b.offset + size (byte ∷ p)) (b.capacity) (omega arith) (omega arith)
          ∙ ground arith) in
    let looked : (b.writes_started == b.writes_completed) ≡ true =
      (==_iff (b.writes_started) (b.writes_completed)).1 even in
    let positive : is_negative (b.capacity) ≡ false = ground arith in
    let enough : leb (b.capacity) (length (b.bytes)) ≡ true = ground arith in
    (
      holding b (byte ∷ p),
      holding-Reach limit b byte p short free test,
      refl,
      end ∙ omega arith,
      rw (positive, enough, looked)
          (ap (λ xs. some (xs, true)) (take_all (b.capacity) (b.bytes) (omega arith))),
    )
