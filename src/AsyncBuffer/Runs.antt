-- ===== src/AsyncBuffer/Runs.antt =====
-- The runs of several writers on a buffer that was made or reset.
use logger_double_buffer.Base.{
  ℕ, ◌+◌, ◌-◌, ◌≤◌, ◌<◌, ◌^◌, ◌≡◌, refl, sym, ap, subst, ◌∙◌, Option, none, some, List, [], ◌∷◌,
  ◌++◌, arith, length, take, drop, drop-take,
}
use logger_double_buffer.Base.Bytes.{Bytes}
use logger_double_buffer.Shard.Contents.{encode, record_of}
use logger_double_buffer.AsyncBuffer.{Buffer}
use logger_double_buffer.AsyncBuffer.Slices.{slice, slice-append}
use logger_double_buffer.AsyncBuffer.Steps.{
  Pc, idle, entered, waiting, refusing, reserving, reserved, prefixing, copying, completing,
  tallying, ending, returned, advance, System, Step, operation, call, leave, Reach, here, next,
  at_rest,
}
use logger_double_buffer.AsyncBuffer.Layout.{Entry, size, Owned, EntryOk, Laid, Laid-le}
use logger_double_buffer.AsyncBuffer.Order.{IsOrdered, payloads, move-IsOrdered}
use logger_double_buffer.AsyncBuffer.Linear.{InWrite, advances, after}

-- A buffer with an empty data part, for payloads of at most `limit` bytes.
pub record IsReady (limit : ℕ) (b : Buffer) : Type 0 where
  pub empty : b.offset ≡ 8
  pub whole : length (b.bytes) ≡ b.capacity
  pub room : 8 < b.capacity
  pub small : b.capacity + (limit + 4) < 2 ^ 31

at_rest-IsOrdered : (limit : ℕ) (b : Buffer) → IsReady limit b → IsOrdered limit (at_rest b) []
at_rest-IsOrdered limit b v = record {
  same = refl;
  whole = v.whole;
  small = v.small;
  laid = sym (v.empty);
  inside = omega (arith, v.empty, v.room);
  known = λ i. tt;
}

advance-InWrite :
    (b : Buffer) (q : Pc) (r : Buffer × Pc × List Bytes) → advance b q ≡ some r → InWrite q
unfolding advance
advance-InWrite b idle r e = absurd (cc)
advance-InWrite b (entered p) r e = tt
advance-InWrite b (waiting p) r e = tt
advance-InWrite b (refusing p) r e = tt
advance-InWrite b (reserving p c) r e = tt
advance-InWrite b (reserved p c) r e = tt
advance-InWrite b (prefixing p c) r e = tt
advance-InWrite b (copying p c) r e = tt
advance-InWrite b (completing p c) r e = tt
advance-InWrite b (tallying p c) r e = tt
advance-InWrite b (ending p c) r e = tt
advance-InWrite b (returned n flush) r e = absurd (cc)

-- The invariant for some list of ranges.
abbrev Ordered : ℕ → System → Type 0
Ordered limit s = (log : List Entry) × IsOrdered limit s log

Step-Ordered : (limit : ℕ) (s t : System) → Step limit s t → Ordered limit s → Ordered limit t
Step-Ordered limit s t (operation i b q new e at) (log, v) =
    let there = advance-InWrite (s.buffer) (s.pc i) (b, q, new) e in
    let (r, e', done) = advances limit s log v i (s.pc i) refl there (v.known i) in
    let same : r ≡ (b, q, new) = cc in
    subst (Ordered limit) (sym at) (subst (λ x. Ordered limit (after s i x)) same done)
Step-Ordered limit s t (call i p out short at) (log, v) = subst (Ordered limit) (sym at) (
  log,
  move-IsOrdered limit s log v i (s.buffer) (entered p) refl refl refl
      (λ a q o. absurd (subst (λ x. Owned x a q (s.buffer.bytes)) out o)) short,
)
Step-Ordered limit s t (leave i n flush out at) (log, v) = subst (Ordered limit) (sym at) (
  log,
  move-IsOrdered limit s log v i (s.buffer) idle refl refl refl
      (λ a q o. absurd (subst (λ x. Owned x a q (s.buffer.bytes)) out o)) tt,
)

Reach-Ordered :
    (limit : ℕ) (b : Buffer) (s : System) → IsReady limit b → Reach limit b s → Ordered limit s
Reach-Ordered limit b s v here = ([], at_rest-IsOrdered limit b v)
Reach-Ordered limit b s v (next {s = r} h step) =
    Step-Ordered limit r s step (Reach-Ordered limit b r v h)

-- A goroutine that has no range to fill.
abbrev pub Settled : Pc → Type 0
Settled idle = Unit
Settled (entered p) = Unit
Settled (waiting p) = Unit
Settled (refusing p) = Unit
Settled (reserving p c) = Unit
Settled (reserved p c) = ⊥
Settled (prefixing p c) = ⊥
Settled (copying p c) = ⊥
Settled (completing p c) = Unit
Settled (tallying p c) = Unit
Settled (ending p c) = Unit
Settled (returned n flush) = Unit

Settled-free : (q : Pc) (a : ℕ) (p bytes : Bytes) → Settled q → Owned q a p bytes → ⊥
Settled-free idle a p bytes h o = o
Settled-free (entered q) a p bytes h o = o
Settled-free (waiting q) a p bytes h o = o
Settled-free (refusing q) a p bytes h o = o
Settled-free (reserving q c) a p bytes h o = o
Settled-free (reserved q c) a p bytes h o = h
Settled-free (prefixing q c) a p bytes h o = h
Settled-free (copying q c) a p bytes h o = h
Settled-free (completing q c) a p bytes h o = o
Settled-free (tallying q c) a p bytes h o = o
Settled-free (ending q c) a p bytes h o = o
Settled-free (returned n flush) a p bytes h o = o

-- The ranges are then full.
slice-Laid :
    (pc : ℕ → Pc) (bytes : Bytes) (s : ℕ) (log : List Entry) (o : ℕ)
    → ((i : ℕ) → Settled (pc i))
    → o ≤ length bytes
    → Laid pc bytes s log o
    → slice bytes s (o - s) ≡ encode (payloads log)
slice-Laid pc bytes s [] o quiet fits h =
    let none_left : o - s ≡ 0 = omega arith in ap (slice bytes s) none_left
slice-Laid pc bytes s (e ∷ es) o quiet fits h =
    let le = Laid-le pc bytes (s + size (e.payload)) es o h.1 in
    let split : o - s ≡ size (e.payload) + (o - (s + size (e.payload))) = omega arith in
    ap (slice bytes s) split
    ∙ (slice-append bytes s (size (e.payload)) (o - (s + size (e.payload))) (omega arith)
        ∙ (ap (λ xs. xs ++ slice bytes (s + size (e.payload)) (o - (s + size (e.payload))))
              (full (e.owner) h.0)
            ∙ ap (λ xs. record_of (e.payload) ++ xs)
                (slice-Laid pc bytes (s + size (e.payload)) es o quiet fits h.1)))
  where
    full :
        (w : Option ℕ)
        → EntryOk pc bytes s (e.payload) w
        → slice bytes s (size (e.payload)) ≡ record_of (e.payload)
    full none k = k
    full (some i) k = absurd (Settled-free (pc i) s (e.payload) bytes (quiet i) k)

-- However the writers interleave, on a buffer that starts empty and for payloads of at most `limit`
-- bytes: a goroutine that stands between two operations of Write makes its next one without a panic.
pub Reach-advance :
    (limit : ℕ) (b : Buffer) (s : System) (i : ℕ)
    → IsReady limit b
    → Reach limit b s
    → InWrite (s.pc i)
    → (r : Buffer × Pc × List Bytes) × (advance s.buffer (s.pc i) ≡ some r)
Reach-advance limit b s i v h there =
    let (log, w) = Reach-Ordered limit b s v h in
    let (r, e, done) = advances limit s log w i (s.pc i) refl there (w.known i) in (r, e)

-- However the writers interleave, on a buffer that starts empty and for payloads of at most `limit`
-- bytes: whenever no goroutine stands between its reservation and the end of its copies, the bytes
-- from the header to the offset are the records of the reserved payloads, whole and in the order of
-- the reservations, and the offset is below the capacity.
pub Reach-contents :
    (limit : ℕ) (b : Buffer) (s : System)
    → IsReady limit b
    → Reach limit b s
    → ((i : ℕ) → Settled (s.pc i))
    → (drop 8 (take (s.buffer.offset) (s.buffer.bytes)) ≡ encode (s.accepted))
      × (s.buffer.offset < s.buffer.capacity)
Reach-contents limit b s v h quiet =
    let (log, w) = Reach-Ordered limit b s v h in
    let fits : s.buffer.offset ≤ length (s.buffer.bytes) = omega (arith, w.whole, w.inside) in
    (
      drop-take 8 (s.buffer.offset) (s.buffer.bytes)
          ∙ (slice-Laid (s.pc) (s.buffer.bytes) 8 log (s.buffer.offset) quiet fits (w.laid)
              ∙ ap encode w.same),
      w.inside,
    )
