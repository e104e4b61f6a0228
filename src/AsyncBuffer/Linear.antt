-- ===== src/AsyncBuffer/Linear.antt =====
-- The operations of a writer, against the invariant of Order.antt.
use logger_double_buffer.Base.{
  ℕ, ◌+◌, ◌<◌, ◌^◌, ◌≡◌, inl, inr, refl, sym, ap, subst, ◌∙◌, true, false, none, some, List, [],
  ◌∷◌, ◌++◌, append-nil, arith, ◌==◌, leb, not_leb→lt, length, Bool-cases, ==_iff,
}
use logger_double_buffer.Base.Int32
use logger_double_buffer.Base.Bytes.{Bytes, u32, write_at}
use logger_double_buffer.AsyncBuffer.{
  Buffer, length_prefix_size, start, complete, tally, nearly_full,
}
use logger_double_buffer.AsyncBuffer.Steps.{
  Pc, idle, entered, waiting, refusing, reserving, reserved, prefixing, copying, completing,
  tallying, ending, returned, update, end_of, advance, System,
}
use logger_double_buffer.AsyncBuffer.Layout.{Entry, size, Owned}
use logger_double_buffer.AsyncBuffer.Order.{
  IsOrdered, move-IsOrdered, reserve-IsOrdered, prefix-IsOrdered, payload-IsOrdered,
}
use logger_double_buffer.AsyncBuffer.Known.{Known, end_of-eq}
use logger_double_buffer.AsyncBuffer.Moves.{own}

-- The system after an operation of `i`.
abbrev pub after : System → ℕ → Buffer × Pc × List Bytes → System
after s i (b, q, new) = record { buffer = b; pc = update (s.pc) i q; accepted = s.accepted ++ new }

-- A goroutine that is between two operations of Write.
abbrev pub InWrite : Pc → Type 0
InWrite idle = ⊥
InWrite (entered p) = Unit
InWrite (waiting p) = Unit
InWrite (refusing p) = Unit
InWrite (reserving p c) = Unit
InWrite (reserved p c) = Unit
InWrite (prefixing p c) = Unit
InWrite (copying p c) = Unit
InWrite (completing p c) = Unit
InWrite (tallying p c) = Unit
InWrite (ending p c) = Unit
InWrite (returned n flush) = ⊥

-- The operation is made, and the invariant holds after it.
abbrev pub Advances : ℕ → System → ℕ → Type 0
Advances limit s i =
    (r : Buffer × Pc × List Bytes) × (advance s.buffer (s.pc i) ≡ some r)
    × ((log : List Entry) × IsOrdered limit (after s i r) log)

module _ (limit : ℕ) (s : System) (log : List Entry) (v : IsOrdered limit s log) (i : ℕ) where
  -- An operation that reserves nothing and moves no bytes.
  moved :
      (q : Pc)
      → s.pc i ≡ q
      → ((a : ℕ) (p : Bytes) → Owned q a p (s.buffer.bytes) → ⊥)
      → (b : Buffer) (q' : Pc) → advance s.buffer q ≡ some (b, q', [])
      → b.bytes ≡ s.buffer.bytes
      → b.offset ≡ s.buffer.offset
      → b.capacity ≡ s.buffer.capacity
      → Known limit (s.buffer.capacity) log i q'
      → Advances limit s i
  moved q at free b q' e bytes offset capacity k = (
    (b, q', []),
    ap (advance s.buffer) at ∙ e,
    (
      log,
      rw append-nil (
          move-IsOrdered limit s log v i b q' bytes offset capacity
            (λ a p o. absurd (free a p (subst (λ x. Owned x a p (s.buffer.bytes)) at o))) k),
    ),
  )

  reserves :
      (p : Bytes) (c : ℕ)
      → s.pc i ≡ reserving p c
      → s.buffer.offset ≡ c
      → c + size p < s.buffer.capacity
      → Advances limit s i
  unfolding advance
  reserves p c at same room =
      let small : s.buffer.capacity + (limit + 4) < 2 ^ 31 = v.small in
      let end : end_of p (s.buffer.offset) ≡ s.buffer.offset + size p =
        end_of-eq p (s.buffer.offset) (omega arith) in
      let here : s.pc i ≡ reserving p (s.buffer.offset) = at ∙ ap (reserving p) (sym same) in
      let test : (s.buffer.offset == s.buffer.offset) ≡ true =
        (==_iff (s.buffer.offset) (s.buffer.offset)).1 refl in
      (
        (
          record (s.buffer) { offset = s.buffer.offset + size p },
          reserved p (s.buffer.offset),
          p ∷ [],
        ),
        ap (advance s.buffer) here ∙ rw (test, end) refl,
        (
          log ++ record { payload = p; owner = some i } ∷ [],
          reserve-IsOrdered limit s log v i p here (omega arith),
        ),
      )

  pub advances :
      (q : Pc)
      → s.pc i ≡ q
      → InWrite q
      → Known limit (s.buffer.capacity) log i q
      → Advances limit s i
  unfolding advance
  advances idle at there k = absurd there
  advances (entered []) at there k =
      moved (entered []) at (λ a p o. o) (s.buffer) (returned 0 false) refl refl refl refl tt
  advances (entered (byte ∷ p)) at there k = elim (Bool-cases (s.buffer.ready_for_flush)) [
    | inl full ↦
        moved (entered (byte ∷ p)) at (λ a p' o. o) (s.buffer) (returned 0 true) (rw full refl) refl
          refl refl tt
    | inr room ↦
        moved (entered (byte ∷ p)) at (λ a p' o. o) (s.buffer) (waiting (byte ∷ p)) (rw room refl)
          refl refl refl k
  ]
  advances (waiting p) at there k =
      let (small, inside) : (s.buffer.capacity + (limit + 4) < 2 ^ 31)
          × (s.buffer.offset < s.buffer.capacity) =
        (v.small, v.inside) in
      let end : end_of p (s.buffer.offset) ≡ s.buffer.offset + size p =
        end_of-eq p (s.buffer.offset) (omega arith) in
      let test : Int32.ge (end_of p (s.buffer.offset)) (s.buffer.capacity)
          ≡ leb (s.buffer.capacity) (s.buffer.offset + size p) =
        ap (λ n. Int32.ge n (s.buffer.capacity)) end
        ∙ Int32.ge-eq (s.buffer.offset + size p) (s.buffer.capacity) (omega arith) (omega arith) in
      elim (Bool-cases (leb (s.buffer.capacity) (s.buffer.offset + size p))) [
        | inl full ↦
            moved (waiting p) at (λ a p' o. o) (s.buffer) (refusing p) (rw (test, full) refl) refl
              refl refl k
        | inr room ↦
            moved (waiting p) at (λ a p' o. o) (s.buffer) (reserving p (s.buffer.offset))
              (rw (test, room) refl) refl refl refl
              (k, not_leb→lt (s.buffer.capacity) (s.buffer.offset + size p) room)
      ]
  advances (refusing p) at there k =
      moved (refusing p) at (λ a p' o. o) (record (s.buffer) { ready_for_flush = true })
        (returned 0 true) refl refl refl refl tt
  advances (reserving p c) at there k = elim (Bool-cases (s.buffer.offset == c)) [
    | inl same ↦ reserves p c at ((==_iff (s.buffer.offset) c).0 same) k.1
    | inr moved_on ↦
        moved (reserving p c) at (λ a p' o. o) (s.buffer) (entered p) (rw moved_on refl) refl refl
          refl (k.0)
  ]
  advances (reserved p c) at there k = (
    (start (s.buffer), prefixing p c, []),
    ap (advance s.buffer) at,
    (
      log,
      rw append-nil (
          move-IsOrdered limit s log v i (start (s.buffer)) (prefixing p c) refl refl refl
            (λ a q o. subst (λ x. Owned x a q (s.buffer.bytes)) at o) k),
    ),
  )
  advances (prefixing p c) at there k =
      let (put, order) = prefix-IsOrdered limit s log v i p c k at in
      (
        (
          record (s.buffer) { bytes = write_at (s.buffer.bytes) c (u32 (length p)) },
          copying p c,
          [],
        ),
        ap (advance s.buffer) at ∙ rw put refl,
        (own 8 c (some i) log, rw append-nil order),
      )
  advances (copying p c) at there k =
      let (put, order) = payload-IsOrdered limit s log v i p c k at in
      (
        (record (s.buffer) { bytes = write_at (s.buffer.bytes) (c + 4) p }, completing p c, []),
        ap (advance s.buffer) at ∙ rw put refl,
        (own 8 c none log, rw append-nil order),
      )
  advances (completing p c) at there k =
      moved (completing p c) at (λ a p' o. o) (complete (s.buffer)) (tallying p c) refl refl refl
        refl tt
  advances (tallying p c) at there k =
      moved (tallying p c) at (λ a p' o. o) (tally (s.buffer)) (ending p c) refl refl refl refl tt
  advances (ending p c) at there k = elim (Bool-cases (nearly_full (s.buffer) (end_of p c))) [
    | inl full ↦
        moved (ending p c) at (λ a p' o. o) (record (s.buffer) { ready_for_flush = true })
          (returned (length_prefix_size + length p) true) (rw full refl) refl refl refl tt
    | inr room ↦
        moved (ending p c) at (λ a p' o. o) (s.buffer)
          (returned (length_prefix_size + length p) false) (rw room refl) refl refl refl tt
  ]
  advances (returned n flush) at there k = absurd there
