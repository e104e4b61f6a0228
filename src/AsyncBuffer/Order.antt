-- ===== src/AsyncBuffer/Order.antt =====
-- The invariant of the runs: how the ranges that were reserved lie in the buffer, and what each
-- goroutine knows for its next operation.
use logger_double_buffer.Base.{
  ℕ, ◌+◌, ◌≤◌, ◌<◌, ◌^◌, ◌≡◌, refl, sym, ap, subst, ◌∙◌, none, some, List, [], ◌∷◌, ◌++◌, arith,
  map-append, length, map,
}
use logger_double_buffer.Base.Int32
use logger_double_buffer.Base.Bytes.{
  Bytes, u32, write_at, copy_range-eq, length-u32, length-write_at,
}
use logger_double_buffer.AsyncBuffer.{Buffer, length_prefix_size, put_prefix, put_payload}
use logger_double_buffer.AsyncBuffer.Steps.{
  Pc, reserving, reserved, prefixing, copying, completing, update, update-same, end_of, System,
}
use logger_double_buffer.AsyncBuffer.Layout.{
  Entry, size, Owned, Laid, Has, Has-bounds, Laid-move, Laid-append, Has-last,
}
use logger_double_buffer.AsyncBuffer.Moves.{own, map-own, Has-owner}
use logger_double_buffer.AsyncBuffer.Puts.{Laid-prefix, Laid-payload, Has-prefixed}
use logger_double_buffer.AsyncBuffer.Known.{Known, Known-append, Known-own, everyone, end_of-eq}

abbrev pub payloads : List Entry → List Bytes
payloads = map (λ (e : Entry). e.payload)

-- The invariant, with the ranges as an argument.
pub record IsOrdered (limit : ℕ) (s : System) (log : List Entry) : Type 0 where
  pub same : payloads log ≡ s.accepted
  pub whole : length (s.buffer.bytes) ≡ s.buffer.capacity
  pub small : s.buffer.capacity + (limit + 4) < 2 ^ 31
  pub laid : Laid (s.pc) (s.buffer.bytes) 8 log (s.buffer.offset)
  pub inside : s.buffer.offset < s.buffer.capacity
  pub known : (i : ℕ) → Known limit (s.buffer.capacity) log i (s.pc i)

module _ (limit : ℕ) (s : System) (log : List Entry) (v : IsOrdered limit s log) (i : ℕ) where
  -- A step that touches neither the bytes nor the offset, of a goroutine that keeps its range.
  pub move-IsOrdered :
      (b : Buffer) (q : Pc)
      → b.bytes ≡ s.buffer.bytes
      → b.offset ≡ s.buffer.offset
      → b.capacity ≡ s.buffer.capacity
      → ((a : ℕ) (p : Bytes) → Owned (s.pc i) a p (s.buffer.bytes) → Owned q a p (s.buffer.bytes))
      → Known limit (s.buffer.capacity) log i q
      → IsOrdered limit (record { buffer = b; pc = update (s.pc) i q; accepted = s.accepted }) log
  move-IsOrdered b q bytes offset capacity keep k = record {
    same = v.same;
    whole = ap length bytes ∙ (v.whole ∙ sym capacity);
    small = omega (arith, v.small);
    laid =
        rw (bytes, offset)
          (Laid-move (s.pc) (s.buffer.bytes) i q 8 log (s.buffer.offset) keep v.laid);
    inside = omega (arith, v.inside);
    known = rw capacity (
        everyone (λ j x. Known limit (s.buffer.capacity) log j x) (s.pc) i q k (λ j ne. v.known j));
  }

  -- A range is reserved.
  pub reserve-IsOrdered :
      (p : Bytes)
      → s.pc i ≡ reserving p (s.buffer.offset)
      → s.buffer.offset + size p < s.buffer.capacity
      → IsOrdered limit
          (record {
            buffer = record (s.buffer) { offset = s.buffer.offset + size p };
            pc = update (s.pc) i (reserved p (s.buffer.offset));
            accepted = s.accepted ++ p ∷ [];
          })
          (log ++ record { payload = p; owner = some i } ∷ [])
  reserve-IsOrdered p e room = record {
    same =
        map-append (λ (d : Entry). d.payload) log (record { payload = p; owner = some i } ∷ [])
        ∙ ap (λ xs. xs ++ p ∷ []) v.same;
    whole = v.whole;
    small = v.small;
    laid =
        Laid-append (update (s.pc) i (reserved p (s.buffer.offset))) (s.buffer.bytes) 8 log
          (s.buffer.offset) (record { payload = p; owner = some i })
          (Laid-move (s.pc) (s.buffer.bytes) i (reserved p (s.buffer.offset)) 8 log
            (s.buffer.offset) (λ a q k. absurd (subst (λ x. Owned x a q (s.buffer.bytes)) e k))
            v.laid)
          (rw (update-same (s.pc) i (reserved p (s.buffer.offset))) (refl, refl));
    inside = room;
    known =
        everyone
          (λ j x.
            Known limit (s.buffer.capacity) (log ++ record { payload = p; owner = some i } ∷ []) j
              x)
          (s.pc) i (reserved p (s.buffer.offset))
          (Has-last (s.pc) (s.buffer.bytes) 8 log (s.buffer.offset) p i v.laid)
          (λ j ne.
            Known-append limit (s.buffer.capacity) log (record { payload = p; owner = some i } ∷ [])
              j (s.pc j) (v.known j));
  }

  module _ (p : Bytes) (c : ℕ) (has : Has 8 log c p i) where
    in_range : (8 ≤ c) × (c + size p < length (s.buffer.bytes)) × (length (s.buffer.bytes) < 2 ^ 31)
    in_range =
        let (lo, hi) =
          Has-bounds (s.pc) (s.buffer.bytes) 8 log (s.buffer.offset) c p i v.laid has in
        (lo, omega (arith, v.whole, v.small, v.inside), omega (arith, v.whole, v.small, v.inside))

    -- The length prefix is written.
    pub prefix-IsOrdered :
        s.pc i ≡ prefixing p c
        → (put_prefix (s.buffer.bytes) c p ≡ some (write_at (s.buffer.bytes) c (u32 (length p))))
          × IsOrdered limit
              (record {
                buffer = record (s.buffer) { bytes = write_at (s.buffer.bytes) c (u32 (length p)) };
                pc = update (s.pc) i (copying p c);
                accepted = s.accepted;
              })
              (own 8 c (some i) log)
    prefix-IsOrdered e =
        let (lo, fits, small) = in_range in
        let four = length-u32 (length p) in
        let room : c + length (u32 (length p)) ≤ length (s.buffer.bytes) = omega arith in
        let behind : Int32.add c length_prefix_size ≡ c + 4 = Int32.add-eq c 4 (omega arith) in
        let size_kept = length-write_at (s.buffer.bytes) c (u32 (length p)) room in
        (
          rw behind
              (copy_range-eq (s.buffer.bytes) c (u32 (length p)) room (c + 4) (omega arith) small),
          record {
            same = map-own 8 c (some i) log ∙ v.same;
            whole = size_kept ∙ v.whole;
            small = v.small;
            laid =
                Laid-prefix (s.pc) (s.buffer.bytes) log (s.buffer.offset) c p i v.laid has
                  (omega (arith, v.whole, v.inside)) e;
            inside = v.inside;
            known =
                everyone (λ j x. Known limit (s.buffer.capacity) (own 8 c (some i) log) j x) (s.pc)
                  i (copying p c)
                  (Has-owner (s.pc) (s.buffer.bytes) 8 log (s.buffer.offset) c p i v.laid has)
                  (λ j ne.
                    Known-own (s.pc) (s.buffer.bytes) log (s.buffer.offset) c p i (some i) v.laid
                      has limit (s.buffer.capacity) j (s.pc j) ne (v.known j));
          },
        )

    -- The payload is written.
    pub payload-IsOrdered :
        s.pc i ≡ copying p c
        → (put_payload (s.buffer.bytes) c (end_of p c) p
            ≡ some (write_at (s.buffer.bytes) (c + 4) p))
          × IsOrdered limit
              (record {
                buffer = record (s.buffer) { bytes = write_at (s.buffer.bytes) (c + 4) p };
                pc = update (s.pc) i (completing p c);
                accepted = s.accepted;
              })
              (own 8 c none log)
    payload-IsOrdered e =
        let (lo, fits, small) = in_range in
        let room : c + 4 + length p ≤ length (s.buffer.bytes) = omega arith in
        let behind : Int32.add c length_prefix_size ≡ c + 4 = Int32.add-eq c 4 (omega arith) in
        let end : end_of p c ≡ c + (4 + length p) = end_of-eq p c (omega arith) in
        let size_kept = length-write_at (s.buffer.bytes) (c + 4) p room in
        (
          rw (behind, end)
              (copy_range-eq (s.buffer.bytes) (c + 4) p room (c + (4 + length p)) (omega arith)
                small),
          record {
            same = map-own 8 c none log ∙ v.same;
            whole = size_kept ∙ v.whole;
            small = v.small;
            laid =
                Laid-payload (s.pc) (s.buffer.bytes) log (s.buffer.offset) c p i v.laid has
                  (omega (arith, v.whole, v.inside)) (completing p c) e
                  (Has-prefixed (s.pc) (s.buffer.bytes) 8 log (s.buffer.offset) c p i v.laid has e);
            inside = v.inside;
            known =
                everyone (λ j x. Known limit (s.buffer.capacity) (own 8 c none log) j x) (s.pc) i
                  (completing p c) tt
                  (λ j ne.
                    Known-own (s.pc) (s.buffer.bytes) log (s.buffer.offset) c p i none v.laid has
                      limit (s.buffer.capacity) j (s.pc j) ne (v.known j));
          },
        )
