-- ===== src/BufferSet/Room.antt =====
-- One buffer as a sequence of messages, and the write that has room.
use logger_double_buffer.Base.{
  ℕ, ◌+◌, ◌≤◌, ◌<◌, ◌^◌, ◌≡◌, inl, inr, refl, sym, ap, ◌∙◌, some, List, [], ◌∷◌, ◌++◌, append_assoc,
  arith, length, take, drop, length-take, drop-append_le, Bool-cases,
}
use logger_double_buffer.Base.Int32
use logger_double_buffer.Base.Bytes.{
  Bytes, u32, write_at, copy_range-eq, length-u32, length-write_at, take-write_at,
}
use logger_double_buffer.Shard.Contents.{record_of, encode, encode-snoc}
use logger_double_buffer.AsyncBuffer.{
  Buffer, fill, finish, start, complete, tally, total_size, length_prefix_size, nearly_full,
}
use logger_double_buffer.AsyncBuffer.Known.{end_of-eq}

-- A buffer in order that holds the messages, oldest first.
pub record Holds (b : Buffer) (ms : List Bytes) : Type 0 where
  pub whole : length (b.bytes) ≡ b.capacity
  pub low : 8 ≤ b.offset
  pub inside : b.offset < b.capacity
  pub small : b.capacity < 2 ^ 31
  pub content : drop 8 (take (b.offset) (b.bytes)) ≡ encode ms

-- The bytes after a record is put at the offset.
abbrev pub recorded : Buffer → Bytes → Bytes
recorded b p = write_at (write_at (b.bytes) (b.offset) (u32 (length p))) (b.offset + 4) p

module _ (b : Buffer) (ms : List Bytes) (p : Bytes) (v : Holds b ms)
    (room : b.offset + (4 + length p) < b.capacity) where
  pub fits_in :
      (b.offset + length (u32 (length p)) ≤ length (b.bytes))
      × (b.offset + 4 + length p ≤ length (b.bytes))
  fits_in = let four = length-u32 (length p) in (omega (arith, v.whole), omega (arith, v.whole))

  pub recorded-length :
      (length (write_at (b.bytes) (b.offset) (u32 (length p))) ≡ length (b.bytes))
      × (length (recorded b p) ≡ length (b.bytes))
  recorded-length =
      let first = length-write_at (b.bytes) (b.offset) (u32 (length p)) fits_in.0 in
      let (one, two) = fits_in in
      (
        first,
        length-write_at (write_at (b.bytes) (b.offset) (u32 (length p))) (b.offset + 4) p
              (omega arith)
            ∙ first,
      )

  pub recorded-content :
      drop 8 (take (b.offset + (4 + length p)) (recorded b p)) ≡ encode (ms ++ p ∷ [])
  recorded-content =
      let four = length-u32 (length p) in
      let (one, two) = fits_in in
      let (first, second) = recorded-length in
      let size = length-take (b.offset) (b.bytes) in
      let taken : take (b.offset + (4 + length p)) (recorded b p)
          ≡ take (b.offset) (b.bytes) ++ record_of p =
        ap (λ (n : ℕ). take n (recorded b p)) (sum_assoc (b.offset) (length p))
        ∙ (take-write_at (write_at (b.bytes) (b.offset) (u32 (length p))) (b.offset + 4) p
              (omega arith)
            ∙ (ap (λ xs. xs ++ p)
                  (ap (λ (n : ℕ). take n (write_at (b.bytes) (b.offset) (u32 (length p))))
                      (ap (◌+◌ (b.offset)) (sym four))
                    ∙ take-write_at (b.bytes) (b.offset) (u32 (length p)) one)
                ∙ append_assoc (take (b.offset) (b.bytes)) (u32 (length p)) p)) in
      ap (drop 8) taken
      ∙ (drop-append_le (take (b.offset) (b.bytes)) (record_of p) 8
            (omega (arith, v.whole, v.low, v.inside))
          ∙ (ap (λ xs. xs ++ record_of p) v.content ∙ sym (encode-snoc ms p)))
    where
      sum_assoc : (m n : ℕ) → m + (4 + n) ≡ m + 4 + n
      sum_assoc m n = omega arith

  -- The buffer after a write that had room, before it is flagged.
  abbrev pub after : Buffer
  after = tally (
      complete
        (record (start (record b { offset = b.offset + (4 + length p) })) { bytes = recorded b p }))

  pub after-Holds : Holds after (ms ++ p ∷ [])
  after-Holds = record {
    whole = recorded-length.1 ∙ v.whole;
    low = omega (arith, v.low);
    inside = room;
    small = v.small;
    content = recorded-content;
  }

  pub fill-eq :
      (limit : b.capacity + (4 + length p) < 2 ^ 31)
      → fill b (b.offset) (Int32.add (b.offset) (total_size p)) p
        ≡ some (finish after (length_prefix_size + length p) (b.offset + (4 + length p)))
  unfolding fill
  fill-eq limit =
      let (one, two) = fits_in in
      let (first, second) = recorded-length in
      let small = v.small in
      let whole = v.whole in
      let four = length-u32 (length p) in
      let end : Int32.add (b.offset) (total_size p) ≡ b.offset + (4 + length p) =
        end_of-eq p (b.offset) (omega arith) in
      let behind : Int32.add (b.offset) length_prefix_size ≡ b.offset + 4 =
        Int32.add-eq (b.offset) 4 (omega arith) in
      let prefixed =
        copy_range-eq (b.bytes) (b.offset) (u32 (length p)) one (b.offset + 4) (omega arith)
          (omega arith) in
      let put =
        copy_range-eq (write_at (b.bytes) (b.offset) (u32 (length p))) (b.offset + 4) p
          (omega arith) (b.offset + (4 + length p)) (omega arith) (omega arith) in
      rw (end, behind, prefixed, put) refl

pub Holds-finish :
    (b : Buffer) (ms : List Bytes) (n k : ℕ)
    → Holds b ms
    → Holds ((finish b n k).2) ms × ((finish b n k).2.capacity ≡ b.capacity)
Holds-finish b ms n k v = elim (Bool-cases (nearly_full b k)) [
  | inl full ↦ rw full (
    record {
      whole = v.whole;
      low = v.low;
      inside = v.inside;
      small = v.small;
      content = v.content;
    },
    refl,
  )
  | inr room ↦ rw room (v, refl)
]

pub finish-eq : (b : Buffer) (n k : ℕ) → finish b n k ≡ (n, nearly_full b k, (finish b n k).2)
finish-eq b n k = elim (Bool-cases (nearly_full b k)) [
  | inl full ↦ rw full refl
  | inr room ↦ rw room refl
]
