-- ===== src/BufferSet/Sequence.antt =====
-- One buffer as a sequence of messages: what Write, run alone, and Reset do to it.
use logger_double_buffer.Base.{
  ℕ, ◌+◌, ◌≤◌, ◌<◌, ◌^◌, ◌≡◌, ◌≢◌, ◌⊎◌, inl, inr, refl, ap, ◌∙◌, Bool, true, false, some, List, [],
  ◌∷◌, ◌++◌, arith, leb, length, take, length-append, length-take, length-drop, drop_all,
  Bool-cases, if-true, if-false, not_leb→lt,
}
use logger_double_buffer.Base.Int32
use logger_double_buffer.Base.Bytes.{Bytes, u32, length-u32}
use logger_double_buffer.Shard.Contents.{record_of, encode}
use logger_double_buffer.AsyncBuffer.{
  Buffer, write, finish, total_size, length_prefix_size, reset, nearly_full,
}
use logger_double_buffer.AsyncBuffer.Known.{end_of-eq}
use logger_double_buffer.BufferSet.Room.{
  Holds, after, after-Holds, fill-eq, Holds-finish, finish-eq,
}

-- A write of `p` took nothing, or appended it.
abbrev pub Took : Bytes → ℕ → List Bytes → List Bytes → Type 0
Took p n ms ms' = ((n ≡ 0) × (ms' ≡ ms)) ⊎ ((n ≡ 4 + length p) × (ms' ≡ ms ++ p ∷ []))

-- What a write of `p` does to a buffer that holds `ms`.
pub record Written (b : Buffer) (ms : List Bytes) (p : Bytes) : Type 0 where
  pub taken : ℕ
  pub flush : Bool
  pub buffer : Buffer
  pub messages : List Bytes
  pub ran : write b p ≡ some (taken, flush, buffer)
  pub holds : Holds buffer messages
  pub capacity : buffer.capacity ≡ b.capacity
  pub took : Took p taken ms messages

write-Written-open :
    (b : Buffer) (ms : List Bytes) (byte : ℕ) (p : Bytes) (full : Bool)
    → b.ready_for_flush ≡ full
    → Holds b ms
    → b.capacity + (4 + length (byte ∷ p)) < 2 ^ 31
    → Written b ms (byte ∷ p)
unfolding write
write-Written-open b ms byte p true e v limit = record {
  taken = 0;
  flush = true;
  buffer = b;
  messages = ms;
  ran = if-true (b.ready_for_flush) _ _ e;
  holds = v;
  capacity = refl;
  took = inl (refl, refl);
}
write-Written-open b ms byte p false e v limit =
    let (inside, small) : (b.offset < b.capacity) × (b.capacity < 2 ^ 31) = (v.inside, v.small) in
    let end : Int32.add (b.offset) (total_size (byte ∷ p)) ≡ b.offset + (4 + length (byte ∷ p)) =
      end_of-eq (byte ∷ p) (b.offset) (omega arith) in
    let test : Int32.ge (Int32.add (b.offset) (total_size (byte ∷ p))) (b.capacity)
        ≡ leb (b.capacity) (b.offset + (4 + length (byte ∷ p))) =
      ap (λ n. Int32.ge n (b.capacity)) end
      ∙ Int32.ge-eq (b.offset + (4 + length (byte ∷ p))) (b.capacity) (omega arith) (omega arith) in
    elim (Bool-cases (leb (b.capacity) (b.offset + (4 + length (byte ∷ p))))) [
      | inl full ↦ record {
        taken = 0;
        flush = true;
        buffer = record b { ready_for_flush = true };
        messages = ms;
        ran =
            if-false (b.ready_for_flush) _ _ e
            ∙ if-true (Int32.ge (Int32.add (b.offset) (total_size (byte ∷ p))) (b.capacity)) _ _
                (test ∙ full);
        holds = record {
          whole = v.whole;
          low = v.low;
          inside = v.inside;
          small = v.small;
          content = v.content;
        };
        capacity = refl;
        took = inl (refl, refl);
      }
      | inr fits ↦
          let room = not_leb→lt (b.capacity) (b.offset + (4 + length (byte ∷ p))) fits in
          let (held, same) =
            Holds-finish (after b ms (byte ∷ p) v room) (ms ++ (byte ∷ p) ∷ [])
              (length_prefix_size + length (byte ∷ p)) (b.offset + (4 + length (byte ∷ p)))
              (after-Holds b ms (byte ∷ p) v room) in
          record {
            taken = 4 + length (byte ∷ p);
            flush = nearly_full (after b ms (byte ∷ p) v room) (b.offset + (4 + length (byte ∷ p)));
            buffer =
                (finish (after b ms (byte ∷ p) v room) (length_prefix_size + length (byte ∷ p))
                  (b.offset + (4 + length (byte ∷ p)))).2;
            messages = ms ++ (byte ∷ p) ∷ [];
            ran =
                if-false (b.ready_for_flush) _ _ e
                ∙ (if-false (Int32.ge (Int32.add (b.offset) (total_size (byte ∷ p))) (b.capacity)) _
                      _ (test ∙ fits)
                    ∙ (fill-eq b ms (byte ∷ p) v room limit
                        ∙ ap some (
                            finish-eq (after b ms (byte ∷ p) v room)
                              (length_prefix_size + length (byte ∷ p))
                              (b.offset + (4 + length (byte ∷ p))))));
            holds = held;
            capacity = same;
            took = inr (refl, refl);
          }
    ]

-- On a buffer that holds `ms`, with no int32 sum that wraps, Write of a payload that is not empty
-- returns: it takes nothing, or appends the payload.
pub write-Written :
    (b : Buffer) (ms : List Bytes) (p : Bytes)
    → Holds b ms
    → b.capacity + (4 + length p) < 2 ^ 31
    → p ≢ []
    → Written b ms p
write-Written b ms [] v limit ne = absurd (ne refl)
write-Written b ms (byte ∷ p) v limit ne =
    write-Written-open b ms byte p (b.ready_for_flush) refl v limit

pub reset-Holds : (b : Buffer) (ms : List Bytes) → Holds b ms → Holds (reset b) []
unfolding reset
reset-Holds b ms v = record {
  whole = v.whole;
  low = omega arith;
  inside = omega (arith, v.low, v.inside);
  small = v.small;
  content = drop_all 8 (take 8 (b.bytes)) (omega (arith, length-take 8 (b.bytes)));
}

-- It has data when it holds a message.
pub content-length : (b : Buffer) (ms : List Bytes) → Holds b ms → b.offset ≡ 8 + length (encode ms)
content-length b ms v =
    let size = ap length v.content in
    omega (
      arith,
      size,
      v.whole,
      v.low,
      v.inside,
      length-take (b.offset) (b.bytes),
      length-drop 8 (take (b.offset) (b.bytes)),
    )

pub encode-cons : (p : Bytes) (ms : List Bytes) → 4 ≤ length (encode (p ∷ ms))
encode-cons p ms = omega (
  arith,
  length-append (record_of p) (encode ms),
  length-append (u32 (length p)) p,
  length-u32 (length p),
)
