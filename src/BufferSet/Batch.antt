-- ===== src/BufferSet/Batch.antt =====
-- A set of buffers as sequences of messages: what Write, HasData and Reset do to it.
use native.Mathlib.Nat.{mod-lt}
use logger_double_buffer.Base.{
  ℕ, suc, ◌+◌, ◌%◌, ◌≤◌, ◌<◌, ◌^◌, ◌≡◌, ◌≢◌, refl, sym, ap, ◌∙◌, Bool, true, false, ◌||◌, some,
  List, [], ◌∷◌, map, arith, ltb, ◌==◌, length, get_elem?, set, length-set, if-false,
}
use logger_double_buffer.Base.Int.{ℤ, pos}
use logger_double_buffer.Base.Int32
use logger_double_buffer.Base.Bytes.{Bytes}
use logger_double_buffer.AsyncBuffer
use logger_double_buffer.AsyncBuffer.{Buffer}
use logger_double_buffer.BufferSet.{BufferSet, write, has_data, any, reset}
use logger_double_buffer.BufferSet.Room.{Holds}
use logger_double_buffer.BufferSet.Sequence.{reset-Holds, content-length, encode-cons}
use logger_double_buffer.BufferSet.Rounds.{HeldAll, SetHolds, TookIn, write_at-WrittenAt}

abbrev pub capacities : BufferSet → List ℕ
capacities bs = map (λ (b : Buffer). b.capacity) (bs.shards)

-- What a write of `p` does to a set.
pub record SetWritten (limit : ℕ) (bs : BufferSet) (ms : List (List Bytes)) (p : Bytes)
    : Type 0 where
  pub taken : ℕ
  pub flush : Bool
  pub shard_id : ℤ
  pub after : BufferSet
  pub messages : List (List Bytes)
  pub ran : write bs p ≡ some (taken, flush, shard_id, after)
  pub holds : SetHolds limit after messages
  pub same_id : after.id ≡ bs.id
  pub same_capacities : capacities after ≡ capacities bs
  pub took : TookIn p taken ms messages

-- The index that the round robin gives.
abbrev next_index : BufferSet → ℕ
next_index bs = (bs.counter + 1) % 2 ^ 64 % bs.num_shards

write-eq :
    (bs : BufferSet) (byte : ℕ) (p : Bytes) {s : Buffer} {n : ℕ} {flush : Bool} {t : Buffer}
    → 0 < bs.num_shards
    → get_elem? (bs.shards) (next_index bs) ≡ some s
    → AsyncBuffer.write s (byte ∷ p) ≡ some (n, flush, t)
    → write bs (byte ∷ p)
      ≡ some (
        n,
        flush,
        pos (next_index bs),
        record bs {
          shards = set (bs.shards) (next_index bs) t;
          counter = (bs.counter + 1) % 2 ^ 64;
        },
      )
unfolding write
write-eq bs byte p {s} {n} {flush} {t} some_shard e f =
    let test : (bs.num_shards == 0) ≡ false = ground arith in
    if-false (bs.num_shards == 0) _ _ test ∙ rw (e, f) refl

-- On a set that holds `ms`, Write of a payload of at most `limit` bytes that is not empty returns: one
-- of the buffers appends the payload, or none does. The id and the capacities stay.
pub write-SetWritten :
    (limit : ℕ) (bs : BufferSet) (ms : List (List Bytes)) (p : Bytes)
    → SetHolds limit bs ms
    → length p ≤ limit
    → p ≢ []
    → SetWritten limit bs ms p
write-SetWritten limit bs ms [] v short ne = absurd (ne refl)
write-SetWritten limit bs ms (byte ∷ p) v short ne =
    let inside : next_index bs < bs.num_shards = mod-lt ((bs.counter + 1) % 2 ^ 64) v.enough in
    let w =
      write_at-WrittenAt limit (bs.shards) ms (next_index bs) (byte ∷ p) v.held
        (omega (arith, v.counted)) short ne in
    record {
      taken = w.taken;
      flush = w.flush;
      shard_id = pos (next_index bs);
      after = record bs {
        shards = set (bs.shards) (next_index bs) w.buffer;
        counter = (bs.counter + 1) % 2 ^ 64;
      };
      messages = w.messages;
      ran = write-eq bs byte p v.enough w.is_shard w.ran;
      holds = record {
        held = w.held;
        counted = length-set (bs.shards) (next_index bs) w.buffer ∙ v.counted;
        enough = v.enough;
      };
      same_id = refl;
      same_capacities = w.capacities;
      took = w.took;
    }

-- No message anywhere.
abbrev pub none_of : List (List Bytes) → List (List Bytes)
none_of = map (λ (m : List Bytes). [])

HeldAll-reset :
    (limit : ℕ) (bs : List Buffer) (ms : List (List Bytes))
    → HeldAll limit bs ms
    → HeldAll limit (map AsyncBuffer.reset bs) (none_of ms)
unfolding AsyncBuffer.reset
HeldAll-reset limit [] [] h = h
HeldAll-reset limit [] (m ∷ ms) h = absurd h
HeldAll-reset limit (b ∷ bs) [] h = absurd h
HeldAll-reset limit (b ∷ bs) (m ∷ ms) (v, small, rest) =
    (reset-Holds b m v, small, HeldAll-reset limit bs ms rest)

capacities-reset :
    (bs : List Buffer)
    → map (λ (b : Buffer). b.capacity) (map AsyncBuffer.reset bs)
      ≡ map (λ (b : Buffer). b.capacity) bs
unfolding AsyncBuffer.reset
capacities-reset [] = refl
capacities-reset (b ∷ bs) = ap (◌∷◌ (b.capacity)) (capacities-reset bs)

pub reset-SetHolds :
    (limit : ℕ) (bs : BufferSet) (ms : List (List Bytes))
    → SetHolds limit bs ms
    → SetHolds limit (reset bs) (none_of ms) × (capacities (reset bs) ≡ capacities bs)
unfolding reset
reset-SetHolds limit bs ms v = (
  record {
    held = HeldAll-reset limit (bs.shards) ms v.held;
    counted = length-map AsyncBuffer.reset (bs.shards) ∙ v.counted;
    enough = v.enough;
  },
  capacities-reset (bs.shards),
)
  where
    length-map : (f : Buffer → Buffer) (xs : List Buffer) → length (map f xs) ≡ length xs
    length-map f [] = refl
    length-map f (x ∷ xs) = ap suc (length-map f xs)

-- A buffer that has data holds a message, and the other way round.
pub has_data-Holds :
    (b : Buffer) (ms : List Bytes) → Holds b ms → Int32.gt (b.offset) 8 ≡ ltb 0 (length ms)
has_data-Holds b [] v =
    let size = content-length b [] v in
    let (inside, small) : (b.offset < b.capacity) × (b.capacity < 2 ^ 31) = (v.inside, v.small) in
    Int32.gt-eq (b.offset) 8 (omega arith) (omega arith) ∙ ground arith
has_data-Holds b (m ∷ ms) v =
    let size = content-length b (m ∷ ms) v in
    let more = encode-cons m ms in
    let (inside, small) : (b.offset < b.capacity) × (b.capacity < 2 ^ 31) = (v.inside, v.small) in
    Int32.gt-eq (b.offset) 8 (omega arith) (omega arith) ∙ ground arith

none_in : (m : List Bytes) → ltb 0 (length m) ≡ false → m ≡ []
none_in [] e = refl
none_in (x ∷ m) e = absurd (ground arith)

or-false : (x y : Bool) → (x || y) ≡ false → (x ≡ false) × (y ≡ false)
or-false true y e = absurd (cc)
or-false false y e = (refl, e)

any-none :
    (limit : ℕ) (xs : List Buffer) (ms : List (List Bytes))
    → HeldAll limit xs ms
    → any AsyncBuffer.has_data xs ≡ false
    → ms ≡ none_of ms
unfolding any AsyncBuffer.has_data
any-none limit [] [] h e = refl
any-none limit [] (m ∷ ms) h e = absurd h
any-none limit (b ∷ xs) [] h e = absurd h
any-none limit (b ∷ xs) (m ∷ ms) (w, small, rest) e =
    let (here, there) = or-false (Int32.gt (b.offset) 8) (any AsyncBuffer.has_data xs) e in
    ap (λ n. n ∷ ms) (none_in m (sym (has_data-Holds b m w) ∙ here))
    ∙ ap (◌∷◌ []) (any-none limit xs ms rest there)

-- Where HasData answers no, there is no message.
pub has_data-none :
    (limit : ℕ) (bs : BufferSet) (ms : List (List Bytes))
    → SetHolds limit bs ms
    → has_data bs ≡ false
    → ms ≡ none_of ms
unfolding has_data
has_data-none limit bs ms v e = any-none limit (bs.shards) ms v.held e
