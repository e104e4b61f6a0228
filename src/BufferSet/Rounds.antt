-- ===== src/BufferSet/Rounds.antt =====
-- A write to one buffer of a list.
use logger_double_buffer.Base.{
  ℕ, zero, suc, ◌+◌, ◌≤◌, ◌<◌, ◌^◌, ◌≡◌, ◌≢◌, ◌⊎◌, inl, inr, refl, ap, Bool, some, List, [], ◌∷◌,
  ◌++◌, map, arith, length, get_elem?, set,
}
use logger_double_buffer.Base.Bytes.{Bytes}
use logger_double_buffer.AsyncBuffer
use logger_double_buffer.AsyncBuffer.{Buffer}
use logger_double_buffer.BufferSet.{BufferSet}
use logger_double_buffer.BufferSet.Room.{Holds}
use logger_double_buffer.BufferSet.Sequence.{write-Written}

-- The buffers hold the messages listed for each, and take payloads of at most `limit` bytes.
abbrev pub HeldAll : ℕ → List Buffer → List (List Bytes) → Type 0
HeldAll limit [] [] = Unit
HeldAll limit [] (m ∷ ms) = ⊥
HeldAll limit (b ∷ bs) [] = ⊥
HeldAll limit (b ∷ bs) (m ∷ ms) =
    Holds b m × (b.capacity + (4 + limit) < 2 ^ 31) × HeldAll limit bs ms

-- A set whose buffers do, with at least one of them.
pub record SetHolds (limit : ℕ) (bs : BufferSet) (ms : List (List Bytes)) : Type 0 where
  pub held : HeldAll limit (bs.shards) ms
  pub counted : length (bs.shards) ≡ bs.num_shards
  pub enough : 0 < bs.num_shards

-- `p` is added at the end of exactly one of the sequences.
abbrev pub Appended : Bytes → List (List Bytes) → List (List Bytes) → Type 0
Appended p [] ms' = ⊥
Appended p (m ∷ ms) [] = ⊥
Appended p (m ∷ ms) (m' ∷ ms') = ((m' ≡ m ++ p ∷ []) × (ms' ≡ ms)) ⊎ ((m' ≡ m) × Appended p ms ms')

abbrev pub TookIn : Bytes → ℕ → List (List Bytes) → List (List Bytes) → Type 0
TookIn p n ms ms' = ((n ≡ 0) × (ms' ≡ ms)) ⊎ ((n ≡ 4 + length p) × Appended p ms ms')

-- A write to one buffer of a list.
pub record WrittenAt (limit : ℕ) (bs : List Buffer) (ms : List (List Bytes)) (i : ℕ) (p : Bytes)
    : Type 0 where
  pub shard : Buffer
  pub is_shard : get_elem? bs i ≡ some shard
  pub taken : ℕ
  pub flush : Bool
  pub buffer : Buffer
  pub messages : List (List Bytes)
  pub ran : AsyncBuffer.write shard p ≡ some (taken, flush, buffer)
  pub held : HeldAll limit (set bs i buffer) messages
  pub capacities :
      map (λ (b : Buffer). b.capacity) (set bs i buffer) ≡ map (λ (b : Buffer). b.capacity) bs
  pub took : TookIn p taken ms messages

pub write_at-WrittenAt :
    (limit : ℕ) (bs : List Buffer) (ms : List (List Bytes)) (i : ℕ) (p : Bytes)
    → HeldAll limit bs ms
    → i < length bs
    → length p ≤ limit
    → p ≢ []
    → WrittenAt limit bs ms i p
write_at-WrittenAt limit [] [] i p h lt short ne = absurd (omega arith)
write_at-WrittenAt limit [] (m ∷ ms) i p h lt short ne = absurd h
write_at-WrittenAt limit (b ∷ bs) [] i p h lt short ne = absurd h
write_at-WrittenAt limit (b ∷ bs) (m ∷ ms) zero p (v, small, rest) lt short ne =
    let w = write-Written b m p v (omega arith) ne in
    let same = w.capacity in
    record {
      shard = b;
      is_shard = refl;
      taken = w.taken;
      flush = w.flush;
      buffer = w.buffer;
      messages = w.messages ∷ ms;
      ran = w.ran;
      held = (w.holds, omega arith, rest);
      capacities = ap (λ c. c ∷ map (λ (d : Buffer). d.capacity) bs) same;
      took = elim (w.took) [
        | inl (z, e) ↦ inl (z, ap (λ x. x ∷ ms) e)
        | inr (z, e) ↦ inr (z, inl (e, refl))
      ];
    }
write_at-WrittenAt limit (b ∷ bs) (m ∷ ms) (suc i) p (v, small, rest) lt short ne =
    let w = write_at-WrittenAt limit bs ms i p rest (omega arith) short ne in
    record {
      shard = w.shard;
      is_shard = w.is_shard;
      taken = w.taken;
      flush = w.flush;
      buffer = w.buffer;
      messages = m ∷ w.messages;
      ran = w.ran;
      held = (v, small, w.held);
      capacities = ap (◌∷◌ (b.capacity)) w.capacities;
      took = elim (w.took) [
        | inl (z, e) ↦ inl (z, ap (◌∷◌ m) e)
        | inr (z, e) ↦ inr (z, inr (refl, e))
      ];
    }
