-- ===== src/AsyncLogger/Collects.antt =====
-- asynclogger/logger.go, flushSet: what a flush of one set writes, and what it leaves behind.
use logger_double_buffer.Base.{
  ℕ, suc, ◌+◌, ◌≤◌, ◌<◌, ◌^◌, ◌≡◌, refl, ap, ◌∙◌, Bool, true, ◌&&◌, not, none, some, List, [], ◌∷◌,
  ◌++◌, map, arith, leb, if◌then◌else◌, ◌>>=◌, length, drop, take_all, if-true, if-false, lt→ltb,
}
use logger_double_buffer.Base.Int32
use logger_double_buffer.Base.Bytes.{Bytes}
use logger_double_buffer.Shard.Contents.{encode}
use logger_double_buffer.Logger.Flush.{with_header, valid_bytes}
use logger_double_buffer.Logger.Blocks.{
  Carries, AllCarry, groups, drop-split, length-with_header, take-with_header,
}
use logger_double_buffer.AsyncBuffer.{Buffer, get_data, wait_completed}
use logger_double_buffer.BufferSet.Room.{Holds}
use logger_double_buffer.BufferSet.Sequence.{content-length}
use logger_double_buffer.BufferSet.Rounds.{HeldAll}
use logger_double_buffer.BufferSet.Batch.{has_data-Holds}
use logger_double_buffer.AsyncLogger.Flush.{collect, collect_all}

-- The blocks of a set: for each buffer, one that carries its messages, or none if it has none.
abbrev pub Blocks : List ℕ → List (List Bytes) → List Bytes → Type 0
Blocks [] [] xs = xs ≡ []
Blocks [] (m ∷ ms) xs = ⊥
Blocks (c ∷ cs) [] xs = ⊥
Blocks (c ∷ cs) (m ∷ ms) xs =
    (x1 : List Bytes) × (x2 : List Bytes) × (xs ≡ x1 ++ x2)
    × AllCarry c (groups m) x1
    × Blocks cs ms x2

get_data-whole :
    (b : Buffer) (ms : List Bytes) (loads : List (ℕ × ℕ))
    → Holds b ms
    → get_data b loads ≡ some (b.bytes, wait_completed loads)
unfolding get_data
get_data-whole b ms loads v =
    let (whole, small) : (length (b.bytes) ≡ b.capacity) × (b.capacity < 2 ^ 31) =
      (v.whole, v.small) in
    let test : (not (leb (2 ^ 31) (b.capacity)) && leb (b.capacity) (length (b.bytes))) ≡ true =
      ground arith in
    if-true (not (leb (2 ^ 31) (b.capacity)) && leb (b.capacity) (length (b.bytes))) _ _ test
    ∙ ap (λ xs. some (xs, wait_completed loads)) (take_all (b.capacity) (b.bytes) (omega arith))

-- The buffer with its header in place.
abbrev headed : Buffer → Bytes
headed b = with_header (b.capacity) (valid_bytes (b.offset)) (b.bytes)

headed-Holds :
    (b : Buffer) (ms : List Bytes) → Holds b ms → Holds (record b { bytes = headed b }) ms
headed-Holds b ms v = record {
  whole =
      length-with_header (b.capacity) (valid_bytes (b.offset)) (b.bytes)
        (omega (arith, v.whole, v.low, v.inside))
      ∙ v.whole;
  low = v.low;
  inside = v.inside;
  small = v.small;
  content = take-with_header (b.offset) (b.capacity) (valid_bytes (b.offset)) (b.bytes) ∙ v.content;
}

valid_bytes-Holds :
    (b : Buffer) (ms : List Bytes) → Holds b ms → valid_bytes (b.offset) ≡ length (encode ms)
unfolding valid_bytes
valid_bytes-Holds b ms v =
    let (inside, small, size) : (b.offset < b.capacity)
        × (b.capacity < 2 ^ 31)
        × (b.offset ≡ 8 + length (encode ms)) =
      (v.inside, v.small, content-length b ms v) in
    ground arith

headed-Carries : (b : Buffer) (ms : List Bytes) → Holds b ms → Carries (b.capacity) ms (headed b)
unfolding with_header
headed-Carries b ms v = record {
  tail = drop (b.offset) (b.bytes);
  is_block = rw (
    valid_bytes-Holds b ms v,
    drop-split (b.offset) (b.bytes) v.low (omega (arith, v.whole, v.inside)),
    v.content,
  );
  full_size = (headed-Holds b ms v).whole;
}

-- What one round of the loop gives.
record Collected (b : Buffer) (ms : List Bytes) (loads : List (ℕ × ℕ)) : Type 0 where
  blocks : List Bytes
  after : Buffer
  ran : collect b loads ≡ some (blocks, after)
  holds : Holds after ms
  same : after.capacity ≡ b.capacity
  carried : AllCarry (b.capacity) (groups ms) blocks

collect-Collected :
    (b : Buffer) (ms : List Bytes) (loads : List (ℕ × ℕ)) → Holds b ms → Collected b ms loads
unfolding collect
collect-Collected b [] loads v = record {
  blocks = [];
  after = b;
  ran = if-false (Int32.gt (b.offset) 8) _ _ (has_data-Holds b [] v);
  holds = v;
  same = refl;
  carried = tt;
}
collect-Collected b (m ∷ ms) loads v =
    let long : leb 8 (length (b.bytes)) ≡ true =
      let (whole, low, inside) : (length (b.bytes) ≡ b.capacity)
          × (8 ≤ b.offset)
          × (b.offset < b.capacity) =
        (v.whole, v.low, v.inside) in
      ground arith in
    record {
      blocks = headed b ∷ [];
      after = record b { bytes = headed b };
      ran =
          if-true (Int32.gt (b.offset) 8) _ _
            (has_data-Holds b (m ∷ ms) v ∙ lt→ltb 0 (suc (length ms)) (omega arith))
          ∙ (ap
                (λ o. o >>= λ (r : Bytes × Bool).
                  if leb 8 (length r.0)
                  then some (
                    with_header b.capacity (valid_bytes b.offset) r.0 ∷ [],
                    record b { bytes = headed b },
                  )
                  else none)
                (get_data-whole b (m ∷ ms) loads v)
              ∙ if-true (leb 8 (length (b.bytes))) _ _ long);
      holds = headed-Holds b (m ∷ ms) v;
      same = refl;
      carried = (headed-Carries b (m ∷ ms) v, tt);
    }

-- What the whole loop gives.
pub record CollectedAll (limit : ℕ) (bs : List Buffer) (ms : List (List Bytes))
    (loads : ℕ → List (ℕ × ℕ)) (i : ℕ) : Type 0 where
  pub blocks : List Bytes
  pub after : List Buffer
  pub ran : collect_all loads i bs ≡ some (blocks, after)
  pub held : HeldAll limit after ms
  pub same : map (λ (b : Buffer). b.capacity) after ≡ map (λ (b : Buffer). b.capacity) bs
  pub same_length : length after ≡ length bs
  pub carried : Blocks (map (λ (b : Buffer). b.capacity) bs) ms blocks

pub collect_all-CollectedAll :
    (limit : ℕ) (bs : List Buffer) (ms : List (List Bytes)) (loads : ℕ → List (ℕ × ℕ)) (i : ℕ)
    → HeldAll limit bs ms
    → CollectedAll limit bs ms loads i
unfolding collect_all
collect_all-CollectedAll limit [] [] loads i h = record {
  blocks = [];
  after = [];
  ran = refl;
  held = h;
  same = refl;
  same_length = refl;
  carried = refl;
}
collect_all-CollectedAll limit [] (m ∷ ms) loads i h = absurd h
collect_all-CollectedAll limit (b ∷ bs) [] loads i h = absurd h
collect_all-CollectedAll limit (b ∷ bs) (m ∷ ms) loads i (v, small, rest) =
    let c = collect-Collected b m (loads i) v in
    let d = collect_all-CollectedAll limit bs ms loads (i + 1) rest in
    let same = c.same in
    record {
      blocks = c.blocks ++ d.blocks;
      after = c.after ∷ d.after;
      ran = rw (c.ran, d.ran) refl;
      held = (c.holds, omega arith, d.held);
      same = rw (c.same, d.same) refl;
      same_length = ap suc d.same_length;
      carried = (c.blocks, d.blocks, refl, c.carried, d.carried);
    }
