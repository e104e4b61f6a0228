-- ===== src/Logger/Accounting.antt =====
-- LogBytes: the counters and the messages of the shards.
use logger_double_buffer.Base.{
  ℕ, ◌+◌, ◌<◌, ◌≡◌, ◌≢◌, ◌⊎◌, inl, inr, refl, subst, Bool, true, false, some, List, [], arith,
  length, get_elem?, set, All, ltb, Bool-cases, not_ltb→le, lt→leb,
}
use logger_double_buffer.Base.Int.{pos}
use logger_double_buffer.Base.Bytes.{Bytes}
use logger_double_buffer.Shard
use logger_double_buffer.Shard.{Shard, Side, active_side, try_swap}
use logger_double_buffer.Shard.Invariant.{IsValid, Fits, try_swap-IsValid}
use logger_double_buffer.Shard.Contents.{Messages, Represents}
use logger_double_buffer.Shard.Outcome.{Stored, write_outcome, try_swap-Represents}
use logger_double_buffer.ShardCollection
use logger_double_buffer.ShardCollection.{ShardCollection, get_shard, store_shard}
use logger_double_buffer.ShardCollection.Writes.{
  Held, Held-At, Held-set, Added, Took, Took-of, All-at, write_lem,
}
use logger_double_buffer.Logger.{
  Logger, Statistics, add_int64, count_attempt, count_drop, count_final, swap_if, retry_shard,
  retry_log, log_bytes,
}

capacity-try_swap : (s : Shard) → (try_swap s).capacity ≡ s.capacity
unfolding try_swap
capacity-try_swap s = ground arith

-- The retry stores the payload whole, on one of the sides, or not at all.
record Retried (s : Shard) (p : Bytes) (m : Messages) (n : ℕ) (t : Shard) : Type 0 where
  ran : retry_shard s p ≡ some (n, t)
  valid : IsValid t
  side : Side
  holds : Messages
  represents : Represents t holds
  stored : Stored side p n m holds

swap_if-IsValid :
    (b : Bool) (s : Shard) (m : Messages)
    → IsValid s
    → Represents s m
    → IsValid (swap_if b s) × Represents (swap_if b s) m × ((swap_if b s).capacity ≡ s.capacity)
unfolding swap_if
swap_if-IsValid true s m v r = (try_swap-IsValid v, try_swap-Represents s m r, capacity-try_swap s)
swap_if-IsValid false s m v r = (v, r, refl)

module _ (s : Shard) (p : Bytes) {n : ℕ} {b : Bool} {s1 : Shard}
    (first : Shard.write s p ≡ some (n, b, s1)) where
  retry_took : ltb 0 n ≡ true → retry_shard s p ≡ some (n, s1)
  unfolding retry_shard
  retry_took took = ground arith

  retry_again :
      {n' : ℕ} {b' : Bool} {s2 : Shard}
      → ltb 0 n ≡ false
      → Shard.write (swap_if b s1) p ≡ some (n', b', s2)
      → retry_shard s p ≡ some (n', s2)
  unfolding retry_shard swap_if
  retry_again refused second = ground arith

Stored-after :
    (x y : Side) (p : Bytes) (n k : ℕ) (m m1 m2 : Messages)
    → Stored x p n m m1
    → ltb 0 n ≡ false
    → Stored y p k m1 m2
    → Stored y p k m m2
Stored-after x y p n k m m1 m2 (inl (z, e)) refused st = subst (λ h. Stored y p k h m2) e st
Stored-after x y p n k m m1 m2 (inr (z, e)) refused st =
    absurd (omega (arith, not_ltb→le 0 n refused))

retry_shard-Retried :
    (s : Shard) (p : Bytes) (m : Messages)
    → IsValid s
    → Fits s p
    → p ≢ []
    → Represents s m
    → (n : ℕ) × (t : Shard) × Retried s p m n t
retry_shard-Retried s p m v small ne r =
    let (n, b, s1, m1, e1, v1, r1, c1, st1, f1) = write_outcome s p m v small ne r in
    elim (Bool-cases (ltb 0 n)) [
      | inl took ↦ (
        n,
        s1,
        record {
          ran = retry_took s p e1 took;
          valid = v1;
          side = active_side s.active;
          holds = m1;
          represents = r1;
          stored = st1;
        },
      )
      | inr refused ↦
          let (v2, r2, c2) = swap_if-IsValid b s1 m1 v1 r1 in
          let (n', b', s3, m3, e3, v3, r3, c3, st3, f3) =
            write_outcome (swap_if b s1) p m1 v2 (omega arith) ne r2 in
          (
            n',
            s3,
            record {
              ran = retry_again s p e1 refused e3;
              valid = v3;
              side = active_side (swap_if b s1).active;
              holds = m3;
              represents = r3;
              stored =
                  Stored-after (active_side s.active) (active_side (swap_if b s1).active) p n n' m
                    m1 m3 st1 refused st3;
            },
          )
    ]

-- What a call of LogBytes does to the counters and the messages: one attempt more, and either one
-- drop more and no message anywhere, or the bytes of the record counted and the message added to
-- the shard that was picked.
pub record Accounted (p : Bytes) (pick : ℕ) (st st' : Statistics) (ms ms' : List Messages)
    : Type 0 where
  pub attempted : st'.total_logs ≡ add_int64 st.total_logs 1
  pub settled :
      ((st'.dropped_logs ≡ add_int64 st.dropped_logs 1)
        × (st'.bytes_written ≡ st.bytes_written)
        × (ms' ≡ ms))
      ⊎ ((st'.dropped_logs ≡ st.dropped_logs)
          × (st'.bytes_written ≡ add_int64 st.bytes_written (4 + length p))
          × Added pick p ms ms')

count_final-Accounted :
    (p : Bytes) (pick n : ℕ) (st : Statistics) (ms ms' : List Messages)
    → Took pick p n ms ms'
    → Accounted p pick st (count_final n (count_attempt st)) ms ms'
count_final-Accounted p pick n st ms ms' (inl (z, e)) = record {
  attempted = ground arith;
  settled = inl (ground arith, ground arith, e);
}
count_final-Accounted p pick n st ms ms' (inr (z, a)) = record {
  attempted = ground arith;
  settled = inr (ground arith, ground arith, a);
}

Took-zero :
    (i : ℕ) (p : Bytes) (n : ℕ) (ms ms' : List Messages)
    → Took i p n ms ms'
    → ltb 0 n ≡ false
    → ms' ≡ ms
Took-zero i p n ms ms' (inl (z, e)) refused = e
Took-zero i p n ms ms' (inr (z, a)) refused = absurd (omega (arith, not_ltb→le 0 n refused))

module _ {W : Type 0} (l : Logger W) (pick : ℕ) (acquired : Bool) (p : Bytes) {n : ℕ} {flush : Bool}
    {c : ShardCollection} (opened : l.closed ≡ false)
    (wrote : ShardCollection.write l.collection pick p ≡ some (n, flush, pos pick, c)) where
  fast_path :
      ltb 0 n ≡ true
      → log_bytes l pick acquired p
        ≡ some (record l { collection = c; stats = count_final n (count_attempt l.stats) })
  unfolding log_bytes
  fast_path fast = ground arith

  module _ {s : Shard} (slow : ltb 0 n ≡ false) (found : get_shard c (pos pick) ≡ some s) where
    timeout_path :
        acquired ≡ false
        → log_bytes l pick acquired p
          ≡ some (record l { collection = c; stats = count_drop (count_attempt l.stats) })
    unfolding log_bytes
    timeout_path late = ground arith

    retry_path :
        {k : ℕ} {t : Shard}
        → acquired ≡ true
        → retry_shard s p ≡ some (k, t)
        → log_bytes l pick acquired p
          ≡ some (record l {
            collection = store_shard c pick t;
            stats = count_final k (count_attempt l.stats);
          })
    unfolding log_bytes retry_log
    retry_path got again = ground arith

get_shard-eq :
    (c : ShardCollection) (i : ℕ) {s : Shard}
    → get_elem? c.shards i ≡ some s
    → i < c.num_shards
    → get_shard c (pos i) ≡ some s
unfolding get_shard
get_shard-eq c i e h = rw (lt→leb _ _ h) e

module _ {W : Type 0} where
  -- On an open logger with valid shards, a call of LogBytes with a payload that is not empty, and
  -- stays below 2 GiB together with the capacity, returns and leaves the shards valid. It counts
  -- one attempt, and then either counts one drop and changes no message, or counts the bytes of
  -- the record and adds the payload to the shard that was picked: on the fast path, on the retry
  -- with its swap, and on the timeout.
  pub log_bytes-Accounted :
      (l : Logger W) (ms : List Messages) (pick : ℕ) (acquired : Bool) (p : Bytes)
      → Held l.collection.shards ms
      → length l.collection.shards ≡ l.collection.num_shards
      → pick < length l.collection.shards
      → All (λ s. Fits s p) l.collection.shards
      → p ≢ []
      → l.closed ≡ false
      → (l' : Logger W) × (ms' : List Messages) × (log_bytes l pick acquired p ≡ some l')
        × Held l'.collection.shards ms'
        × Accounted p pick l.stats l'.stats ms ms'
  log_bytes-Accounted l ms pick acquired p held counted lt fits ne opened =
      let (n, flush, c, ms1, e, held1, num, len, took, fits1) =
        write_lem l.collection ms pick p held lt fits ne in
      elim (Bool-cases (ltb 0 n)) [
        | inl fast ↦ (
          _,
          ms1,
          fast_path l pick acquired p opened e fast,
          held1,
          count_final-Accounted p pick n l.stats ms ms1 took,
        )
        | inr slow ↦
            let same = Took-zero pick p n ms ms1 took slow in
            let at = Held-At c.shards ms1 pick held1 (omega arith) in
            let found = get_shard-eq c pick at.is_shard (omega arith) in
            elim (Bool-cases acquired) [
              | inr late ↦ (
                _,
                ms1,
                timeout_path l pick acquired p opened e slow found late,
                held1,
                count_final-Accounted p pick 0 l.stats ms ms1 (inl (refl, same)),
              )
              | inl got ↦
                  let (k, t, again) =
                    retry_shard-Retried at.shard p at.held at.valid
                      (All-at (λ s. Fits s p) c.shards pick at.shard fits1 at.is_shard) ne
                      at.represents in
                  (
                    _,
                    set ms1 pick again.holds,
                    retry_path l pick acquired p opened e slow found got again.ran,
                    Held-set c.shards ms1 pick t again.holds held1 again.valid again.represents,
                    count_final-Accounted p pick k l.stats ms (set ms1 pick again.holds) (
                        subst (λ h. Took pick p k h (set ms1 pick again.holds)) same
                          (Took-of pick p k ms1 again.side at.is_held again.stored)),
                  )
            ]
      ]
