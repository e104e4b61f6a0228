-- ===== src/AsyncLogger/Accounting.antt =====
-- asynclogger/logger.go, LogBytes: the counters and the messages of the two sets.
use logger_double_buffer.Base.{
  ℕ, ◌≤◌, ◌≡◌, ◌≢◌, inl, inr, refl, sym, ap, subst, ◌∙◌, Bool, true, false, Option, some, List, [],
  length, ltb, ◌==◌, if◌then◌else◌, ◌>>=◌, if-true, if-false,
}
use logger_double_buffer.Base.Int.{ℤ}
use logger_double_buffer.Base.Bytes.{Bytes}
use logger_double_buffer.BufferSet.{BufferSet}
use logger_double_buffer.BufferSet.Rounds.{SetHolds, Appended}
use logger_double_buffer.BufferSet.Batch.{write-SetWritten}
use logger_double_buffer.AsyncLogger.{
  Logger, Statistics, Which, set_of, store_set, other, add_int64, count_attempt, count_drop,
  with_stats, swap_if, write_active, last_attempt, retry_log, log_bytes,
}
use logger_double_buffer.AsyncLogger.Sets.{Contents, put, AllHold}
use logger_double_buffer.AsyncLogger.Swaps.{Kept, try_swap-keeps}
use logger_double_buffer.AsyncLogger.Outcomes.{
  AddedTo, Unchanged, Taken, put-Taken, Kept-of, Kept-trans, took_some, took_none, Settled,
}

module _ {W : Type 0} (limit : ℕ) (p : Bytes) (short : length p ≤ limit) (ne : p ≢ []) where
  -- One attempt to write to the active set.
  record Tried (l : Logger W) (ms : Contents) : Type 0 where
    taken : ℕ
    flush : Bool
    after : Logger W
    messages : Contents
    ran : write_active l p ≡ some (taken, flush, after)
    holds : AllHold limit after messages
    same_stats : after.stats ≡ l.stats
    took : Taken p taken ms messages

  store_set-AllHold :
      (l : Logger W) (ms : Contents) (x : Which) (bs : BufferSet) (m : List (List Bytes))
      → AllHold limit l ms
      → SetHolds limit bs m
      → AllHold limit (store_set x bs l) (put x m ms)
  store_set-AllHold l ms Which.a bs m v w Which.a = w
  store_set-AllHold l ms Which.a bs m v w Which.b = v Which.b
  store_set-AllHold l ms Which.b bs m v w Which.a = v Which.a
  store_set-AllHold l ms Which.b bs m v w Which.b = w

  stats-store_set : (l : Logger W) (x : Which) (bs : BufferSet) → (store_set x bs l).stats ≡ l.stats
  stats-store_set l Which.a bs = refl
  stats-store_set l Which.b bs = refl

  write_active-Tried : (l : Logger W) (ms : Contents) → AllHold limit l ms → Tried l ms
  write_active-Tried l ms v =
      let w = write-SetWritten limit (set_of l.active l) (ms l.active) p (v l.active) short ne in
      record {
        taken = w.taken;
        flush = w.flush;
        after = store_set l.active w.after l;
        messages = put l.active w.messages ms;
        ran =
            ap
              (λ o.
                o >>= λ (r : ℕ × Bool × ℤ × BufferSet). some (r.0, r.1, store_set l.active r.3 l))
              w.ran;
        holds = store_set-AllHold l ms l.active w.after w.messages v w.holds;
        same_stats = stats-store_set l l.active w.after;
        took = put-Taken p w.taken l.active w.messages ms w.took;
      }

  with_stats-AllHold :
      (f : Statistics → Statistics) (l : Logger W) (ms : Contents)
      → AllHold limit l ms
      → AllHold limit (with_stats f l) ms
  with_stats-AllHold f l ms v Which.a = v Which.a
  with_stats-AllHold f l ms v Which.b = v Which.b

  drop-Settled :
      (l : Logger W) (st : Statistics) (ms ms' : Contents)
      → AllHold limit l ms'
      → Kept st (l.stats)
      → Unchanged ms ms'
      → Settled limit p st ms (some (with_stats count_drop l))
  drop-Settled l st ms ms' v (total, dropped, bytes) same = record {
    after = with_stats count_drop l;
    messages = ms';
    returned = refl;
    holds = with_stats-AllHold count_drop l ms' v;
    settled = inl (ap (λ n. add_int64 n 1) dropped, same);
    attempts = total;
    same_bytes = bytes;
  }

  add-Settled :
      (l : Logger W) (st : Statistics) (ms ms' : Contents)
      → AllHold limit l ms'
      → Kept st (l.stats)
      → AddedTo p ms ms'
      → Settled limit p st ms (some l)
  add-Settled l st ms ms' v (total, dropped, bytes) added = record {
    after = l;
    messages = ms';
    returned = refl;
    holds = v;
    settled = inr (dropped, added);
    attempts = total;
    same_bytes = bytes;
  }

  swap_if-keeps :
      (b : Bool) (l : Logger W) (ms : Contents)
      → AllHold limit l ms
      → AllHold limit (swap_if b l) ms × Kept (l.stats) ((swap_if b l).stats)
  swap_if-keeps true l ms v = try_swap-keeps limit l ms v
  swap_if-keeps false l ms v = (v, (refl, refl, refl))

  -- What follows an attempt that took nothing.
  Settled-after :
      {st st' : Statistics} {ms ms' : Contents} {ran : Option (Logger W)}
      → Kept st st'
      → Unchanged ms ms'
      → Settled limit p st' ms' ran
      → Settled limit p st ms ran
  Settled-after {st} {st'} {ms} {ms'} (total, dropped, bytes) same s = record {
    after = s.after;
    messages = s.messages;
    returned = s.returned;
    holds = s.holds;
    settled = elim (s.settled) [
      | inl (e, k) ↦ inl (e ∙ ap (λ n. add_int64 n 1) dropped, λ x. k x ∙ same x)
      | inr (e, (x, k, o)) ↦ inr (
        e ∙ dropped,
        (x, subst (λ m. Appended p m (s.messages x)) (same x) k, o ∙ same (other x)),
      )
    ];
    attempts = s.attempts ∙ total;
    same_bytes = s.same_bytes ∙ bytes;
  }

  last_attempt-Settled :
      (l : Logger W) (ms : Contents)
      → AllHold limit l ms
      → Settled limit p (l.stats) ms (last_attempt l p)
  unfolding last_attempt
  last_attempt-Settled l ms v =
      let t = write_active-Tried l ms v in
      let kept = Kept-of t.same_stats in
      let bound : last_attempt l p
          ≡ some (if t.taken == 0 then with_stats count_drop t.after else t.after) =
        ap
          (λ o. o >>= λ (r : ℕ × Bool × Logger W).
            some (if r.0 == 0 then with_stats count_drop r.2 else r.2))
          t.ran in
      elim (t.took) [
        | inl (z, same) ↦
            subst (Settled limit p (l.stats) ms)
              (sym (bound ∙ ap some (if-true (t.taken == 0) _ _ ((took_none z).1))))
              (drop-Settled t.after (l.stats) ms t.messages t.holds kept same)
        | inr (z, added) ↦
            subst (Settled limit p (l.stats) ms)
              (sym (bound ∙ ap some (if-false (t.taken == 0) _ _ ((took_some p z).1))))
              (add-Settled t.after (l.stats) ms t.messages t.holds kept added)
      ]

  -- After an attempt: the swap if it took something, and what follows if it did not.
  attempt-Settled :
      (l : Logger W) (ms : Contents) (t : Tried l ms) (next : Bool → Logger W → Option (Logger W))
      → ((ms' : Contents)
          → AllHold limit t.after ms'
          → Settled limit p (t.after.stats) ms' (next t.flush t.after))
      → Settled limit p (l.stats) ms (
          write_active l p >>= λ (r : ℕ × Bool × Logger W). elim (ltb 0 r.0) [
            | true ↦ some (swap_if r.1 r.2)
            | false ↦ next r.1 r.2
          ])
  attempt-Settled l ms t next follow =
      let kept = Kept-of t.same_stats in
      let chosen : Bool → Option (Logger W) = λ b. elim b as (λ x. Option (Logger W)) [
        | true ↦ some (swap_if t.flush t.after)
        | false ↦ next t.flush t.after
      ] in
      let bound : (write_active l p >>= λ (r : ℕ × Bool × Logger W).
      elim (ltb 0 r.0) as (λ x. Option (Logger W)) [
        | true ↦ some (swap_if r.1 r.2)
        | false ↦ next r.1 r.2
      ])
          ≡ chosen (ltb 0 t.taken) =
        ap
          (λ o. o >>= λ (r : ℕ × Bool × Logger W). elim (ltb 0 r.0) as (λ x. Option (Logger W)) [
            | true ↦ some (swap_if r.1 r.2)
            | false ↦ next r.1 r.2
          ])
          t.ran in
      elim (t.took) [
        | inl (z, same) ↦
            subst (Settled limit p (l.stats) ms) (sym (bound ∙ ap chosen ((took_none z).0))) (
              Settled-after {st = l.stats} {st' = t.after.stats} kept same
                (follow t.messages t.holds))
        | inr (z, added) ↦
            let (held, kept') = swap_if-keeps t.flush t.after t.messages t.holds in
            subst (Settled limit p (l.stats) ms) (sym (bound ∙ ap chosen ((took_some p z).0))) (
              add-Settled (swap_if t.flush t.after) (l.stats) ms t.messages held
                (Kept-trans (l.stats) (t.after.stats) ((swap_if t.flush t.after).stats) kept kept')
                added)
      ]

  retry_log-Settled :
      (l : Logger W) (ms : Contents)
      → AllHold limit l ms
      → Settled limit p (l.stats) ms (retry_log l p)
  unfolding retry_log
  retry_log-Settled l ms v =
      attempt-Settled l ms (write_active-Tried l ms v) (λ flush k. last_attempt (swap_if flush k) p)
        (λ ms' w.
          let t = write_active-Tried l ms v in
          let (held, kept) = swap_if-keeps t.flush t.after ms' w in
          Settled-after {st = t.after.stats} {st' = (swap_if t.flush t.after).stats} kept
            (λ x. refl) (last_attempt-Settled (swap_if t.flush t.after) ms' held))

  after_first :
      (acquired : Bool) (l : Logger W) (ms : Contents)
      → AllHold limit l ms
      → Settled limit p
          (l.stats)
          ms
          (if acquired then retry_log l p else some (with_stats count_drop l))
  after_first true l ms v = retry_log-Settled l ms v
  after_first false l ms v = drop-Settled l (l.stats) ms ms v (refl, refl, refl) (λ x. refl)

  -- On an open logger whose sets hold messages, a call of LogBytes with a payload that is not empty, and
  -- stays below 2 GiB together with the capacities, returns: on the fast path, on the retry with its
  -- swap, and on the timeout. One attempt is counted, and either one drop is counted and no message
  -- changes, or none is and the payload is added to exactly one buffer of one set. The counter of bytes
  -- written does not change.
  pub log_bytes-Settled :
      (l : Logger W) (ms : Contents) (acquired : Bool)
      → AllHold limit l ms
      → l.closed ≡ false
      → Settled limit p (count_attempt l.stats) ms (log_bytes l acquired p)
  unfolding log_bytes
  log_bytes-Settled l ms acquired v opened =
      let w = with_stats-AllHold count_attempt l ms v in
      let t = write_active-Tried (with_stats count_attempt l) ms w in
      subst (Settled limit p (count_attempt l.stats) ms) (sym (if-false (l.closed) _ _ opened)) (
        attempt-Settled (with_stats count_attempt l) ms t
          (λ flush k. if acquired then retry_log k p else some (with_stats count_drop k))
          (λ ms' w'. after_first acquired t.after ms' w'))
