-- ===== src/AsyncLogger/Untouched.antt =====
-- The file writer under LogBytes and trySwap.
use logger_double_buffer.Base.{
  ℕ, ◌≡◌, subst, ◌∙◌, Bool, true, false, Option, none, some, ltb, ◌==◌, if◌then◌else◌, ◌>>=◌,
  Bool-cases, inl, inr, if-true, if-false, ap,
}
use logger_double_buffer.Base.Int.{ℤ}
use logger_double_buffer.Base.Bytes.{Bytes}
use logger_double_buffer.BufferSet
use logger_double_buffer.BufferSet.{BufferSet}
use logger_double_buffer.AsyncLogger.{
  Logger, Which, set_of, store_set, count_attempt, count_drop, with_stats, swap_if, swap_to,
  write_active, last_attempt, retry_log, log_bytes, try_swap, next_set,
}

module _ {W : Type 0} (w : W) where
  -- The file writer is `w` in what was returned, if anything was.
  abbrev Keeps : Option (Logger W) → Type 0
  Keeps none = Unit
  Keeps (some l) = l.file_writer ≡ w

  file-store_set :
      (x : Which) (bs : BufferSet) (l : Logger W)
      → l.file_writer ≡ w
      → (store_set x bs l).file_writer ≡ w
  file-store_set Which.a bs l e = e
  file-store_set Which.b bs l e = e

  file-swap_to : (x : Which) (l : Logger W) → l.file_writer ≡ w → (swap_to x l).file_writer ≡ w
  file-swap_to Which.a l e = e
  file-swap_to Which.b l e = e

  pub file-try_swap : (l : Logger W) → l.file_writer ≡ w → (try_swap l).file_writer ≡ w
  unfolding try_swap
  file-try_swap l e = elim (Bool-cases (l.swapping)) [
    | inl busy ↦
        ap (λ (k : Logger W). k.file_writer) (if-true (l.swapping) l (swap_to (next_set l) l) busy)
        ∙ e
    | inr free ↦
        ap (λ (k : Logger W). k.file_writer) (if-false (l.swapping) l (swap_to (next_set l) l) free)
        ∙ file-swap_to (next_set l) l e
  ]

  file-swap_if : (b : Bool) (l : Logger W) → l.file_writer ≡ w → (swap_if b l).file_writer ≡ w
  file-swap_if true l e = file-try_swap l e
  file-swap_if false l e = e

  -- An attempt, and what follows it.
  file-attempt :
      (l : Logger W) (p : Bytes) (next : ℕ × Bool × Logger W → Option (Logger W))
      → l.file_writer ≡ w
      → ((n : ℕ) (flush : Bool) (k : Logger W) → k.file_writer ≡ w → Keeps (next (n, flush, k)))
      → Keeps (write_active l p >>= next)
  file-attempt l p next e follow = wrote (BufferSet.write (set_of l.active l) p)
    where
      wrote :
          (o : Option (ℕ × Bool × ℤ × BufferSet))
          → Keeps (
              (o >>= λ (r : ℕ × Bool × ℤ × BufferSet). some (r.0, r.1, store_set l.active r.3 l))
              >>= next)
      wrote none = tt
      wrote (some (n, flush, i, bs)) =
          follow n flush (store_set l.active bs l) (file-store_set l.active bs l e)

  file-last_attempt : (l : Logger W) (p : Bytes) → l.file_writer ≡ w → Keeps (last_attempt l p)
  unfolding last_attempt
  file-last_attempt l p e =
      file-attempt l p
        (λ (r : ℕ × Bool × Logger W). some (if r.0 == 0 then with_stats count_drop r.2 else r.2)) e
        (λ n flush k f. chosen (n == 0) k f)
    where
      chosen :
          (b : Bool) (k : Logger W)
          → k.file_writer ≡ w
          → (if b then with_stats count_drop k else k).file_writer ≡ w
      chosen true k f = f
      chosen false k f = f

  file-retry_log : (l : Logger W) (p : Bytes) → l.file_writer ≡ w → Keeps (retry_log l p)
  unfolding retry_log
  file-retry_log l p e =
      file-attempt l p
        (λ (r : ℕ × Bool × Logger W). elim (ltb 0 r.0) as (λ x. Option (Logger W)) [
          | true ↦ some (swap_if r.1 r.2)
          | false ↦ last_attempt (swap_if r.1 r.2) p
        ])
        e (λ n flush k f. chosen (ltb 0 n) flush k f)
    where
      chosen :
          (b flush : Bool) (k : Logger W)
          → k.file_writer ≡ w
          → Keeps (elim b as (λ x. Option (Logger W)) [
            | true ↦ some (swap_if flush k)
            | false ↦ last_attempt (swap_if flush k) p
          ])
      chosen true flush k f = file-swap_if flush k f
      chosen false flush k f = file-last_attempt (swap_if flush k) p (file-swap_if flush k f)

  file-log_bytes :
      (l : Logger W) (acquired : Bool) (p : Bytes)
      → l.file_writer ≡ w
      → Keeps (log_bytes l acquired p)
  unfolding log_bytes
  file-log_bytes l acquired p e = shut (l.closed)
    where
      after :
          (b flush : Bool) (k : Logger W) (acq : Bool)
          → k.file_writer ≡ w
          → Keeps (elim b as (λ x. Option (Logger W)) [
            | true ↦ some (swap_if flush k)
            | false ↦ if acq then retry_log k p else some (with_stats count_drop k)
          ])
      after true flush k acq f = file-swap_if flush k f
      after false flush k true f = file-retry_log k p f
      after false flush k false f = f

      shut :
          (b : Bool)
          → Keeps (
              if b
              then some (with_stats count_drop (with_stats count_attempt l))
              else (write_active (with_stats count_attempt l) p >>= λ (r : ℕ × Bool × Logger W).
                  elim (ltb 0 r.0) as (λ x. Option (Logger W)) [
                    | true ↦ some (swap_if r.1 r.2)
                    | false ↦ if acquired then retry_log r.2 p else some (with_stats count_drop r.2)
                  ]))
      shut true = e
      shut false =
          file-attempt (with_stats count_attempt l) p
            (λ (r : ℕ × Bool × Logger W). elim (ltb 0 r.0) as (λ x. Option (Logger W)) [
              | true ↦ some (swap_if r.1 r.2)
              | false ↦ if acquired then retry_log r.2 p else some (with_stats count_drop r.2)
            ])
            e (λ n flush k f. after (ltb 0 n) flush k acquired f)

  pub log_bytes-writer :
      (l : Logger W) (acquired : Bool) (p : Bytes) {l' : Logger W}
      → l.file_writer ≡ w
      → log_bytes l acquired p ≡ some l'
      → l'.file_writer ≡ w
  log_bytes-writer l acquired p e ran = subst Keeps ran (file-log_bytes l acquired p e)
