-- ===== src/Uploader/Counts.antt =====
-- The statistics of the upload worker.
use logger_double_buffer.Base.{
  ℕ, zero, suc, ◌+◌, ◌%◌, ◌^◌, ◌≡◌, refl, Bool, true, false, ◌&&◌, Option, none, some, List, [],
  ◌∷◌, ◌++◌, ◌≤◌, length, arith, ltb, Option-cases, Bool-cases, inl, inr,
}
use logger_double_buffer.Base.Bytes.{Bytes}
use logger_double_buffer.Uploader.{
  Cloud, Files, Stats, Settings, Attempt, retry_loop, upload_file, upload_file_with_retry,
  upload_worker, count_upload, count_result, upload_parallel, upload_chunks, chunk_names,
}
use logger_double_buffer.ChunkManager.{object, split}
use logger_double_buffer.ChunkManager.Levels.{compose_ends}

-- Every file that was counted is counted as a success or as a failure, up to the wrap of int64.
abbrev pub Balanced : Stats → Type 0
Balanced st = st.total_files ≡ (st.successful + st.failed) % 2 ^ 64

-- An upload leaves the counters of files alone.
abbrev Same : Stats → Stats → Type 0
Same st st' =
    (st'.total_files ≡ st.total_files) × (st'.successful ≡ st.successful) × (st'.failed ≡ st.failed)

module _ {S F : Type 0} (cloud : Cloud S) (files : Files F) (base : Bytes → Bytes) where
  count_upload-Same :
      (st : Stats) (size : Option ℕ) (d : ℕ) → Same st (count_upload cloud files base st size d)
  unfolding count_upload
  count_upload-Same st none d = (refl, refl, refl)
  count_upload-Same st (some zero) d = (refl, refl, refl)
  count_upload-Same st (some (suc n)) d = (refl, refl, refl)

  count_result-Balanced :
      (b : Bool) (st : Stats) → Balanced st → Balanced (count_result cloud files base b st)
  count_result-Balanced true st h = ground arith
  count_result-Balanced false st h = ground arith

  Balanced-Same : (st st' : Stats) → Same st st' → Balanced st → Balanced st'
  Balanced-Same st st' same h = ground arith

  upload_parallel_ends :
      (max : ℕ) (s : S) (name suffix buf : Bytes) (chunk_size : ℕ)
      → 2 ≤ max
      → (r : Bool × S) × (upload_parallel cloud max s name suffix buf chunk_size ≡ some r)
  unfolding upload_parallel
  upload_parallel_ends max s name suffix buf chunk_size h =
      let temp = name ++ suffix in
      let n = length (split (length buf) chunk_size buf) in
      let sent = upload_chunks cloud s temp 0 (split (length buf) chunk_size buf) in
      let (r, ran) = compose_ends (cloud.store) max sent.1 (object name) (chunk_names temp 0 n) h in
      elim (Option-cases (upload_parallel cloud max s name suffix buf chunk_size)) [
        | inl stuck ↦ absurd (ground arith)
        | inr ended ↦ ended
      ]

  upload_file_ends :
      (c : Settings) (s : S) (f : F) (path suffix : Bytes)
      → 2 ≤ c.max_chunks
      → (r : Bool × S × F) × (upload_file cloud files base c s f path suffix ≡ some r)
  unfolding upload_file
  upload_file_ends c s f path suffix h =
      elim (Option-cases (upload_file cloud files base c s f path suffix)) [
        | inr ended ↦ ended
        | inl stuck ↦ elim (Option-cases (files.read f path)) [
          | inl bad ↦ absurd (ground arith)
          | inr (buf, good) ↦
              let (r, ran) =
                upload_parallel_ends c.max_chunks s (c.object_prefix ++ base path) suffix buf
                  c.chunk_size h in
              absurd (ground arith)
        ]
      ]

  retry_loop_ends :
      (c : Settings) (size : Option ℕ) (path : Bytes) (attempts : ℕ → Attempt) (i left : ℕ)
      (st : Stats) (s : S) (f : F)
      → 2 ≤ c.max_chunks
      → (r : Bool × Stats × S × F) × (retry_loop cloud files base c size path attempts i left st s f
          ≡ some r)
  unfolding retry_loop
  retry_loop_ends c size path attempts i zero st s f h = (_, refl)
  retry_loop_ends c size path attempts i (suc left) st s f h =
      let (r, ran) = upload_file_ends c s f path (attempts i).suffix h in
      elim (Option-cases (retry_loop cloud files base c size path attempts i (suc left) st s f)) [
        | inr ended ↦ ended
        | inl stuck ↦
            elim (Option-cases (upload_file cloud files base c s f path (attempts i).suffix)) [
              | inl bad ↦ absurd (cc)
              | inr ((false, s1, f1), good) ↦ absurd (ground arith)
              | inr ((true, s1, f1), again) ↦
                  let (q, next) = retry_loop_ends c size path attempts (suc i) left st s1 f1 h in
                  absurd (ground arith)
            ]
      ]

  retry_loop-Same :
      (c : Settings) (size : Option ℕ) (path : Bytes) (attempts : ℕ → Attempt) (i left : ℕ)
      (st : Stats) (s : S) (f : F) {failed : Bool} {st' : Stats} {s' : S} {f' : F}
      → retry_loop cloud files base c size path attempts i left st s f ≡ some (failed, st', s', f')
      → Same st st'
  unfolding retry_loop
  retry_loop-Same c size path attempts i zero st s f ran = ground arith
  retry_loop-Same c size path attempts i (suc left) st s f {failed} {st'} {s'} {f'} ran =
      elim (Bool-cases (ltb 0 i && (attempts i).stopped)) [
        | inl e ↦ ground arith
        | inr e ↦
            elim (Option-cases (upload_file cloud files base c s f path (attempts i).suffix)) [
              | inl bad ↦ absurd (ground arith)
              | inr ((false, s1, f1), good) ↦
                  let same = count_upload-Same st size (attempts i).duration in ground arith
              | inr ((true, s1, f1), again) ↦
                  retry_loop-Same c size path attempts (suc i) left st s1 f1 {failed = failed}
                    {st' = st'} {s' = s'} {f' = f'} (ground arith)
            ]
      ]

  -- The paths that are not empty.
  abbrev pub received : List (Bytes × (ℕ → Attempt)) → ℕ
  received [] = 0
  received (([], attempts) ∷ paths) = received paths
  received ((b ∷ path, attempts) ∷ paths) = suc (received paths)

  counted-one :
      (failed : Bool) (st st1 : Stats)
      → Same st st1
      → (count_result cloud files base failed st1).total_files ≡ (st.total_files + 1) % 2 ^ 64
  counted-one true st st1 same = ground arith
  counted-one false st st1 same = ground arith

  worker-counts :
      (c : Settings) (paths : List (Bytes × (ℕ → Attempt))) (st : Stats) (s : S) (f : F)
      {st' : Stats} {s' : S} {f' : F}
      → upload_worker cloud files base c paths st s f ≡ some (st', s', f')
      → Balanced st
      → Balanced st' × (st'.total_files ≡ (st.total_files + received paths) % 2 ^ 64)
  unfolding upload_worker upload_file_with_retry
  worker-counts c [] st s f ran h = ground arith
  worker-counts c (([], attempts) ∷ paths) st s f ran h = worker-counts c paths st s f ran h
  worker-counts c ((b ∷ path, attempts) ∷ paths) st s f {st'} {s'} {f'} ran h =
      elim (Option-cases (
        retry_loop cloud files base c (files.stat f (b ∷ path)) (b ∷ path) attempts 0
          (suc c.max_retries) st s f)) [
            | inl bad ↦ absurd (ground arith)
            | inr ((failed, st1, s1, f1), once) ↦
                let same =
                  retry_loop-Same c (files.stat f (b ∷ path)) (b ∷ path) attempts 0
                    (suc c.max_retries) st s f once in
                let (balanced, total) =
                  worker-counts c paths (count_result cloud files base failed st1) s1 f1 {st' = st'}
                    {s' = s'} {f' = f'} (ground arith)
                    (count_result-Balanced failed st1 (Balanced-Same st st1 same h)) in
                let one = counted-one failed st st1 same in (balanced, omega arith)
          ]

  worker_ends :
      (c : Settings) (paths : List (Bytes × (ℕ → Attempt))) (st : Stats) (s : S) (f : F)
      → 2 ≤ c.max_chunks
      → (r : Stats × S × F) × (upload_worker cloud files base c paths st s f ≡ some r)
  unfolding upload_worker upload_file_with_retry
  worker_ends c [] st s f h = (_, refl)
  worker_ends c (([], attempts) ∷ paths) st s f h = worker_ends c paths st s f h
  worker_ends c ((b ∷ path, attempts) ∷ paths) st s f h =
      let once =
        retry_loop_ends c (files.stat f (b ∷ path)) (b ∷ path) attempts 0 (suc c.max_retries) st s f
          h in
      elim (Option-cases (upload_worker cloud files base c ((b ∷ path, attempts) ∷ paths) st s f)) [
        | inr ended ↦ ended
        | inl stuck ↦
            let (failed, st1, s1, f1) = once.0 in
            let (r, next) =
              worker_ends c paths (count_result cloud files base failed st1) s1 f1 h in
            let ran = once.1 in absurd (ground arith)
      ]

  -- Where a compose may combine at least two objects at once, the worker returns, whatever the
  -- store and the files do, and it counts every file that it receives, by a path that is not empty,
  -- once, as a success or as a failure: up to the wrap of int64, the total grows by the number of
  -- the files, and stays the sum of successes and failures, if it was that before.
  pub upload_worker-Balanced :
      (c : Settings) (paths : List (Bytes × (ℕ → Attempt))) (st : Stats) (s : S) (f : F)
      → 2 ≤ c.max_chunks
      → Balanced st
      → (st' : Stats) × (s' : S) × (f' : F) × (upload_worker cloud files base c paths st s f
          ≡ some (st', s', f'))
        × Balanced st'
        × (st'.total_files ≡ (st.total_files + received paths) % 2 ^ 64)
  upload_worker-Balanced c paths st s f two h =
      let (r, ran) = worker_ends c paths st s f two in
      let (balanced, total) =
        worker-counts c paths st s f {st' = r.0} {s' = r.1} {f' = r.2} ran h in
      (r.0, r.1, r.2, ran, balanced, total)
