-- ===== src/Uploader.antt =====
-- asyncloguploader/uploader.go: uploading completed files in chunks that are composed in the cloud
-- store, with retries and statistics. The chunk uploads run here one after another, in the order of
-- their numbers; all of them run, as in the code. What the clock and the context decide is an
-- argument of each attempt. Durations are nanoseconds. Warnings that are only logged are left out.
pub mod Parallel
pub mod Counts
mod Tests
use logger_double_buffer.Base.{
  ℕ, zero, suc, ◌+◌, ◌%◌, ◌^◌, ◌≡◌, Bool, true, false, ◌||◌, ◌&&◌, Option, none, some, List, [],
  ◌∷◌, ◌++◌, ltb, leb, ◌==◌, if◌then◌else◌, length,
}
use logger_double_buffer.Base.Bytes.{Bytes}
use logger_double_buffer.ChunkManager
use logger_double_buffer.ChunkManager.{Name, Store, object, chunk, split}

-- The rest of the client: a writer's Write and Close (true is an error), and the size in the
-- attributes of an object (`none` is an error).
pub record Cloud (S : Type 0) : Type 0 where
  pub store : Store S
  pub put : S → Name → Bytes → Bool × S
  pub attrs : S → Name → Option ℕ

-- os.Stat, reading a whole file, and os.Remove.
pub record Files (F : Type 0) : Type 0 where
  pub stat : F → Bytes → Option ℕ
  pub read : F → Bytes → Option Bytes
  pub remove : F → Bytes → Bool × F

-- Stats, without the time of the last upload; the average is computed by GetStats.
pub record Stats : Type 0 where
  pub total_files : ℕ
  pub successful : ℕ
  pub failed : ℕ
  pub total_bytes : ℕ
  pub total_duration : ℕ
  pub min_upload_duration : ℕ
  pub max_upload_duration : ℕ

-- What of the configuration an upload reads.
pub record Settings : Type 0 where
  pub object_prefix : Bytes
  pub chunk_size : ℕ
  pub max_chunks : ℕ
  pub max_retries : ℕ

-- One attempt: the suffix `.tmp.<time>` of its temporary objects, how long it took, and whether the
-- context was done while it waited to start.
pub record Attempt : Type 0 where
  pub suffix : Bytes
  pub duration : ℕ
  pub stopped : Bool

abbrev pub add_int64 : ℕ → ℕ → ℕ
add_int64 n d = (n + d) % 2 ^ 64

-- The names of `n` temporary chunks, from the `i`-th.
pub chunk_names : Bytes → ℕ → ℕ → List Name
chunk_names temp i zero = []
chunk_names temp i (suc n) = chunk temp i ∷ chunk_names temp (suc i) n

module _ {S : Type 0} (cloud : Cloud S) where
  abbrev pub missing : Option ℕ → Bool
  missing none = true
  missing (some n) = false

  -- The goroutine of one chunk; true is an error of its result.
  unfoldable pub upload_chunk : S → Name → Bytes → Bool × S
  upload_chunk s name data' =
      let r = cloud.put s name data' in if r.0 then r else (missing (cloud.attrs r.1 name), r.1)

  -- All chunks; true if any of them failed.
  pub upload_chunks : S → Bytes → ℕ → List Bytes → Bool × S
  unfolding upload_chunk
  upload_chunks s temp i [] = (false, s)
  upload_chunks s temp i (c ∷ cs) =
      let r = upload_chunk s (chunk temp i) c in
      let rest = upload_chunks r.1 temp (suc i) cs in (r.0 || rest.0, rest.1)

  -- cleanupTempChunks, whose error is only logged where it is used.
  abbrev pub cleanup_temp_chunks : S → Bytes → ℕ → S
  cleanup_temp_chunks s temp n = ChunkManager.cleanup_objects (cloud.store) s (chunk_names temp 0 n)

  -- The check of the size of the composed object, and the cleanup.
  unfoldable pub verify_size : S → Name → Bytes → ℕ → ℕ → Bool × S
  unfolding chunk_names
  verify_size s target temp n size = elim (cloud.attrs s target) [
    | none ↦ (true, cleanup_temp_chunks s temp n)
    | some actual ↦
        if actual == size
        then (false, cleanup_temp_chunks s temp n)
        else (true, ((cloud.store).delete (cleanup_temp_chunks s temp n) target).1)
  ]

  -- uploadParallel; true is an error, and `none` a compose that does not end.
  unfoldable pub upload_parallel : ℕ → S → Bytes → Bytes → Bytes → ℕ → Option (Bool × S)
  unfolding upload_chunks verify_size chunk_names
  upload_parallel max s name suffix buf chunk_size =
      let chunks = split (length buf) chunk_size buf in
      let n = length chunks in
      let temp = name ++ suffix in
      let r = upload_chunks s temp 0 chunks in
      if r.0
      then some (true, cleanup_temp_chunks r.1 temp n)
      else elim (ChunkManager.compose (cloud.store) max r.1 (object name) (chunk_names temp 0 n)) [
        | none ↦ none
        | some (true, s') ↦ some (true, cleanup_temp_chunks s' temp n)
        | some (false, s') ↦ some (verify_size s' (object name) temp n (length buf))
      ]

  module _ {F : Type 0} (files : Files F) (base : Bytes → Bytes) where
    -- generateObjectName; `base` is filepath.Base.
    abbrev pub generate_object_name : Settings → Bytes → Bytes
    generate_object_name c path = c.object_prefix ++ base path

    -- uploadFile: the local file is deleted after a successful upload.
    unfoldable pub upload_file : Settings → S → F → Bytes → Bytes → Option (Bool × S × F)
    unfolding upload_parallel
    upload_file c s f path suffix = elim (files.read f path) [
      | none ↦ some (true, s, f)
      | some buf ↦
          elim (upload_parallel c.max_chunks s (generate_object_name c path) suffix buf
            c.chunk_size) [
              | none ↦ none
              | some (true, s') ↦ some (true, s', f)
              | some (false, s') ↦ some (false, s', (files.remove f path).1)
            ]
    ]

    -- The statistics of a success, from the size that was read before the upload.
    unfoldable pub count_upload : Stats → Option ℕ → ℕ → Stats
    count_upload st none d = st
    count_upload st (some zero) d = st
    count_upload st (some (suc n)) d = record st {
      total_bytes = add_int64 st.total_bytes (suc n);
      total_duration = add_int64 st.total_duration d;
      min_upload_duration =
          if st.min_upload_duration == 0 || ltb d st.min_upload_duration
          then d
          else st.min_upload_duration;
      max_upload_duration = if ltb st.max_upload_duration d then d else st.max_upload_duration;
    }

    -- The attempts from the `i`-th on, as many as are left; the first one does not wait.
    unfoldable pub retry_loop :
        Settings
        → Option ℕ
        → Bytes
        → (ℕ → Attempt)
        → ℕ
        → ℕ
        → Stats
        → S
        → F
        → Option (Bool × Stats × S × F)
    unfolding upload_file count_upload
    retry_loop c size path attempts i zero st s f = some (true, st, s, f)
    retry_loop c size path attempts i (suc left) st s f =
        if ltb 0 i && (attempts i).stopped
        then some (true, st, s, f)
        else elim (upload_file c s f path (attempts i).suffix) [
          | none ↦ none
          | some (false, s', f') ↦ some (false, count_upload st size (attempts i).duration, s', f')
          | some (true, s', f') ↦ retry_loop c size path attempts (suc i) left st s' f'
        ]

    -- uploadFileWithRetry, with MaxRetries + 1 attempts.
    unfoldable pub upload_file_with_retry :
        Settings → Bytes → (ℕ → Attempt) → Stats → S → F → Option (Bool × Stats × S × F)
    unfolding retry_loop
    upload_file_with_retry c path attempts st s f =
        retry_loop c (files.stat f path) path attempts 0 (suc c.max_retries) st s f

    abbrev pub count_result : Bool → Stats → Stats
    count_result true st = record st {
      failed = add_int64 st.failed 1;
      total_files = add_int64 st.total_files 1;
    }
    count_result false st = record st {
      successful = add_int64 st.successful 1;
      total_files = add_int64 st.total_files 1;
    }

    -- uploadWorker, on the paths that it receives until the channel is closed.
    unfoldable pub upload_worker :
        Settings → List (Bytes × (ℕ → Attempt)) → Stats → S → F → Option (Stats × S × F)
    unfolding upload_file_with_retry
    upload_worker c [] st s f = some (st, s, f)
    upload_worker c (([], attempts) ∷ paths) st s f = upload_worker c paths st s f
    upload_worker c ((b ∷ path, attempts) ∷ paths) st s f =
        elim (upload_file_with_retry c (b ∷ path) attempts st s f) [
          | none ↦ none
          | some (failed, st', s', f') ↦ upload_worker c paths (count_result failed st') s' f'
        ]
