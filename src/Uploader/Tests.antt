-- ===== src/Uploader/Tests.antt =====
-- Uploads to a store in memory.
use logger_double_buffer.Base.{
  ℕ, ◌+◌, ◌%◌, ◌^◌, ◌≡◌, ◌⊎◌, refl, Bool, true, false, Option, none, some, List, [], ◌∷◌, arith,
  length,
}
use logger_double_buffer.Base.Bytes.{Bytes}
use logger_double_buffer.ChunkManager.{object}
use logger_double_buffer.ChunkManager.Tests.{
  State, memory, memory-Laws, update, update-at, update-elsewhere,
}
use logger_double_buffer.Uploader.{
  Cloud, Files, Stats, Settings, Attempt, upload_parallel, upload_worker,
}
use logger_double_buffer.Uploader.Parallel.{Laws, upload_parallel-uploads}
use logger_double_buffer.Uploader.Counts.{Balanced, upload_worker-Balanced}

abbrev size_of : Option Bytes → Option ℕ
size_of none = none
size_of (some v) = some (length v)

abbrev cloud : Cloud State
cloud = record {
  store = memory;
  put = λ s name data'. (false, update s name (some data'));
  attrs = λ s name. size_of (s name);
}

cloud-Laws : Laws cloud
unfolding memory-Laws
cloud-Laws = record {
  store = memory-Laws;
  written = λ s name data' ok. update-at s name (some data');
  put_elsewhere = λ s name data' nm ne. update-elsewhere s name (some data') nm ne;
}

abbrev empty_store : State
empty_store nm = none

abbrev file : Bytes
file = 1 ∷ 2 ∷ 3 ∷ 4 ∷ 5 ∷ []

abbrev name : Bytes
name = 102 ∷ []

-- Five bytes in three chunks, composed two at a time.
upload_parallel-uploads_example :
    (failed : Bool) × (s' : State) × (upload_parallel cloud 2 empty_store name (116 ∷ []) file 2
      ≡ some (failed, s'))
    × ((failed ≡ true) ⊎ (s' (object name) ≡ some file))
unfolding memory-Laws cloud-Laws
upload_parallel-uploads_example =
    upload_parallel-uploads cloud cloud-Laws 2 empty_store name (116 ∷ []) file 2 (omega arith)
      (omega arith)

-- Files that cannot be read.
abbrev unreadable : Files ℕ
unreadable = record { stat = λ f path. none; read = λ f path. none; remove = λ f path. (true, f) }

abbrev settings : Settings
settings = record { object_prefix = []; chunk_size = 2; max_chunks = 2; max_retries = 1 }

abbrev no_files : Stats
no_files = record {
  total_files = 0;
  successful = 0;
  failed = 0;
  total_bytes = 0;
  total_duration = 0;
  min_upload_duration = 0;
  max_upload_duration = 0;
}

abbrev one_failed : Stats
one_failed = record no_files { total_files = 1; failed = 1 }

abbrev attempts : ℕ → Attempt
attempts i = record { suffix = i ∷ []; duration = 3; stopped = false }

abbrev paths : List (Bytes × (ℕ → Attempt))
paths = (name, attempts) ∷ ([], attempts) ∷ []

upload_worker-Balanced_example :
    (st' : Stats) × (s' : State) × (f' : ℕ) × (upload_worker cloud unreadable
        (λ path. path)
        settings
        paths
        no_files
        empty_store
        0
      ≡ some (st', s', f'))
    × Balanced st'
    × (st'.total_files ≡ (0 + 1) % 2 ^ 64)
upload_worker-Balanced_example =
    upload_worker-Balanced cloud unreadable (λ path. path) settings paths no_files empty_store 0
      (omega arith) refl
