-- ===== src/FileWriter.antt =====
-- asyncloguploader/file_writer_linux.go: the current file, its offset, and rotation by size. The
-- kernel is an interface over its own state; the clock's second and the float64 product of the
-- early-rotation test are arguments. `fd` and `nextFd` are the descriptors of `file` and `nextFile`,
-- not 0. Paths are those of one directory and base name, so a path is its timestamp. The offset is
-- the pattern of the int64, read as it stands: it is below 2^63 unless a file grows to that size.
pub mod Rotation
pub mod Laws
pub mod Contents
mod Disk
mod Tests
use logger_double_buffer.Base.{
  ℕ, zero, suc, ◌+◌, ◌-◌, ◌%◌, ◌^◌, ◌≡◌, Bool, true, false, ◌&&◌, ◌||◌, Option, none, some, List,
  [], ◌∷◌, ◌++◌, ltb, leb, ◌==◌, if◌then◌else◌, length,
}
use logger_double_buffer.Base.Int.{ℤ, pos, not_positive, pos_part}
use logger_double_buffer.Base.Bytes.{Bytes}

-- MkdirAll of a path's directory, unix.Open with O_TRUNC, Fallocate, Pwritev, Fsync, Ftruncate and
-- Close, over the state of the kernel. A Boolean result is an error.
pub record Kernel (K : Type 0) : Type 0 where
  pub make_dir : K → ℕ → Bool × K
  pub open_file : K → ℕ → Option ℕ × K
  pub fallocate : K → ℕ → ℕ → Bool × K
  pub pwritev : K → ℕ → List Bytes → ℕ → (ℕ × Bool) × K
  pub fsync : K → ℕ → Bool × K
  pub ftruncate : K → ℕ → ℕ → Bool × K
  pub close_file : K → ℕ → Bool × K

-- The channel of completed files: what waits in it, and its size.
pub record UploadChannel : Type 0 where
  pub queue : List ℕ
  pub size : ℕ

pub record SizeFileWriter (K : Type 0) : Type 0 where
  pub kernel : K
  pub file : Option ℕ
  pub file_path : ℕ
  pub file_offset : ℕ
  pub max_file_size : ℤ
  pub next_file : Option ℕ
  pub next_file_path : ℕ
  pub preallocate_file_size : ℤ
  pub completed_file_chan : Option UploadChannel

-- alignUp to a power of two that divides 2 ^ 63.
abbrev pub align_up : ℕ → ℕ
align_up n = (n + 4095) % 2 ^ 64 - (n + 4095) % 2 ^ 64 % 4096

-- The suffix .log
abbrev pub is_log : Bytes → Bool
is_log (a ∷ b ∷ c ∷ d ∷ []) = a == 46 && (b == 108 && (c == 111 && d == 103))
is_log _ = false

-- strings.TrimSuffix of .log
unfoldable pub trim_log : Bytes → Bytes
trim_log [] = []
trim_log (b ∷ bs) = if is_log (b ∷ bs) then [] else b ∷ trim_log bs

-- The base name of extractBasePathSize, where `base` is filepath.Base; `none` is its error.
unfoldable pub extract_base_path : (Bytes → Bytes) → Bytes → Option Bytes
unfolding trim_log
extract_base_path base path = elim (trim_log (base path)) [ [] ↦ none | b ∷ name ↦ some (b ∷ name) ]

-- The send that does not block.
abbrev pub offer : ℕ → UploadChannel → UploadChannel
offer path c = if ltb (length c.queue) c.size then record c { queue = c.queue ++ path ∷ [] } else c

unfoldable pub offer_path : ℕ → Option UploadChannel → Option UploadChannel
offer_path path none = none
offer_path path (some c) = some (offer path c)

-- The filter of writevAlignedWithOffset.
unfoldable pub non_empty : List Bytes → List Bytes
non_empty [] = []
non_empty ([] ∷ bs) = non_empty bs
non_empty ((x ∷ b) ∷ bs) = (x ∷ b) ∷ non_empty bs

module _ {K : Type 0} (os : Kernel K) where
  -- The preallocation of openDirectIOSize, which closes the file where it fails.
  unfoldable pub preallocate_file : K → ℕ → ℤ → Option ℕ × K
  preallocate_file k fd size =
      if not_positive size
      then (some fd, k)
      else let (failed, k') = os.fallocate k fd (align_up (pos_part size)) in
        if failed then (none, (os.close_file k' fd).1) else (some fd, k')

  -- openDirectIOSize
  unfoldable pub open_direct_io : K → ℕ → ℤ → Option ℕ × K
  unfolding preallocate_file
  open_direct_io k path size =
      let (failed, k1) = os.make_dir k path in
      if failed
      then (none, k1)
      else let (opened, k2) = os.open_file k1 path in
        elim opened [ none ↦ (none, k2) | some fd ↦ preallocate_file k2 fd size ]

  -- NewSizeFileWriter; `none` is its error.
  unfoldable pub new_writer :
      (Bytes → Bytes) → Bytes → K → ℕ → ℤ → ℤ → Option UploadChannel → Option (SizeFileWriter K)
  unfolding open_direct_io extract_base_path
  new_writer base log_file_path k now max_size preallocate chan =
      elim (extract_base_path base log_file_path) [
        | none ↦ none
        | some name ↦
            let (opened, k') = open_direct_io k now preallocate in
            elim opened [
              | none ↦ none
              | some fd ↦ some (record {
                kernel = k';
                file = some fd;
                file_path = now;
                file_offset = 0;
                max_file_size = max_size;
                next_file = none;
                next_file_path = 0;
                preallocate_file_size = preallocate;
                completed_file_chan = chan;
              })
            ]
      ]

  abbrev pub with_next : SizeFileWriter K → ℕ → Option ℕ × K → Bool × SizeFileWriter K
  with_next w path (none, k) = (true, record w { kernel = k })
  with_next w path (some fd, k) =
      (false, record w { kernel = k; next_file = some fd; next_file_path = path })

  -- createNextFile at the second `now`; without preallocation where that fails.
  unfoldable pub create_next_file : SizeFileWriter K → ℕ → Bool × SizeFileWriter K
  unfolding open_direct_io
  create_next_file w now =
      let (opened, k) = open_direct_io w.kernel now w.preallocate_file_size in
      elim opened [
        | none ↦ with_next w now (open_direct_io k now (pos 0))
        | some fd ↦ with_next w now (some fd, k)
      ]

  -- The end of swapFiles, with the old file closed.
  abbrev pub take_next : SizeFileWriter K → ℕ → K → SizeFileWriter K
  take_next w fd k = record w {
    kernel = k;
    file = some fd;
    file_path = w.next_file_path;
    file_offset = 0;
    next_file = none;
    next_file_path = 0;
    completed_file_chan = offer_path w.file_path w.completed_file_chan;
  }

  -- Sync, truncate to the bytes written, close.
  unfoldable pub finish_file : K → ℕ → ℕ → Bool × K
  finish_file k fd written =
      let (sync_failed, k1) = os.fsync k fd in
      if sync_failed
      then (true, k1)
      else let (cut_failed, k2) =
          (if ltb 0 written then os.ftruncate k1 fd written else (false, k1)) in
        if cut_failed then (true, k2) else os.close_file k2 fd

  -- swapFiles
  unfoldable pub swap_files : SizeFileWriter K → Bool × SizeFileWriter K
  unfolding finish_file offer_path
  swap_files w = elim w.next_file [
    | none ↦ (true, w)
    | some next ↦ elim w.file [
      | none ↦ (true, w)
      | some fd ↦
          let (failed, k) = finish_file w.kernel fd w.file_offset in
          if failed then (true, record w { kernel = k }) else (false, take_next w next k)
    ]
  ]

  abbrev pub ensure_next : SizeFileWriter K → ℕ → Option ℕ → Bool × SizeFileWriter K
  ensure_next w now none = create_next_file w now
  ensure_next w now (some fd) = (false, w)

  -- rotateIfNeeded; `early` is int64(float64(maxFileSize) * 0.9).
  unfoldable pub rotate_if_needed : SizeFileWriter K → ℕ → ℕ → Bool × SizeFileWriter K
  unfolding swap_files create_next_file
  rotate_if_needed w now early =
      if not_positive w.max_file_size
      then (false, w)
      else if leb (pos_part w.max_file_size) w.file_offset
      then (let (failed, w1) = ensure_next w now w.next_file in
          if failed then (true, w1) else swap_files w1)
      else if leb early w.file_offset
      then (false, (ensure_next w now w.next_file).1)
      else (false, w)

  abbrev pub fd_of : Option ℕ → ℕ
  fd_of none = 0
  fd_of (some fd) = fd

  abbrev pub after_pwritev : SizeFileWriter K → (ℕ × Bool) × K → (ℕ × Bool) × SizeFileWriter K
  after_pwritev w ((n, true), k) = ((n, true), record w { kernel = k })
  after_pwritev w ((n, false), k) =
      ((n, false), record w { kernel = k; file_offset = (w.file_offset + n) % 2 ^ 64 })

  -- writevAlignedWithOffset
  unfoldable pub writev_aligned_with_offset : K → ℕ → List Bytes → ℕ → (ℕ × Bool) × K
  unfolding non_empty
  writev_aligned_with_offset k fd buffers offset = elim (non_empty buffers) [
    | [] ↦ ((0, false), k)
    | b ∷ bs ↦ os.pwritev k fd (b ∷ bs) offset
  ]

  -- WriteVectored
  unfoldable pub write_vectored :
      SizeFileWriter K → ℕ → ℕ → List Bytes → (ℕ × Bool) × SizeFileWriter K
  unfolding rotate_if_needed writev_aligned_with_offset
  write_vectored w now early [] = ((0, false), w)
  write_vectored w now early (b ∷ bs) =
      let (failed, w1) = rotate_if_needed w now early in
      if failed
      then ((0, true), w1)
      else after_pwritev w1
          (writev_aligned_with_offset w1.kernel (fd_of w1.file) (b ∷ bs) w1.file_offset)

  -- Close's work on the current file: an error of any step is remembered, and all steps are made.
  unfoldable pub close_current : SizeFileWriter K → ℕ → Bool × SizeFileWriter K
  close_current w fd =
      let has_data = ltb 0 w.file_offset in
      let (e1, k1) = (if has_data then os.fsync w.kernel fd else (false, w.kernel)) in
      let (e2, k2) = (if has_data then os.ftruncate k1 fd w.file_offset else (false, k1)) in
      let (e3, k3) = os.close_file k2 fd in
      (
        e1 || (e2 || e3),
        record w {
          kernel = k3;
          file = none;
          completed_file_chan =
              if has_data
              then offer_path w.file_path w.completed_file_chan
              else w.completed_file_chan;
        },
      )

  abbrev pub close_file_part : SizeFileWriter K → Option ℕ → Bool × SizeFileWriter K
  close_file_part w none = (false, w)
  close_file_part w (some fd) = close_current w fd

  abbrev pub close_next_part : SizeFileWriter K → Option ℕ → Bool × SizeFileWriter K
  close_next_part w none = (false, w)
  close_next_part w (some fd) =
      let (e, k) = os.close_file w.kernel fd in
      (e, record w { kernel = k; next_file = none; next_file_path = 0 })

  abbrev pub both_open : Option ℕ → Option ℕ → Bool
  both_open (some a) (some b) = true
  both_open (some a) none = false
  both_open none b = false

  -- Close: a rotation under way is completed first.
  unfoldable pub close : SizeFileWriter K → Bool × SizeFileWriter K
  unfolding swap_files close_current
  close w =
      let (e1, w1) = (if both_open w.next_file w.file then swap_files w else (false, w)) in
      let (e2, w2) = close_file_part w1 w1.file in
      let (e3, w3) = close_next_part w2 w2.next_file in (e1 || (e2 || e3), w3)
