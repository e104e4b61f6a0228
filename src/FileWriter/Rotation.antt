-- ===== src/FileWriter/Rotation.antt =====
-- What rotation and Close do to the files.
use logger_double_buffer.Base.{ℕ, ◌≤◌, ◌<◌, ◌≡◌, ◌≢◌, false, none, arith}
use logger_double_buffer.Base.Int.{not_positive, pos_part}
use logger_double_buffer.FileWriter.{Kernel, SizeFileWriter, offer_path, rotate_if_needed, close}

-- A writer that can write has a current file.
abbrev pub IsOpen : {K : Type 0} → SizeFileWriter K → Type 0
IsOpen w = w.file ≢ none

module _ {K : Type 0} (os : Kernel K) where
  -- Below the limit there is no error, and the current file, its path, its offset and the upload
  -- channel stay.
  pub rotate_below_limit :
      (w : SizeFileWriter K) (now early : ℕ)
      → w.file_offset < pos_part w.max_file_size
      → let (failed, w') = rotate_if_needed os w now early in
        (failed ≡ false)
        × (w'.file ≡ w.file)
        × (w'.file_path ≡ w.file_path)
        × (w'.file_offset ≡ w.file_offset)
        × (w'.completed_file_chan ≡ w.completed_file_chan)
  unfolding rotate_if_needed
  rotate_below_limit w now early h = ground arith

  pub close-closes :
      (w : SizeFileWriter K) → ((close os w).1.file ≡ none) × ((close os w).1.next_file ≡ none)
  unfolding close
  close-closes w = ground arith

  close_closed :
      (w : SizeFileWriter K) → w.file ≡ none → w.next_file ≡ none → close os w ≡ (false, w)
  unfolding close
  close_closed w e f = ground arith

  -- A second Close changes nothing, calls nothing of the kernel and returns no error.
  pub close-close : (w : SizeFileWriter K) → close os (close os w).1 ≡ (false, (close os w).1)
  close-close w = close_closed (close os w).1 (close-closes w).0 (close-closes w).1

  -- A rotation at the size limit that succeeds, with no next file, in the second that the current
  -- file's path was made of, goes on under that same path, which it has offered for upload.
  pub rotate_same_second :
      (w : SizeFileWriter K) (now early : ℕ)
      → not_positive w.max_file_size ≡ false
      → pos_part w.max_file_size ≤ w.file_offset
      → w.next_file ≡ none
      → w.file_path ≡ now
      → (rotate_if_needed os w now early).0 ≡ false
      → let w' = (rotate_if_needed os w now early).1 in
        (w'.file_path ≡ w.file_path)
        × (w'.completed_file_chan ≡ offer_path w'.file_path w.completed_file_chan)
  unfolding rotate_if_needed
  rotate_same_second w now early on full fresh same done = ground arith
