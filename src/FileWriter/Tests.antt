-- ===== src/FileWriter/Tests.antt =====
-- Runs of the file writer over files in memory.
use logger_double_buffer.Base.{
  ℕ, ◌+◌, ◌≤◌, ◌≡◌, ◌≢◌, refl, Bool, false, none, some, List, [], ◌∷◌, ◌++◌, arith, take, inr,
}
use logger_double_buffer.Base.Int.{pos}
use logger_double_buffer.Base.Bytes.{Bytes}
use logger_double_buffer.FileWriter.{
  SizeFileWriter, offer_path, rotate_if_needed, write_vectored, swap_files, create_next_file,
  open_direct_io, preallocate_file, finish_file, writev_aligned_with_offset, non_empty,
}
use logger_double_buffer.FileWriter.Rotation.{rotate_same_second}
use logger_double_buffer.FileWriter.Contents.{write_vectored-appends}
use logger_double_buffer.FileWriter.Disk.{Disk, disk, view, read_disk, put_at, disk-Laws}

-- Descriptor 3 stands for the file at path 100.
abbrev files : Disk
files = record {
  next = 4;
  path_of = put_at 3 (some 100) (λ fd. none);
  file_at = put_at 100 (7 ∷ 8 ∷ []) (λ p. []);
}

abbrev full : SizeFileWriter Disk
full = record {
  kernel = files;
  file = some 3;
  file_path = 100;
  file_offset = 8192;
  max_file_size = pos 8192;
  next_file = none;
  next_file_path = 0;
  preallocate_file_size = pos 65536;
  completed_file_chan = some (record { queue = []; size = 2 });
}

abbrev started : SizeFileWriter Disk
started = record full { file_offset = 2; max_file_size = pos 2048 }

abbrev buffers : List Bytes
buffers = (1 ∷ 2 ∷ []) ∷ [] ∷ (3 ∷ []) ∷ []

rotated_at_once : (rotate_if_needed disk full 100 7372).0 ≡ false
unfolding rotate_if_needed swap_files create_next_file open_direct_io preallocate_file finish_file
rotated_at_once = refl

abbrev after_append : (ℕ × Bool) × SizeFileWriter Disk
after_append = write_vectored disk started 101 1 buffers

appended : after_append.0.1 ≡ false
unfolding write_vectored rotate_if_needed swap_files create_next_file open_direct_io
    preallocate_file finish_file writev_aligned_with_offset non_empty
appended = refl

other_second : started.file_path ≢ 101
other_second e = absurd (omega arith)

write_vectored-appends_example :
    (after_append.1.file ≡ some 3)
    × (after_append.1.file_offset ≡ 2 + after_append.0.0)
    × (after_append.0.0 ≤ 3)
    × (read_disk after_append.1.kernel 3 after_append.1.file_offset
        ≡ (7 ∷ 8 ∷ []) ++ take after_append.0.0 (1 ∷ 2 ∷ 3 ∷ []))
write_vectored-appends_example =
    write_vectored-appends disk view disk-Laws started 101 1 buffers 3 refl refl other_second
      (inr (omega arith)) (omega arith) (omega arith) appended

abbrev after_rotation : (ℕ × Bool) × SizeFileWriter Disk
after_rotation = write_vectored disk full 101 7372 buffers

rotate_same_second_example :
    ((rotate_if_needed disk full 100 7372).1.file_path ≡ 100)
    × ((rotate_if_needed disk full 100 7372).1.completed_file_chan
        ≡ offer_path (rotate_if_needed disk full 100 7372).1.file_path full.completed_file_chan)
rotate_same_second_example =
    rotate_same_second disk full 100 7372 refl (omega arith) refl refl rotated_at_once
