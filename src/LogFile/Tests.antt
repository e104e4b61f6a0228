-- ===== src/LogFile/Tests.antt =====
-- Runs of the log reader.
use logger_double_buffer.Base.{
  zero, ◌+◌, ◌≡◌, refl, some, List, [], ◌∷◌, ◌++◌, arith, length, All, replicate, length-replicate,
  ◌<◌, ◌≤◌, ◌^◌,
}
use logger_double_buffer.Base.Bytes.{Bytes, u32}
use logger_double_buffer.Shard.Contents.{encode}
use logger_double_buffer.LogFile.{Report, parse_entries, parse_block}
use logger_double_buffer.LogFile.Entries.{IsEntry, parse_entries-encode}
use logger_double_buffer.LogFile.Blocks.{parse_block-encode}

abbrev blank : Report
blank = record { shards = 0; entries = []; incomplete = 0 }

abbrev two : List Bytes
two = (1 ∷ 2 ∷ []) ∷ (3 ∷ []) ∷ []

abbrev header : Bytes
header = 64 ∷ 0 ∷ 0 ∷ 0 ∷ 11 ∷ 0 ∷ 0 ∷ 0 ∷ []

two-IsEntry : All IsEntry two
two-IsEntry = ((omega arith, omega arith), ((omega arith, omega arith), tt))

encoded_length : 19 ≡ 8 + length (encode two)
unfolding u32
encoded_length = refl

parse_entries-encode_example :
    parse_entries 3 (header ++ (encode two ++ 0 ∷ [])) 8 19 blank
    ≡ some (record blank { entries = [] ++ two })
parse_entries-encode_example =
    parse_entries-encode 3 (header ++ (encode two ++ 0 ∷ [])) header (0 ∷ []) two 8 19 blank
      two-IsEntry refl refl encoded_length (omega arith)

abbrev padding : Bytes
padding = replicate 5000 0

-- A block of 4096 bytes at the start of the file, and bytes behind it.
abbrev disk : Bytes
disk = [] ++ (u32 4096 ++ (u32 (length (encode two)) ++ (encode two ++ padding)))

disk_long : 4608 ≤ length disk
unfolding u32
disk_long = omega (arith, length-replicate 5000 zero)

two_fit : length (encode two) < 2 ^ 32
two_fit = omega (arith, encoded_length)

parse_block-encode_example :
    parse_block disk 0 blank
    ≡ some (record blank { entries = [] ++ two; shards = 0 + 1 }, some 4608)
parse_block-encode_example =
    parse_block-encode disk [] padding two 0 4096 blank two-IsEntry refl refl refl refl
      (omega arith) two_fit disk_long
