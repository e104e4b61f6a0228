-- ===== src/LogFile.antt =====
-- scripts/parse_log_file.go: the reader of the files that the loggers write. What it prints is kept
-- as a report: the shards it counts, the entries it reads whole, and how many it gives up on.
-- Both loops run on fuel; `none` is a slice that Go refuses, or fuel that ran out.
pub mod Entries
pub mod Blocks
mod Tests
use logger_double_buffer.Base.{
  ℕ, zero, suc, ◌+◌, ◌-◌, ◌*◌, ◌/◌, ◌≡◌, Bool, true, false, ◌||◌, Option, none, some, List, [], ◌∷◌,
  ◌++◌, ltb, leb, ◌==◌, if◌then◌else◌, ◌>>=◌, length, take, drop,
}
use logger_double_buffer.Base.Bytes.{Bytes, get_u32}

pub record Report : Type 0 where
  pub shards : ℕ
  pub entries : List Bytes
  pub incomplete : ℕ

-- 10 MB
abbrev pub max_entry : ℕ
max_entry = 10 * 1024 * 1024

abbrev pub give_up : Report → Report
give_up r = record r { incomplete = r.incomplete + 1 }

-- data[lo:hi]
unfoldable pub slice : Bytes → ℕ → ℕ → Option Bytes
slice data' lo hi =
    if ltb (length data') hi || ltb hi lo then none else some (take (hi - lo) (drop lo data'))

-- The inner loop, over the entries of one shard block that ends at `shard_end`.
pub parse_entries : ℕ → Bytes → ℕ → ℕ → Report → Option Report
unfolding slice
parse_entries zero data' entry_offset shard_end r = none
parse_entries (suc fuel) data' entry_offset shard_end r = elim (leb shard_end entry_offset) [
  | true ↦ some r
  | false ↦ elim (ltb shard_end (entry_offset + 4)) [
    | true ↦ some (give_up r)
    | false ↦ elim (slice data' entry_offset (entry_offset + 4) >>= get_u32) [
      | none ↦ none
      | some entry_length ↦ elim (entry_length == 0 || ltb max_entry entry_length) [
        | true ↦ some (give_up r)
        | false ↦ elim (ltb shard_end (entry_offset + 4 + entry_length)) [
          | true ↦ elim (leb (entry_offset + 4 + entry_length) shard_end) [
            | true ↦
                parse_entries fuel data' (entry_offset + 4 + entry_length) shard_end (give_up r)
            | false ↦ some (give_up r)
          ]
          | false ↦ elim (slice data' (entry_offset + 4) (entry_offset + 4 + entry_length)) [
            | none ↦ none
            | some entry ↦
                parse_entries fuel data' (entry_offset + 4 + entry_length) shard_end
                  (record r { entries = r.entries ++ entry ∷ [] })
          ]
        ]
      ]
    ]
  ]
]

-- Where the outer loop looks for the next shard block: 512-byte aligned, after a block whose data
-- begin at `offset`.
pub next_block : ℕ → ℕ → ℕ
next_block offset capacity = (offset + capacity + 511) / 512 * 512

-- The shard's valid bytes, cut to what the file holds.
pub clamp_valid : ℕ → ℕ → ℕ
clamp_valid valid remaining = if ltb remaining valid then remaining else valid

-- One round of the outer loop: the report with the block's entries, and the next offset, if any.
pub parse_block : Bytes → ℕ → Report → Option (Report × Option ℕ)
unfolding next_block clamp_valid slice
parse_block data' offset r = if ltb (length data') (offset + 8) then some (r, none) else do
  capacity ← slice data' offset (offset + 4) >>= get_u32
  valid ← slice data' (offset + 4) (offset + 8) >>= get_u32
  let kept = clamp_valid valid (length data' - offset - 8)
  r' ← parse_entries (suc kept) data' (offset + 8) (offset + 8 + kept) r
  some (
      if ltb (length data') (offset + 8 + capacity)
        || ltb (length data') (next_block (offset + 8) capacity)
      then (r', none)
      else (record r' { shards = r'.shards + 1 }, some (next_block (offset + 8) capacity)))

-- The outer loop.
pub parse_blocks : ℕ → Bytes → ℕ → Report → Option Report
parse_blocks zero data' offset r = none
parse_blocks (suc fuel) data' offset r = elim (leb (length data') offset) [
  | true ↦ some r
  | false ↦ elim (parse_block data' offset r) [
    | none ↦ none
    | some (r', none) ↦ some r'
    | some (r', some next) ↦ parse_blocks fuel data' next r'
  ]
]

-- main, on the bytes of the file.
pub parse_file : Bytes → Option Report
unfolding parse_blocks
parse_file data' =
    parse_blocks (suc (length data')) data' 0 (record { shards = 0; entries = []; incomplete = 0 })
