-- ===== src/LogFile/Entries.antt =====
-- Reading back what Shard wrote: the inner loop of the log reader inverts the encoding.
use logger_double_buffer.Base.{
  ℕ, zero, suc, ◌+◌, ◌-◌, ◌≤◌, ◌<◌, ◌≡◌, ◌∙◌, some, List, [], ◌∷◌, ◌++◌, arith, append_assoc,
  append-nil, length, All, length-append, take-append, drop-append, le→ltb, ◌>>=◌,
}
use logger_double_buffer.Base.Bytes.{Bytes, u32, get_u32, get_u32-u32, length-u32}
use logger_double_buffer.Shard.Contents.{record_of, encode}
use logger_double_buffer.LogFile.{Report, max_entry, slice, parse_entries}

-- The lengths that the reader accepts.
abbrev pub IsEntry : Bytes → Type 0
IsEntry p = (0 < length p) × (length p ≤ max_entry)

-- A slice of a concatenation, where its bounds are those of the middle part.
pub slice-middle :
    (pre mid post : Bytes) (lo hi : ℕ)
    → lo ≡ length pre
    → hi ≡ length pre + length mid
    → slice (pre ++ (mid ++ post)) lo hi ≡ some mid
unfolding slice
slice-middle pre mid post lo hi el eh =
    let total = length-append pre (mid ++ post) in
    let rest = length-append mid post in
    rw (
      le→ltb (length (pre ++ (mid ++ post))) hi (omega arith),
      le→ltb hi lo (omega arith),
      drop-append pre (mid ++ post) lo el,
      take-append mid post (hi - lo) (omega arith),
    )

pub length-record_of : (p : Bytes) → length (record_of p) ≡ 4 + length p
length-record_of p = omega (arith, length-append (u32 (length p)) p, length-u32 (length p))

prefix-read :
    (data' pre p post : Bytes) (lo : ℕ)
    → IsEntry p
    → data' ≡ pre ++ (u32 (length p) ++ (p ++ post))
    → lo ≡ length pre
    → (slice data' lo (lo + 4) >>= get_u32) ≡ some (length p)
prefix-read data' pre p post lo ok layout at =
    rw
      (
        layout,
        slice-middle pre (u32 (length p)) (p ++ post) lo (lo + 4) at
            (omega (arith, length-u32 (length p))),
        ← append-nil (u32 (length p)),
      )
      (get_u32-u32 (length p) [] (omega arith))

payload-read :
    (data' pre p post : Bytes) (lo : ℕ)
    → data' ≡ pre ++ (u32 (length p) ++ (p ++ post))
    → lo ≡ length pre
    → slice data' (lo + 4) (lo + 4 + length p) ≡ some p
payload-read data' pre p post lo layout at =
    let n = length-append pre (u32 (length p)) in
    let m = length-u32 (length p) in
    rw (layout, ← append_assoc pre (u32 (length p)) (p ++ post))
      (slice-middle (pre ++ u32 (length p)) p post (lo + 4) (lo + 4 + length p) (omega arith)
        (omega arith))

-- One round of the loop reads one record.
parse_entries-step :
    (fuel : ℕ) (data' pre p post : Bytes) (lo shard_end : ℕ) (r : Report)
    → IsEntry p
    → data' ≡ pre ++ (u32 (length p) ++ (p ++ post))
    → lo ≡ length pre
    → lo + 4 + length p ≤ shard_end
    → parse_entries (suc fuel) data' lo shard_end r
      ≡ parse_entries fuel data'
          (lo + 4 + length p)
          shard_end
          (record r { entries = r.entries ++ p ∷ [] })
unfolding parse_entries
parse_entries-step fuel data' pre p post lo shard_end r ok layout at fits = ground (
  arith,
  prefix-read data' pre p post lo ok layout at,
  payload-read data' pre p post lo layout at,
)

-- With more fuel than messages, each of 1 byte to 10 MiB, the inner loop reads back exactly the
-- messages that a block encodes, in their order, and gives up on none, whatever stands before and
-- after them in the file.
pub parse_entries-encode :
    (fuel : ℕ) (data' pre post : Bytes) (ms : List Bytes) (lo shard_end : ℕ) (r : Report)
    → All IsEntry ms
    → data' ≡ pre ++ (encode ms ++ post)
    → lo ≡ length pre
    → shard_end ≡ lo + length (encode ms)
    → length ms < fuel
    → parse_entries fuel data' lo shard_end r ≡ some (record r { entries = r.entries ++ ms })
parse_entries-encode zero data' pre post ms lo shard_end r ok layout at end enough =
    absurd (omega arith)
parse_entries-encode (suc fuel) data' pre post [] lo shard_end r ok layout at end enough =
    unfold parse_entries in ground (arith, append-nil r.entries)
parse_entries-encode (suc fuel) data' pre post (p ∷ ms) lo shard_end r ok layout at end enough =
    let sizes = length-append (record_of p) (encode ms) in
    let one = length-record_of p in
    let before = length-append pre (record_of p) in
    parse_entries-step fuel data' pre p (encode ms ++ post) lo shard_end r ok.0
      (layout ∙ simp append_assoc) at (omega arith)
    ∙ (parse_entries-encode fuel data' (pre ++ record_of p) post ms (lo + 4 + length p) shard_end
          (record r { entries = r.entries ++ p ∷ [] }) ok.1 (layout ∙ simp append_assoc)
          (omega arith) (omega arith) (omega arith)
        ∙ simp append_assoc)
