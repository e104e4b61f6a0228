-- ===== src/LogFile/Blocks.antt =====
-- How the log reader goes over one block, from its header to the offset of the next one.
use logger_double_buffer.Base.{
  ℕ, ◌+◌, ◌%◌, ◌^◌, ◌≤◌, ◌<◌, ◌≡◌, ◌∙◌, ap, some, List, [], ◌∷◌, ◌++◌, arith, append_assoc,
  append-nil, length, All, length-append, ◌>>=◌, suc, ◌-◌,
}
use logger_double_buffer.Base.Bytes.{Bytes, u32, get_u32, get_u32-u32, length-u32}
use logger_double_buffer.Shard.Contents.{record_of, encode}
use logger_double_buffer.LogFile.{Report, slice, parse_block, next_block, clamp_valid}
use logger_double_buffer.LogFile.Entries.{
  IsEntry, slice-middle, length-record_of, parse_entries-encode,
}

next_block-skips :
    (start capacity : ℕ)
    → start % 512 ≡ 0
    → capacity % 4096 ≡ 0
    → next_block (start + 8) capacity ≡ start + capacity + 512
unfolding next_block
next_block-skips start capacity a c = omega arith

clamp_valid_whole : (valid remaining : ℕ) → valid ≤ remaining → clamp_valid valid remaining ≡ valid
unfolding clamp_valid
clamp_valid_whole valid remaining h = ground arith

-- No more messages than bytes.
length-encode : (ms : List Bytes) → length ms ≤ length (encode ms)
length-encode [] = omega arith
length-encode (p ∷ ms) =
    omega (arith, length-append (record_of p) (encode ms), length-record_of p, length-encode ms)

-- The number at `lo`.
number-read :
    (data' pre post : Bytes) (n lo : ℕ)
    → data' ≡ pre ++ (u32 n ++ post)
    → lo ≡ length pre
    → n < 2 ^ 32
    → (slice data' lo (lo + 4) >>= get_u32) ≡ some n
number-read data' pre post n lo layout at small =
    rw
      (
        layout,
        slice-middle pre (u32 n) post lo (lo + 4) at (omega (arith, length-u32 n)),
        ← append-nil (u32 n),
      )
      (get_u32-u32 n [] small)

-- A block at an offset that is a multiple of 512, whose header gives its capacity, a multiple of
-- 4096, and the number of its valid bytes, both below 2^32, and whose valid bytes encode messages of
-- 1 byte to 10 MiB each, in a file that reaches 512 bytes or more behind the end of the block: the
-- reader reports all the messages, in their order, gives up on none, counts the shard, and goes on
-- 512 bytes behind the end of the block.
pub parse_block-encode :
    (data' pre post : Bytes) (ms : List Bytes) (start capacity : ℕ) (r : Report)
    → All IsEntry ms
    → data' ≡ pre ++ (u32 capacity ++ (u32 (length (encode ms)) ++ (encode ms ++ post)))
    → start ≡ length pre
    → start % 512 ≡ 0
    → capacity % 4096 ≡ 0
    → capacity < 2 ^ 32
    → length (encode ms) < 2 ^ 32
    → start + capacity + 512 ≤ length data'
    → parse_block data' start r
      ≡ some (
        record r { entries = r.entries ++ ms; shards = r.shards + 1 },
        some (start + capacity + 512),
      )
unfolding parse_block
parse_block-encode data' pre post ms start capacity r ok layout at aligned pages small fits long =
    let n = length (encode ms) in
    let size_pre = length-append pre (u32 capacity) in
    let size_head = length-append (pre ++ u32 capacity) (u32 n) in
    let first = length-u32 capacity in
    let second = length-u32 n in
    let whole : data' ≡ ((pre ++ u32 capacity) ++ u32 n) ++ (encode ms ++ post) =
      layout ∙ simp append_assoc in
    let size = ap length whole in
    let total = length-append ((pre ++ u32 capacity) ++ u32 n) (encode ms ++ post) in
    let rest = length-append (encode ms) post in
    let cap_read =
      number-read data' pre (u32 n ++ (encode ms ++ post)) capacity start layout at small in
    let valid_read =
      number-read data' (pre ++ u32 capacity) (encode ms ++ post) n (start + 4)
        (layout ∙ simp append_assoc) (omega arith) fits in
    let kept = clamp_valid_whole n (length data' - start - 8) (omega arith) in
    let read =
      parse_entries-encode (suc n) data' ((pre ++ u32 capacity) ++ u32 n) post ms (start + 8)
        (start + 8 + n) r ok whole (omega arith) (omega arith) (omega (arith, length-encode ms)) in
    let skip = next_block-skips start capacity aligned pages in ground arith
