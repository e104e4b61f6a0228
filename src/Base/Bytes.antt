-- ===== src/Base/Bytes.antt =====
-- Byte slices: encoding/binary's little-endian uint32, and writes into a part of a slice.
use Prim.Native.Nat.{ℕ, ◌+◌, ◌-◌, ◌*◌, ◌/◌, ◌%◌, ◌^◌, ◌≤◌, ◌<◌}
use mathlib.Core.Path.{◌≡◌, refl}
use mathlib.Core.Bool.{◌&&◌}
use mathlib.Core.Option.{Option, none, some}
use mathlib.Core.List.{List, [], ◌∷◌, ◌++◌, append_assoc}
use native.Mathlib.Omega.{arith}
use logger_double_buffer.Base.Tests.{ltb, leb, if◌then◌else◌}
use logger_double_buffer.Base.Lists.{
  length, take, drop, take-append, length-append, length-take, length-drop, take_all,
}

abbrev pub Bytes : Type 0
Bytes = List ℕ

-- The four bytes of binary.LittleEndian.PutUint32 for uint32(n).
unfoldable pub u32 : ℕ → Bytes
u32 n = n % 256 ∷ n / 2 ^ 8 % 256 ∷ n / 2 ^ 16 % 256 ∷ n / 2 ^ 24 % 256 ∷ []

-- binary.LittleEndian.Uint32 of the first four bytes; shorter slices panic.
pub get_u32 : Bytes → Option ℕ
get_u32 (a ∷ b ∷ c ∷ d ∷ rest) = some (a + b * 2 ^ 8 + c * 2 ^ 16 + d * 2 ^ 24)
get_u32 _ = none

pub get_u32-u32 : (n : ℕ) (rest : Bytes) → n < 2 ^ 32 → get_u32 (u32 n ++ rest) ≡ some n
unfolding get_u32 u32
get_u32-u32 n rest h = ground arith

pub length-u32 : (n : ℕ) → length (u32 n) ≡ 4
unfolding u32
length-u32 n = refl

-- The bytes from `pos` on replaced by `src`, as far as the slice goes.
unfoldable pub write_at : Bytes → ℕ → Bytes → Bytes
write_at buf pos src = take pos buf ++ (src ++ drop (pos + length src) buf)

-- copy(buf[lo:hi], src) for int32 bounds; bounds that Go refuses are a panic, `none`.
unfoldable pub copy_range : Bytes → ℕ → ℕ → Bytes → Option Bytes
copy_range buf lo hi src =
    if leb lo hi && (leb hi (length buf) && ltb hi (2 ^ 31))
    then some (write_at buf lo (take (hi - lo) src))
    else none

module _ (buf : Bytes) (pos : ℕ) (src : Bytes) (fits : pos + length src ≤ length buf) where
  pub length-write_at : length (write_at buf pos src) ≡ length buf
  unfolding write_at
  length-write_at = omega (
    arith,
    length-append (take pos buf) (src ++ drop (pos + length src) buf),
    length-append src (drop (pos + length src) buf),
    length-take pos buf,
    length-drop (pos + length src) buf,
  )

  -- Everything up to the end of what was written.
  pub take-write_at : take (pos + length src) (write_at buf pos src) ≡ take pos buf ++ src
  unfolding write_at
  take-write_at = rw (← append_assoc) (
      take-append (take pos buf ++ src) (drop (pos + length src) buf) (pos + length src)
        (omega (arith, length-append (take pos buf) src, length-take pos buf)))

  -- In range, the copy is made whole.
  pub copy_range-eq :
      (hi : ℕ)
      → hi ≡ pos + length src
      → length buf < 2 ^ 31
      → copy_range buf pos hi src ≡ some (write_at buf pos src)
  unfolding copy_range
  copy_range-eq hi e small = ground (arith, take_all (hi - pos) src)
