-- ===== src/Base/Bytes.antt =====
-- Memory as a byte at each offset from a pointer, with `memcpy` and `memset`.
use Prim.Native.Nat.{ℕ, ◌+◌, ◌-◌, ◌*◌, ◌/◌, ◌%◌, ◌≤◌, ◌<◌}
use mathlib.Core.Path.{◌≡◌}
use mathlib.Core.Logic.{◌⊎◌}
use mathlib.Core.Bool.{◌&&◌}
use native.Mathlib.Omega.{arith}
use miniob.Base.Tests.{ltb, leb, ◌==◌, if◌then◌else◌}

abbrev pub Memory : Type 0
Memory = ℕ → ℕ

-- Every cell is a byte.
abbrev pub IsBytes : Memory → Type 0
IsBytes m = (i : ℕ) → m i < 256

-- The memory with one byte written.
unfoldable pub write : Memory → ℕ → ℕ → Memory
write m p v i = if i == p then v else m i

unfoldable pub memcpy : Memory → ℕ → Memory → ℕ → Memory
memcpy dst offset src len i =
    if leb offset i && ltb i (offset + len) then src (i - offset) else dst i

unfoldable pub memset : Memory → ℕ → ℕ → ℕ → Memory
memset dst offset v len i = if leb offset i && ltb i (offset + len) then v else dst i

pub write_self : (m : Memory) (p v : ℕ) → write m p v p ≡ v
unfolding write
write_self m p v = ground arith

pub write-eq : (m : Memory) (p v i : ℕ) → write m p v i ≡ (if i == p then v else m i)
unfolding write
write-eq m p v i = ground arith

pub write-IsBytes : (m : Memory) (p v : ℕ) → v < 256 → IsBytes m → IsBytes (write m p v)
unfolding write
write-IsBytes m p v small bytes i = ground (arith, bytes i)

pub memcpy-inside :
    (dst : Memory) (offset : ℕ) (src : Memory) (len i : ℕ)
    → i < len
    → memcpy dst offset src len (offset + i) ≡ src i
unfolding memcpy
memcpy-inside dst offset src len i h = ground arith

pub memcpy-outside :
    (dst : Memory) (offset : ℕ) (src : Memory) (len i : ℕ)
    → (i < offset) ⊎ (offset + len ≤ i)
    → memcpy dst offset src len i ≡ dst i
unfolding memcpy
memcpy-outside dst offset src len i h = ground arith

pub memcpy-IsBytes :
    (dst : Memory) (offset : ℕ) (src : Memory) (len : ℕ)
    → IsBytes dst
    → IsBytes src
    → IsBytes (memcpy dst offset src len)
unfolding memcpy
memcpy-IsBytes dst offset src len d s i = ground (arith, d i, s (i - offset))

pub memset-inside :
    (dst : Memory) (offset v len i : ℕ)
    → offset ≤ i
    → i < offset + len
    → memset dst offset v len i ≡ v
unfolding memset
memset-inside dst offset v len i h k = ground arith

pub memset-IsBytes :
    (dst : Memory) (offset v len : ℕ) → v < 256 → IsBytes dst → IsBytes (memset dst offset v len)
unfolding memset
memset-IsBytes dst offset v len small d i = ground (arith, d i)

-- An unsigned 32-bit integer in little-endian order, and the memory with one written.
unfoldable pub read_u32 : Memory → ℕ → ℕ
read_u32 m p = m p + 256 * m (p + 1) + 65536 * m (p + 2) + 16777216 * m (p + 3)

unfoldable pub write_u32 : Memory → ℕ → ℕ → Memory
write_u32 m p v i =
    if i == p
    then v % 256
    else if i == p + 1
    then v / 256 % 256
    else if i == p + 2
    then v / 65536 % 256
    else if i == p + 3
    then v / 16777216 % 256
    else m i

pub read-write_u32 : (m : Memory) (p v : ℕ) → v < 4294967296 → read_u32 (write_u32 m p v) p ≡ v
unfolding read_u32 write_u32
read-write_u32 m p v h = ground arith

pub write_u32-outside : (m : Memory) (p v i : ℕ) → (i < p) ⊎ (p + 4 ≤ i) → write_u32 m p v i ≡ m i
unfolding write_u32
write_u32-outside m p v i h = ground arith

pub read_u32-outside :
    (m : Memory) (p v q : ℕ)
    → (q + 4 ≤ p) ⊎ (p + 4 ≤ q)
    → read_u32 (write_u32 m p v) q ≡ read_u32 m q
unfolding read_u32
read_u32-outside m p v q h = ground (
  arith,
  write_u32-outside m p v q,
  write_u32-outside m p v (q + 1),
  write_u32-outside m p v (q + 2),
  write_u32-outside m p v (q + 3),
)

pub write_u32-IsBytes : (m : Memory) (p v : ℕ) → IsBytes m → IsBytes (write_u32 m p v)
unfolding write_u32
write_u32-IsBytes m p v bytes i = ground (arith, bytes i)

pub read_u32_bound : (m : Memory) (p : ℕ) → IsBytes m → read_u32 m p < 4294967296
unfolding read_u32
read_u32_bound m p bytes = omega (arith, bytes p, bytes (p + 1), bytes (p + 2), bytes (p + 3))
