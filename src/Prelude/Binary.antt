-- ===== src/Prelude/Binary.antt =====
-- Byte slices as lists of numbers, and the fixed-width integers of encoding/binary.
use Prim.Native.Nat.{ℕ, zero, suc, ◌+◌, ◌*◌, ◌/◌, ◌%◌, ◌<◌, ◌^◌}
use mathlib.Core.Path.{◌≡◌}
use mathlib.Core.List.{List, [], ◌∷◌}
use native.Mathlib.Omega.{arith}
use musi_flac.Prelude.Lists.{All}

abbrev pub Bytes : Type 0
Bytes = List ℕ

abbrev pub IsByte : ℕ → Type 0
IsByte b = b < 256

abbrev pub IsU32 : ℕ → Type 0
IsU32 v = v < 2 ^ 32

-- The low `n` bytes of `v`, lowest first: `PutUint32` at 4, `PutUint64` at 8.
unfoldable pub put_le : ℕ → ℕ → Bytes
put_le zero v = []
put_le (suc n) v = (v % 256) ∷ put_le n (v / 256)

-- `LittleEndian.Uint32` of a slice of 4 bytes, `Uint64` of one of 8.
unfoldable pub le : Bytes → ℕ
le [] = 0
le (b ∷ bs) = b + 256 * le bs

-- `BigEndian.Uint32`, with the bytes read so far in `acc`.
unfoldable pub be_from : ℕ → Bytes → ℕ
be_from acc [] = acc
be_from acc (b ∷ bs) = be_from (acc * 256 + b) bs

abbrev pub be : Bytes → ℕ
be = be_from 0

pub le-put_le_4 : (v : ℕ) → IsU32 v → le (put_le 4 v) ≡ v
unfolding le put_le
le-put_le_4 v h = omega arith

pub le-put_le_8 : (v : ℕ) → v < 2 ^ 64 → le (put_le 8 v) ≡ v
unfolding le put_le
le-put_le_8 v h = omega arith

pub put_le-IsByte : (n v : ℕ) → All IsByte (put_le n v)
unfolding put_le
put_le-IsByte zero v = tt
put_le-IsByte (suc n) v = (omega arith, put_le-IsByte n (v / 256))
