-- ===== src/Prelude/Bytes.antt =====
-- Bytes and big-endian words: `u16` and `u32` as numbers below 2 ^ 16 and 2 ^ 32.
use Prim.Native.Nat.{ℕ, ◌+◌, ◌*◌, ◌/◌, ◌%◌, ◌<◌}
use mathlib.Core.Path.{◌≡◌}
use mathlib.Core.List.{List, [], ◌∷◌}
use native.Mathlib.Omega.{arith}
use destiny1_pc_project.Prelude.Lists.{length, All}

abbrev pub IsByte : ℕ → Type 0
IsByte b = b < 256

abbrev pub IsU16 : ℕ → Type 0
IsU16 n = n < 65536

abbrev pub IsU32 : ℕ → Type 0
IsU32 n = n < 4294967296

abbrev from_be_acc : ℕ → List ℕ → ℕ
from_be_acc acc [] = acc
from_be_acc acc (b ∷ bs) = from_be_acc (acc * 256 + b) bs

-- `u16::from_be_bytes`, `u32::from_be_bytes`, on the slice that the code passes.
abbrev pub from_be : List ℕ → ℕ
from_be bs = from_be_acc 0 bs

-- `to_be_bytes` of a `u16` and of a `u32`.
abbrev pub to_be16 : ℕ → List ℕ
to_be16 n = n / 256 % 256 ∷ n % 256 ∷ []

abbrev pub to_be32 : ℕ → List ℕ
to_be32 n = n / 16777216 % 256 ∷ n / 65536 % 256 ∷ n / 256 % 256 ∷ n % 256 ∷ []

pub from_be-to_be16 : (n : ℕ) → IsU16 n → from_be (to_be16 n) ≡ n
from_be-to_be16 n h = omega arith

pub from_be-to_be32 : (n : ℕ) → IsU32 n → from_be (to_be32 n) ≡ n
from_be-to_be32 n h = omega arith

pub to_be16-from_be : (bs : List ℕ) → length bs ≡ 2 → All IsByte bs → to_be16 (from_be bs) ≡ bs
to_be16-from_be [] h k = absurd (omega arith)
to_be16-from_be (a ∷ []) h k = absurd (omega arith)
to_be16-from_be (a ∷ b ∷ []) h k = ground arith
to_be16-from_be (a ∷ b ∷ c ∷ bs) h k = absurd (omega arith)

pub to_be32-from_be : (bs : List ℕ) → length bs ≡ 4 → All IsByte bs → to_be32 (from_be bs) ≡ bs
to_be32-from_be [] h k = absurd (omega arith)
to_be32-from_be (a ∷ []) h k = absurd (omega arith)
to_be32-from_be (a ∷ b ∷ []) h k = absurd (omega arith)
to_be32-from_be (a ∷ b ∷ c ∷ []) h k = absurd (omega arith)
to_be32-from_be (a ∷ b ∷ c ∷ d ∷ []) h k = ground arith
to_be32-from_be (a ∷ b ∷ c ∷ d ∷ e ∷ bs) h k = absurd (omega arith)

pub from_be-IsU16 : (bs : List ℕ) → length bs ≡ 2 → All IsByte bs → IsU16 (from_be bs)
from_be-IsU16 [] h k = absurd (omega arith)
from_be-IsU16 (a ∷ []) h k = absurd (omega arith)
from_be-IsU16 (a ∷ b ∷ []) h k = omega arith
from_be-IsU16 (a ∷ b ∷ c ∷ bs) h k = absurd (omega arith)

pub from_be-IsU32 : (bs : List ℕ) → length bs ≡ 4 → All IsByte bs → IsU32 (from_be bs)
from_be-IsU32 [] h k = absurd (omega arith)
from_be-IsU32 (a ∷ []) h k = absurd (omega arith)
from_be-IsU32 (a ∷ b ∷ []) h k = absurd (omega arith)
from_be-IsU32 (a ∷ b ∷ c ∷ []) h k = absurd (omega arith)
from_be-IsU32 (a ∷ b ∷ c ∷ d ∷ []) h k = omega arith
from_be-IsU32 (a ∷ b ∷ c ∷ d ∷ e ∷ bs) h k = absurd (omega arith)
