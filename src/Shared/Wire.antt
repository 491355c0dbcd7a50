-- ===== src/Shared/Wire.antt =====
-- Bytes of the wire: 32-bit and 16-bit numbers in network order, as `htonl`, `htons`, `ntohl` and
-- `ntohs` lay them out, and their reads at the front of a buffer. A read past the end is `none`.
use Prim.Native.Nat.{ℕ, ◌+◌, ◌*◌, ◌/◌, ◌%◌, ◌^◌, ◌<◌}
use mathlib.Core.Path.{◌≡◌, refl, ap}
use mathlib.Core.Option.{Option, none, some}
use mathlib.Core.List.{List, [], ◌∷◌, ◌++◌}
use native.Mathlib.Omega.{arith}
use moc.Shared.Lists.{length}

abbrev pub Bytes : Type 0
Bytes = List ℕ

-- A byte as the C program holds it.
abbrev pub IsBytes : Bytes → Type 0
IsBytes [] = Unit {0}
IsBytes (b ∷ bs) = (b < 256) × IsBytes bs

unfoldable pub be32 : ℕ → Bytes
be32 n = (n / 16777216 % 256) ∷ (n / 65536 % 256) ∷ (n / 256 % 256) ∷ (n % 256) ∷ []

unfoldable pub be16 : ℕ → Bytes
be16 n = (n / 256 % 256) ∷ (n % 256) ∷ []

unfoldable pub read32 : Bytes → Option ℕ
read32 (a ∷ b ∷ c ∷ d ∷ rest) = some (a * 16777216 + b * 65536 + c * 256 + d)
read32 _ = none

unfoldable pub read16 : Bytes → Option ℕ
read16 (a ∷ b ∷ rest) = some (a * 256 + b)
read16 _ = none

pub read32-be32 : (n : ℕ) (rest : Bytes) → n < 2 ^ 32 → read32 (be32 n ++ rest) ≡ some n
unfolding read32 be32
read32-be32 n rest h = ap some (omega arith)

pub read16-be16 : (n : ℕ) (rest : Bytes) → n < 2 ^ 16 → read16 (be16 n ++ rest) ≡ some n
unfolding read16 be16
read16-be16 n rest h = ap some (omega arith)

pub length-be32 : (n : ℕ) → length (be32 n) ≡ 4
unfolding be32
length-be32 n = refl

pub length-be16 : (n : ℕ) → length (be16 n) ≡ 2
unfolding be16
length-be16 n = refl
