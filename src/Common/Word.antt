-- ===== src/Common/Word.antt =====
-- Big- and little-endian words (`to_be_bytes`, `from_be_bytes`, and their `le` forms) and lists of
-- bytes. A byte is a number, `IsByte` its range.
use Prim.Native.Nat.{ℕ, ◌+◌, ◌*◌, ◌/◌, ◌%◌, ◌<◌, ◌^◌}
use mathlib.Core.Path.{◌≡◌}
use mathlib.Core.List.{List, ◌++◌, [], ◌∷◌}
use native.Mathlib.Omega.{arith}

abbrev pub Bytes : Type 0
Bytes = List ℕ

abbrev pub IsByte : ℕ → Type 0
IsByte b = b < 256

abbrev pub be16 : ℕ → Bytes
be16 v = (v / 256 % 256) ∷ (v % 256) ∷ []

abbrev pub be32 : ℕ → Bytes
be32 v = (v / 2 ^ 24 % 256) ∷ (v / 2 ^ 16 % 256) ∷ (v / 256 % 256) ∷ (v % 256) ∷ []

abbrev pub le32 : ℕ → Bytes
le32 v = (v % 256) ∷ (v / 256 % 256) ∷ (v / 2 ^ 16 % 256) ∷ (v / 2 ^ 24 % 256) ∷ []

abbrev pub from_be16 : ℕ → ℕ → ℕ
from_be16 a b = a * 256 + b

abbrev pub from_be32 : ℕ → ℕ → ℕ → ℕ → ℕ
from_be32 a b c d = a * 2 ^ 24 + b * 2 ^ 16 + c * 256 + d

abbrev pub from_le32 : ℕ → ℕ → ℕ → ℕ → ℕ
from_le32 a b c d = from_be32 d c b a

pub from_be16-be16 : (v : ℕ) → v < 2 ^ 16 → from_be16 (v / 256 % 256) (v % 256) ≡ v
from_be16-be16 v h = omega arith

pub from_be32-be32 :
    (v : ℕ)
    → v < 2 ^ 32
    → from_be32 (v / 2 ^ 24 % 256) (v / 2 ^ 16 % 256) (v / 256 % 256) (v % 256) ≡ v
from_be32-be32 v h = omega arith

abbrev pub from_be64 : ℕ → ℕ → ℕ
from_be64 high low = high * 2 ^ 32 + low

abbrev pub be64 : ℕ → Bytes
be64 v = be32 (v / 2 ^ 32) ++ be32 (v % 2 ^ 32)
