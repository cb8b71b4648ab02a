-- ===== src/Prelude/Bytes.antt =====
-- Bytes and big-endian numbers: `binary.BigEndian.Uint16`, `PutUint16` and `PutUint32`.
use Prim.Native.Nat.{ℕ, zero, suc, ◌+◌, ◌*◌, ◌/◌, ◌%◌, ◌<◌}
use mathlib.Core.List.{List, [], ◌∷◌}
use native.Mathlib.Omega.{arith}
use apexaegis_management_pla.Prelude.Lists.{All, get_or}

abbrev pub IsByte : ℕ → Type 0
IsByte b = b < 256

-- binary.BigEndian.PutUint16 of a number that was cut to 16 bits.
abbrev pub be16 : ℕ → List ℕ
be16 n = (n / 256 % 256) ∷ (n % 256) ∷ []

abbrev pub u16 : ℕ → ℕ → ℕ
u16 hi lo = hi * 256 + lo

-- binary.BigEndian.PutUint32 of a number that was cut to 32 bits.
abbrev pub be32 : ℕ → List ℕ
be32 n = (n / 16777216 % 256) ∷ (n / 65536 % 256) ∷ (n / 256 % 256) ∷ (n % 256) ∷ []

pub get_or-IsByte : (b : List ℕ) (i : ℕ) → All IsByte b → IsByte (get_or b i 0)
get_or-IsByte [] i h = omega arith
get_or-IsByte (x ∷ b) zero h = h.0
get_or-IsByte (x ∷ b) (suc i) h = get_or-IsByte b i h.1
