-- ===== src/Tpm/Struct.antt =====
-- Python's `struct` and big-endian integers, as keylime/tpm/tpm2_objects.py uses them: `none` is an
-- exception (struct.error, or OverflowError).
pub mod Lemmas
use keylime.Prelude.{
  ℕ, zero, suc, ◌+◌, ◌*◌, ◌/◌, ◌%◌, Bool, Option, none, some, List, [], ◌∷◌, ◌++◌, Bytes, length,
  take, drop, ltb, ◌==◌, if◌then◌else◌,
}

infixl 5 ◌>>=◌
abbrev pub ◌>>=◌ {ℓ κ} : {A : Type ℓ} {B : Type κ} → Option A → (A → Option B) → Option B
none >>= f = none
some a >>= f = f a

-- 256 to the power k
abbrev pub range : ℕ → ℕ
range zero = 1
range (suc k) = 256 * range k

-- n.to_bytes(k, "big"), for an n in range
abbrev pub be_bytes : ℕ → ℕ → Bytes
be_bytes zero n = []
be_bytes (suc k) n = be_bytes k (n / 256) ++ (n % 256 ∷ [])

-- int.from_bytes(l, "big"), after the bytes that make `acc`
abbrev pub from_bytes : ℕ → Bytes → ℕ
from_bytes acc [] = acc
from_bytes acc (b ∷ l) = from_bytes (acc * 256 + b) l

-- struct.pack of one unsigned field of k bytes
unfoldable pub pack : ℕ → ℕ → Option Bytes
pack k n = if ltb n (range k) then some (be_bytes k n) else none

-- struct.unpack of one unsigned field of k bytes: the buffer has just that length
unfoldable pub unpack : ℕ → Bytes → Option ℕ
unpack k l = if length l == k then some (from_bytes 0 l) else none

-- struct.unpack_from(f"{k}s", l, o)
unfoldable pub unpack_from : ℕ → Bytes → Option Bytes
unpack_from k l = if ltb (length l) k then none else some (take k l)

-- n.bit_length(), on fuel, of which n is enough
abbrev pub bits : ℕ → ℕ → ℕ
bits zero n = 0
bits (suc fuel) n = let rest = bits fuel (n / 2) in if n == 0 then 0 else suc rest

unfoldable pub bit_length : ℕ → ℕ
bit_length n = bits n n

-- (n.bit_length() + 7) // 8
abbrev pub byte_length : ℕ → ℕ
byte_length n = (bit_length n + 7) / 8
