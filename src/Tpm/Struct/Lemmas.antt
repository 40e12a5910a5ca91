-- ===== src/Tpm/Struct/Lemmas.antt =====
-- Packing and unpacking undo each other.
use keylime.Prelude.{
  ℕ, zero, suc, ◌+◌, ◌*◌, ◌/◌, ◌%◌, ◌<◌, ◌≤◌, ◌≡◌, refl, ap, ◌∙◌, some, [], ◌∷◌, ◌++◌, Bytes,
  length, take, drop, length-append, arith,
}
use keylime.Tpm.Struct.{range, be_bytes, from_bytes, pack, unpack, bits, bit_length, byte_length}

pub take-append : (xs ys : Bytes) → take (length xs) (xs ++ ys) ≡ xs
take-append [] ys = refl
take-append (x ∷ xs) ys = ap (◌∷◌ x) (take-append xs ys)

pub drop-append : (xs ys : Bytes) → drop (length xs) (xs ++ ys) ≡ ys
drop-append [] ys = refl
drop-append (x ∷ xs) ys = drop-append xs ys

pub append_none : (xs : Bytes) → xs ++ [] ≡ xs
append_none [] = refl
append_none (x ∷ xs) = ap (◌∷◌ x) (append_none xs)

pub append_assoc : (xs ys zs : Bytes) → (xs ++ ys) ++ zs ≡ xs ++ (ys ++ zs)
append_assoc [] ys zs = refl
append_assoc (x ∷ xs) ys zs = ap (◌∷◌ x) (append_assoc xs ys zs)

from_bytes-append :
    (acc : ℕ) (xs : Bytes) (b : ℕ) → from_bytes acc (xs ++ b ∷ []) ≡ from_bytes acc xs * 256 + b
from_bytes-append acc [] b = refl
from_bytes-append acc (x ∷ xs) b = from_bytes-append (acc * 256 + x) xs b

pub length-be_bytes : (k n : ℕ) → length (be_bytes k n) ≡ k
length-be_bytes zero n = refl
length-be_bytes (suc k) n =
    omega (arith, length-be_bytes k (n / 256), length-append (be_bytes k (n / 256)) (n % 256 ∷ []))

pub from_bytes-be_bytes : (k n : ℕ) → n < range k → from_bytes 0 (be_bytes k n) ≡ n
from_bytes-be_bytes zero n h = omega arith
from_bytes-be_bytes (suc k) n h = omega (
  arith,
  from_bytes-append 0 (be_bytes k (n / 256)) (n % 256),
  from_bytes-be_bytes k (n / 256) (omega arith),
)

pub unpack-be_bytes : (k n : ℕ) → n < range k → unpack k (be_bytes k n) ≡ some n
unfolding unpack
unpack-be_bytes k n h = ground (arith, length-be_bytes k n, from_bytes-be_bytes k n h)

pub pack-be_bytes : (k n : ℕ) → n < range k → pack k n ≡ some (be_bytes k n)
unfolding pack
pack-be_bytes k n h = ground arith

-- 2 to the power k
abbrev power : ℕ → ℕ
power zero = 1
power (suc k) = 2 * power k

bits-power : (fuel n : ℕ) → n ≤ fuel → n < power (bits fuel n)
bits-power zero n h = omega arith
bits-power (suc fuel) n h = ground (arith, bits-power fuel (n / 2) (omega arith))

power_mono : (a b : ℕ) → a ≤ b → power a ≤ power b
power_mono zero zero h = omega arith
power_mono zero (suc b) h = omega (arith, power_mono zero b (omega arith))
power_mono (suc a) zero h = omega arith
power_mono (suc a) (suc b) h = omega (arith, power_mono a b (omega arith))

eight_more : (k : ℕ) → 8 * suc k ≡ suc (suc (suc (suc (suc (suc (suc (suc (8 * k))))))))
eight_more k = omega arith

power-range : (k : ℕ) → power (8 * k) ≡ range k
power-range zero = refl
power-range (suc k) = ap power (eight_more k) ∙ omega (arith, power-range k)

-- a number fits into the bytes that its length in bits asks for
pub fits_bytes : (n : ℕ) → n < range (byte_length n)
unfolding bit_length
fits_bytes n = omega (
  arith,
  bits-power n n (omega arith),
  power_mono (bits n n) (8 * ((bits n n + 7) / 8)) (omega arith),
  power-range ((bits n n + 7) / 8),
)
