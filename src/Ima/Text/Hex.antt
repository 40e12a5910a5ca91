-- ===== src/Ima/Text/Hex.antt =====
-- Round trips of the texts: hexadecimal digits, and the parts of a split.
use keylime.Prelude.{
  ℕ, suc, ◌/◌, ◌%◌, ◌<◌, ◌≡◌, ◌≢◌, refl, false, some, [], ◌∷◌, ◌++◌, ◌^◌, ◌∙◌, ap, arith, Bytes,
  All,
}
use keylime.Ima.Text.{
  split_max, onto_first, is_space, nibble, push_byte, from_hex, hex_digit, to_hex, le32,
}

nibble-hex_digit : (n : ℕ) → n < 16 → nibble (hex_digit n) ≡ some n
unfolding nibble
nibble-hex_digit n h = ground arith

hex_digit-not_space : (n : ℕ) → n < 16 → is_space (hex_digit n) ≡ false
unfolding is_space
hex_digit-not_space n h = ground arith

from_hex-step :
    (a b : ℕ) (s : Bytes)
    → is_space a ≡ false
    → from_hex (a ∷ b ∷ s) ≡ push_byte (nibble a) (nibble b) (from_hex s)
unfolding from_hex
from_hex-step a b s h = ground arith

-- Reading back what `hex` writes gives the bytes.
pub from_hex-to_hex : (s : Bytes) → All (λ c. c < 256) s → from_hex (to_hex s) ≡ some s
unfolding to_hex
from_hex-to_hex [] h = unfold from_hex in refl
from_hex-to_hex (c ∷ s) h =
    from_hex-step (hex_digit (c / 16)) (hex_digit (c % 16)) (to_hex s)
      (hex_digit-not_space (c / 16) (omega (arith, h.0)))
    ∙ rw
        (
          nibble-hex_digit (c / 16) (omega (arith, h.0)),
          nibble-hex_digit (c % 16) (omega arith),
          from_hex-to_hex s h.1,
        )
        (ap (λ (n : ℕ). some (n ∷ s)) (omega arith))

split_max-step :
    (sep n c : ℕ) (s : Bytes)
    → c ≢ sep
    → split_max sep (suc n) (c ∷ s) ≡ onto_first c (split_max sep (suc n) s)
unfolding split_max
split_max-step sep n c s h = ground arith

-- A part without separators ends at the first separator.
pub split_max-append :
    (sep n : ℕ) (s t : Bytes)
    → All (λ c. c ≢ sep) s
    → split_max sep (suc n) (s ++ sep ∷ t) ≡ s ∷ split_max sep n t
split_max-append sep n [] t h = unfold split_max in ground arith
split_max-append sep n (c ∷ s) t h =
    split_max-step sep n c (s ++ sep ∷ t) h.0 ∙ ap (onto_first c) (split_max-append sep n s t h.1)

-- The length that a little-endian word holds.
pub le32_injective : (m n : ℕ) → m < 2 ^ 32 → n < 2 ^ 32 → le32 m ≡ le32 n → m ≡ n
unfolding le32
le32_injective m n hm hn e = ground arith
