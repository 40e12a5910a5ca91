-- ===== src/Ima/Text.antt =====
-- What keylime/ima/ast.py takes from Python for its texts: `split`, `bytes.fromhex`, `hex` and the
-- little-endian `<I` of `struct`. A text is the list of its bytes in UTF-8; all separators are ASCII.
pub mod Hex
use keylime.Prelude.{
  ℕ, zero, suc, ◌+◌, ◌-◌, ◌*◌, ◌/◌, ◌%◌, Bool, true, false, ◌&&◌, ◌||◌, Option, none, some, List,
  [], ◌∷◌, Bytes, leb, ◌==◌, if◌then◌else◌,
}

-- puts a byte in front of the first part
abbrev onto_first : ℕ → List Bytes → List Bytes
onto_first c [] = (c ∷ []) ∷ []
onto_first c (s ∷ l) = (c ∷ s) ∷ l

-- text.split(sep, maxsplit=n)
unfoldable pub split_max : ℕ → ℕ → Bytes → List Bytes
split_max sep zero s = s ∷ []
split_max sep (suc n) [] = [] ∷ []
split_max sep (suc n) (c ∷ s) = elim (c == sep) [
  | true ↦ [] ∷ split_max sep n s
  | false ↦ onto_first c (split_max sep (suc n) s)
]

abbrev new_part : Bool → ℕ → List Bytes → List Bytes
new_part true c l = [] ∷ l
new_part false c l = onto_first c l

-- text.split(sep)
unfoldable pub split_all : ℕ → Bytes → List Bytes
split_all sep [] = [] ∷ []
split_all sep (c ∷ s) = new_part (c == sep) c (split_all sep s)

abbrev within : ℕ → ℕ → ℕ → Bool
within lo hi c = leb lo c && leb c hi

unfoldable pub is_space : ℕ → Bool
is_space c = within 9 13 c || c == 32

-- the value of a hexadecimal digit
unfoldable pub nibble : ℕ → Option ℕ
nibble c =
    if within b'0' b'9' c
    then some (c - b'0')
    else if within b'a' b'f' c
    then some (c - b'a' + 10)
    else if within b'A' b'F' c
    then some (c - b'A' + 10)
    else none

abbrev push_byte : Option ℕ → Option ℕ → Option Bytes → Option Bytes
push_byte (some hi) (some lo) (some rest) = some ((hi * 16 + lo) ∷ rest)
push_byte _ _ _ = none

-- bytes.fromhex: blanks may stand between bytes; `none` for ValueError
unfoldable pub from_hex : Bytes → Option Bytes
unfolding nibble is_space
from_hex [] = some []
from_hex (a ∷ []) = if is_space a then some [] else none
from_hex (a ∷ b ∷ s) = elim (is_space a) [
  | true ↦ from_hex (b ∷ s)
  | false ↦ push_byte (nibble a) (nibble b) (from_hex s)
]

abbrev pub hex_digit : ℕ → ℕ
hex_digit n = if leb n 9 then b'0' + n else b'a' + (n - 10)

-- bytes.hex
unfoldable pub to_hex : Bytes → Bytes
to_hex [] = []
to_hex (c ∷ s) = hex_digit (c / 16) ∷ hex_digit (c % 16) ∷ to_hex s

-- struct.pack("<I", n), for n below 2 ^ 32
unfoldable pub le32 : ℕ → Bytes
le32 n = (n % 256) ∷ (n / 256 % 256) ∷ (n / 65536 % 256) ∷ (n / 16777216 % 256) ∷ []
