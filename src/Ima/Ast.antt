-- ===== src/Ima/Ast.antt =====
-- keylime/ima/ast.py: the ASCII entries of an IMA measurement list, their binary form, which is
-- what the template hash is taken over, and the checks of an entry on its own.
pub mod Entry
use keylime.Prelude.{
  ℕ, zero, suc, ◌+◌, ◌-◌, ◌≤◌, Bool, true, false, not, ◌&&◌, ◌||◌, Option, none, some, List, [],
  ◌∷◌, ◌++◌, Bytes, leb, ltb, take, ◌==◌, if◌then◌else◌, length, replicate, codes, bytes_eq,
}
use keylime.Ima.Keyrings.{hdrlen, unpack_header, SignatureHeader}
use keylime.Ima.Text.{split_max, split_all, from_hex, le32}

-- ParserError, and the struct.error of a fixed-length field that is too long
pub data Problem : Type 0 where
  parser_error struct_error : Problem

pub data Parsed {ℓ} (A : Type ℓ) : Type ℓ where
  ok : A → Parsed A
  err : Problem → Parsed A

infixl 5 ◌>>=◌ ◌>>◌
abbrev pub ◌>>=◌ {ℓ κ} : {A : Type ℓ} {B : Type κ} → Parsed A → (A → Parsed B) → Parsed B
ok a >>= f = f a
err e >>= f = err e

abbrev pub ◌>>◌ {ℓ κ} : {A : Type ℓ} {B : Type κ} → Parsed A → Parsed B → Parsed B
m >> k = m >>= λ _. k

-- HexData.__init__
unfoldable pub hex_data : Bytes → Parsed Bytes
hex_data text = elim (from_hex text) [ none ↦ err parser_error | some d ↦ ok d ]

-- HexData.struct
unfoldable pub hex_struct : Bytes → Bytes
hex_struct d = le32 (length d) ++ d

abbrev has_size : Bytes → Option SignatureHeader → Bool
has_size d none = false
has_size d (some h) = hdrlen + h.sig_size == length d

-- Signature.__init__
unfoldable pub new_signature : Bytes → Parsed Bytes
unfolding hex_data unpack_header
new_signature text = do
  d ← hex_data text
  if has_size d (unpack_header d) then ok d else err parser_error

pub record Name : Type 0 where
  pub name : Bytes
  pub legacy : Bool

-- TCG_EVENT_NAME_LEN_MAX, SHA_DIGEST_LEN and MD5_DIGEST_LEN
abbrev pub tcg_event_name_len_max : ℕ
tcg_event_name_len_max = 255

abbrev pub sha_digest_len : ℕ
sha_digest_len = 20

abbrev pub md5_digest_len : ℕ
md5_digest_len = 16

-- Name.struct; a legacy name is padded with zeros, and one that is too long is a struct.error
unfoldable pub name_struct : Name → Parsed Bytes
name_struct n =
    if n.legacy
    then (if leb (length n.name) tcg_event_name_len_max
        then ok (n.name ++ 0 ∷ replicate (tcg_event_name_len_max - length n.name) 0)
        else err struct_error)
    else ok (le32 (length n.name + 1) ++ n.name ++ 0 ∷ [])

pub record Digest : Type 0 where
  pub hash : Bytes
  pub algorithm : Bytes
  pub legacy : Bool

-- the one token of a digest without algorithm
abbrev plain_digest : Bool → Bytes → Parsed Digest
plain_digest legacy h =
    if length h == sha_digest_len
    then ok (record { hash = h; algorithm = codes "sha1"; legacy = legacy })
    else if length h == md5_digest_len
    then ok (record { hash = h; algorithm = codes "md5"; legacy = legacy })
    else err parser_error

abbrev digest_of_tokens : Bool → List Bytes → Parsed Digest
digest_of_tokens legacy (h ∷ []) = do d ← hex_data h; plain_digest legacy d
digest_of_tokens legacy (algorithm ∷ h ∷ []) = do
  d ← hex_data h
  ok (record { hash = d; algorithm = algorithm; legacy = legacy })
digest_of_tokens legacy _ = err parser_error

-- Digest.__init__
unfoldable pub new_digest : Bytes → Bool → Parsed Digest
unfolding hex_data
new_digest digest legacy = digest_of_tokens legacy (split_all b':' digest)

-- len of a text in UTF-8
abbrev is_lead : ℕ → Bool
is_lead b = ltb b 128 || leb 192 b

abbrev text_length : Bytes → ℕ
text_length [] = 0
text_length (b ∷ s) = let rest = text_length s in if is_lead b then suc rest else rest

-- Digest.struct; the algorithm is always set. It is packed into as many bytes as it has characters.
unfoldable pub digest_struct : Digest → Bytes
digest_struct d =
    if d.legacy
    then d.hash
    else (let n = text_length d.algorithm in
        le32 (n + 2 + length d.hash) ++ take n d.algorithm ++ b':' ∷ 0 ∷ d.hash)

pub data Mode : Type 0 where
  ima ima_ng : Digest → Name → Mode
  ima_sig : Digest → Name → Option Bytes → Mode
  ima_buf : Digest → Name → Bytes → Mode

-- create_signature: what is no valid signature counts as none
unfoldable pub create_signature : Bytes → Option Bytes
unfolding new_signature
create_signature hexstring = elim (new_signature hexstring) [ ok d ↦ some d | err e ↦ none ]

-- Ima.__init__, ImaNg.__init__, ImaSig.__init__ and ImaBuf.__init__, given the tokens
unfoldable pub new_ima : List Bytes → Parsed Mode
unfolding new_digest
new_ima (digest ∷ path ∷ []) = do
  d ← new_digest digest true
  ok (ima d (record { name = path; legacy = true }))
new_ima _ = err parser_error

unfoldable pub new_ima_ng : List Bytes → Parsed Mode
unfolding new_digest
new_ima_ng (digest ∷ path ∷ []) = do
  d ← new_digest digest false
  ok (ima_ng d (record { name = path; legacy = false }))
new_ima_ng _ = err parser_error

unfoldable pub new_ima_sig : List Bytes → Parsed Mode
unfolding new_digest create_signature
new_ima_sig (digest ∷ path ∷ signature ∷ []) = do
  d ← new_digest digest false
  ok (ima_sig d (record { name = path; legacy = false }) (create_signature signature))
new_ima_sig _ = err parser_error

unfoldable pub new_ima_buf : List Bytes → Parsed Mode
unfolding new_digest hex_data
new_ima_buf (digest ∷ name ∷ buffer ∷ []) = do
  d ← new_digest digest false
  b ← hex_data buffer
  ok (ima_buf d (record { name = name; legacy = false }) b)
new_ima_buf _ = err parser_error

-- the modes' `bytes`
unfoldable pub mode_bytes : Mode → Parsed Bytes
unfolding name_struct digest_struct hex_struct
mode_bytes (ima d n) = do s ← name_struct n; ok (digest_struct d ++ s)
mode_bytes (ima_ng d n) = do s ← name_struct n; ok (digest_struct d ++ s)
mode_bytes (ima_sig d n none) = do s ← name_struct n; ok (digest_struct d ++ s ++ le32 0)
mode_bytes (ima_sig d n (some sig)) = do
  s ← name_struct n
  ok (digest_struct d ++ s ++ hex_struct sig)
mode_bytes (ima_buf d n b) = do s ← name_struct n; ok (digest_struct d ++ s ++ hex_struct b)

-- _mode_lookup, and the constructor of the mode applied to the rest of the line
unfoldable pub parse_mode : Bytes → Bytes → Parsed Mode
unfolding new_ima new_ima_ng new_ima_sig new_ima_buf
parse_mode mode rest =
    if bytes_eq mode (codes "ima")
    then new_ima (split_max b' ' 1 rest)
    else if bytes_eq mode (codes "ima-ng")
    then new_ima_ng (split_max b' ' 1 rest)
    else if bytes_eq mode (codes "ima-sig")
    then new_ima_sig (split_max b' ' 2 rest)
    else if bytes_eq mode (codes "ima-buf")
    then new_ima_buf (split_max b' ' 2 rest)
    else err parser_error
