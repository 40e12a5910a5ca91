-- ===== src/Tpm/Objects.antt =====
-- keylime/tpm/tpm2_objects.py: TPM2B_PUBLIC, the public area of a TPM object, from a key and back. A
-- result `none` is an exception. The keys of the cryptography package are the record `Keys`.
pub mod RoundTrip
pub mod Returned
pub mod Views
use keylime.Prelude.{
  ℕ, zero, suc, ◌+◌, ◌*◌, ◌≡◌, String, Bool, true, false, ◌&&◌, Option, none, some, List, [], ◌∷◌,
  ◌++◌, Bytes, length, take, drop, ◌==◌, str_eq, if◌then◌else◌, nonempty,
}
use keylime.Tpm.Struct.{◌>>=◌, be_bytes, from_bytes, pack, unpack, byte_length}

abbrev pub alg_null : ℕ
alg_null = 0x0010

abbrev pub alg_rsa : ℕ
alg_rsa = 0x0001

abbrev pub alg_ecc : ℕ
alg_ecc = 0x0023

pub data Curve : Type 0 where
  secp192r1 secp224r1 secp256r1 secp384r1 secp521r1 : Curve

-- _curve_id_from_name of the name of a curve that a TPM knows
abbrev pub curve_id_from_name : Curve → ℕ
curve_id_from_name secp192r1 = 1
curve_id_from_name secp224r1 = 2
curve_id_from_name secp256r1 = 3
curve_id_from_name secp384r1 = 4
curve_id_from_name secp521r1 = 5

unfoldable pub curve_from_curve_id : ℕ → Option Curve
curve_from_curve_id cid =
    if cid == 1
    then some secp192r1
    else if cid == 2
    then some secp224r1
    else if cid == 3
    then some secp256r1
    else if cid == 4
    then some secp384r1
    else if cid == 5
    then some secp521r1
    else none

-- curve.key_size, of the cryptography package
abbrev pub key_size_of : Curve → ℕ
key_size_of secp192r1 = 192
key_size_of secp224r1 = 224
key_size_of secp256r1 = 256
key_size_of secp384r1 = 384
key_size_of secp521r1 = 521

-- The public numbers of a key, of curves that a TPM knows.
pub data Numbers : Type 0 where
  rsa_numbers : ℕ → ℕ → Numbers
  ec_numbers : Curve → ℕ → ℕ → Numbers

-- The keys: their public numbers, the size in bits of an RSA key, and the key of given numbers, if
-- they are a key's. `pubkey.public_numbers()` gives the numbers back.
pub record Keys : Type 1 where
  pub Key : Type 0
  pub public_numbers : Key → Numbers
  pub key_size : Key → ℕ
  pub public_key : Numbers → Option Key
  pub public_key_numbers : (k : Key) → public_key (public_numbers k) ≡ some k

-- _pack_in_tpm2b
unfoldable pub pack_in_tpm2b : Bytes → Option Bytes
pack_in_tpm2b val = pack 2 (length val) >>= (λ size. some (size ++ val))

-- _extract_tpm2b: a buffer that is too short is cut
unfoldable pub extract_tpm2b : Bytes → Option (Bytes × Bytes)
extract_tpm2b vals =
    unpack 2 (take 2 vals) >>= (λ n. some (take n (drop 2 vals), drop n (drop 2 vals)))

pub record NonAsymAlgSpecificParameters : Type 0 where
  pub sym_algorithm : ℕ
  pub sym_keybits : ℕ
  pub sym_mode : ℕ
  pub scheme_scheme : ℕ

-- NonAsymAlgSpecificParameters.to_bytes
unfoldable pub to_bytes : NonAsymAlgSpecificParameters → Option Bytes
to_bytes p = do
  sym_algorithm ← pack 2 p.sym_algorithm
  sym_keybits ← pack 2 p.sym_keybits
  sym_mode ← pack 2 p.sym_mode
  scheme ← pack 2 p.scheme_scheme
  some (sym_algorithm ++ sym_keybits ++ sym_mode ++ scheme)

-- n.to_bytes((n.bit_length() + 7) // 8, "big")
abbrev pub minimal_bytes : ℕ → Bytes
minimal_bytes n = be_bytes (byte_length n) n

abbrev pub packed_exponent : ℕ → ℕ
packed_exponent e = if e == 65537 then 0 else e

abbrev pub exponent_of : ℕ → ℕ
exponent_of e = if e == 0 then 65537 else e

-- the algorithm, algo_parms and unique of a key
unfoldable pub key_parts : Numbers → ℕ → Option (ℕ × Bytes × Bytes)
key_parts (rsa_numbers e n) key_size = do
  keybits ← pack 2 key_size
  exponent ← pack 4 (packed_exponent e)
  unique ← pack_in_tpm2b (minimal_bytes n)
  some (alg_rsa, keybits ++ exponent, unique)
key_parts (ec_numbers curve x y) key_size = do
  curve_id ← pack 2 (curve_id_from_name curve)
  kdf ← pack 2 alg_null
  unique_x ← pack_in_tpm2b (minimal_bytes x)
  unique_y ← pack_in_tpm2b (minimal_bytes y)
  some (alg_ecc, curve_id ++ kdf, unique_x ++ unique_y)

-- the bytes of the non-asymmetric parameters that are skipped
abbrev pub to_skip : ℕ → ℕ → ℕ
to_skip sym_alg scheme_alg =
    4 + (if sym_alg == alg_null then 0 else 2) + (if scheme_alg == alg_null then 0 else 2)

module _ (keys : Keys) where
  open keys use {Key, public_numbers, key_size, public_key}

  unfoldable pub tpm2b_public_from_pubkey :
      Key → ℕ → ℕ → Bytes → NonAsymAlgSpecificParameters → Option Bytes
  tpm2b_public_from_pubkey pubkey name_alg attributes auth_policy parms = do
    (alg_type, algo_parms, unique) ← key_parts (public_numbers pubkey) (key_size pubkey)
    policy ← pack_in_tpm2b auth_policy
    parameters ← to_bytes parms
    packed_type ← pack 2 alg_type
    packed_name ← pack 2 name_alg
    packed_attributes ← pack 4 attributes
    pack_in_tpm2b (
        packed_type
        ++ (packed_name
            ++ (packed_attributes ++ (policy ++ (parameters ++ (algo_parms ++ unique))))))

  -- the key of an RSA object
  unfoldable pub rsa_key : Bytes → Option Key
  rsa_key asym_parms = do
    keybits ← unpack 2 (take 2 asym_parms)
    exponent ← unpack 4 (take 4 (drop 2 asym_parms))
    (modulus, _) ← extract_tpm2b (drop 6 asym_parms)
    if length modulus * 8 == keybits
        then public_key (rsa_numbers (exponent_of exponent) (from_bytes 0 modulus))
        else none

  -- the key of an ECC object
  unfoldable pub ecc_key : Bytes → Option Key
  ecc_key asym_parms = do
    curve_id ← unpack 2 (take 2 asym_parms)
    _ ← unpack 2 (take 2 (drop 2 asym_parms))
    curve ← curve_from_curve_id curve_id
    (x, asym_y) ← extract_tpm2b (drop 4 asym_parms)
    (y, rest) ← extract_tpm2b asym_y
    if nonempty rest
        then none
        else if length x * 8 == key_size_of curve && length y * 8 == key_size_of curve
        then public_key (ec_numbers curve (from_bytes 0 x) (from_bytes 0 y))
        else none

  abbrev pub key_of_type : ℕ → Bytes → Option Key
  key_of_type alg_type asym_parms =
      if alg_type == alg_rsa
      then rsa_key asym_parms
      else if alg_type == alg_ecc
      then ecc_key asym_parms
      else none

  abbrev pub with_name : ℕ → Option Key → Option (Key × ℕ)
  with_name name_alg none = none
  with_name name_alg (some key) = some (key, name_alg)

  unfoldable pub pubkey_parms_from_tpm2b_public : Bytes → Option (Key × ℕ)
  pubkey_parms_from_tpm2b_public given = do
    (public, rest) ← extract_tpm2b given
    if nonempty rest then none else do
      alg_type ← unpack 2 (take 2 public)
      name_alg ← unpack 2 (take 2 (drop 2 public))
      _ ← unpack 4 (take 4 (drop 4 public))
      (_, sym_parms) ← extract_tpm2b (drop 8 public)
      sym_alg ← unpack 2 (take 2 sym_parms)
      scheme_alg ← unpack 2 (take 2 (drop 2 sym_parms))
      with_name name_alg (key_of_type alg_type (drop (to_skip sym_alg scheme_alg) sym_parms))

  unfoldable pub pubkey_from_tpm2b_public : Bytes → Option Key
  pubkey_from_tpm2b_public public = do
    (pubkey, _) ← pubkey_parms_from_tpm2b_public public
    some pubkey
