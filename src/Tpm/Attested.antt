-- ===== src/Tpm/Attested.antt =====
-- keylime/tpm/tpm2_objects.py: reading a TPMS_ATTEST of a quote. A result `none` is an exception.
pub mod Layout
use keylime.Prelude.{
  ℕ, zero, suc, ◌+◌, String, Bool, Option, none, some, List, [], ◌∷◌, ◌++◌, Bytes, take, drop,
  length, ltb, ◌==◌, if◌then◌else◌,
}
use keylime.Prelude.Dict.{put, nat_key}
use keylime.Tpm.Struct.{◌>>=◌, unpack, unpack_from}

-- struct.unpack_from of one field of k bytes at o
abbrev pub field_at : ℕ → Bytes → ℕ → Option ℕ
field_at k buffer o = unpack k (take k (drop o buffer))

pub record ClockInfo : Type 0 where
  pub clock : ℕ
  pub reset_count : ℕ
  pub restart_count : ℕ
  pub safe : ℕ

abbrev clock_fields : Bytes → Option ClockInfo
clock_fields clock_info = do
  clock ← field_at 8 clock_info 0
  reset_count ← field_at 4 clock_info 8
  restart_count ← field_at 4 clock_info 12
  safe ← field_at 1 clock_info 16
  some (record {
    clock = clock;
    reset_count = reset_count;
    restart_count = restart_count;
    safe = safe;
  })

-- struct.unpack(">QIIB", ...) of just 17 bytes
unfoldable pub unmarshal_tpms_clock_info : Bytes → Option ClockInfo
unmarshal_tpms_clock_info clock_info =
    if length clock_info == 17 then clock_fields clock_info else none

-- the algorithm, the selection, and the size of what was read
unfoldable pub unmarshal_tpms_pcr_selection : Bytes → Option (ℕ × Bytes × ℕ)
unmarshal_tpms_pcr_selection buffer = do
  hash_alg ← field_at 2 buffer 0
  size_of_select ← field_at 1 buffer 2
  select ← unpack_from size_of_select (drop 3 buffer)
  some (hash_alg, select, 3 + size_of_select)

-- the loop of unmarshal_tpml_pcr_selection, at offset o
unfoldable pub read_selections : ℕ → Bytes → List (ℕ × Bytes) → ℕ → Option (List (ℕ × Bytes) × ℕ)
read_selections zero buffer selections o = some (selections, o)
read_selections (suc count) buffer selections o = do
  (hash_alg, select, sz) ← unmarshal_tpms_pcr_selection (drop o buffer)
  read_selections count buffer (put selections hash_alg select) (o + sz)

unfoldable pub unmarshal_tpml_pcr_selection : Bytes → Option (List (ℕ × Bytes) × ℕ)
unmarshal_tpml_pcr_selection buffer = do
  count ← field_at 4 buffer 0
  read_selections count buffer [] 4

unfoldable pub unmarshal_tpms_quote_info : Bytes → Option Bytes
unmarshal_tpms_quote_info quote_info = do
  (_, o) ← unmarshal_tpml_pcr_selection quote_info
  sz ← field_at 2 quote_info o
  unpack_from sz (drop (o + 2) quote_info)

pub record TpmsAttest : Type 0 where
  pub clock_info : ClockInfo
  pub extra_data : Bytes
  pub pcr_digest : Bytes

abbrev pub generated_value : ℕ
generated_value = 0xFF544347

abbrev pub st_attest_quote : ℕ
st_attest_quote = 0x8018

-- the part after the magic and the type, which starts with two TPM2B at offset 6
unfoldable pub attest_body : Bytes → Option TpmsAttest
attest_body attest = do
  name_sz ← field_at 2 attest 6
  let o = 8 + name_sz
  sz ← field_at 2 attest o
  extra_data ← unpack_from sz (drop (o + 2) attest)
  let p = o + 2 + sz
  clock_info ← unmarshal_tpms_clock_info (take 17 (drop p attest))
  pcr_digest ← unmarshal_tpms_quote_info (drop (p + 17 + 8) attest)
  some (record { clock_info = clock_info; extra_data = extra_data; pcr_digest = pcr_digest })

unfoldable pub unmarshal_tpms_attest : Bytes → Option TpmsAttest
unmarshal_tpms_attest attest = do
  magic ← field_at 4 attest 0
  typ ← field_at 2 attest 4
  if magic == generated_value
      then if typ == st_attest_quote then attest_body attest else none
      else none

unfoldable pub get_tpms_attest_clock_info : Bytes → Option ClockInfo
get_tpms_attest_clock_info attest = do ret ← unmarshal_tpms_attest attest; some ret.clock_info
