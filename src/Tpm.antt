-- ===== src/Tpm.antt =====
-- keylime/tpm/tpm_main.py: what the verifier makes of a quote. The cryptographic check of the quote
-- itself, in keylime/tpm/tpm_util.py, is a parameter.
pub mod Struct
pub mod Timing
pub mod Pcrs
pub mod Quote
pub mod Objects
pub mod Attested
