-- ===== src/Tpm/Types.antt =====
-- tpmlib/tpm.h, tpm_common.h and tpm2_constants.h: the enumerations and constants of the driver.
use secure_kernel_loader.Base.{ℕ}

pub data Family : Type 0 where
  tpm12 tpm20 : Family

pub data Interface : Type 0 where
  tpm_tis tpm_crb : Interface

abbrev pub tpm_alg_sha1 : ℕ
tpm_alg_sha1 = 0x0004

abbrev pub tpm_alg_sha256 : ℕ
tpm_alg_sha256 = 0x000B

abbrev pub tpm_alg_sha384 : ℕ
tpm_alg_sha384 = 0x000C

abbrev pub tpm_alg_sha512 : ℕ
tpm_alg_sha512 = 0x000D

abbrev pub tpm_alg_sm3_256 : ℕ
tpm_alg_sm3_256 = 0x0012

abbrev pub tpm_cc_pcr_extend : ℕ
tpm_cc_pcr_extend = 0x00000182

abbrev pub tpm_st_sessions : ℕ
tpm_st_sessions = 0x8002

abbrev pub tpm_rs_pw : ℕ
tpm_rs_pw = 0x40000009

abbrev pub tpm_max_locality : ℕ
tpm_max_locality = 4

abbrev pub tpm_no_locality : ℕ
tpm_no_locality = 0xFF
