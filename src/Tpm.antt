-- ===== src/Tpm.antt =====
-- tpmlib: the TPM driver library.
pub mod Types
pub mod Buff
pub mod Device
pub mod Tpm2
pub mod Tpm1
pub mod Front
pub mod Mmio
pub mod Tis
pub mod Crb
pub mod Keeps
pub mod Enable
