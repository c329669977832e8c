-- ===== src/Tpm/Mmio.antt =====
-- tpmlib/tpmio.c and the timeouts of tpmlib/tpm_common.h. The registers of the TPM are a parameter:
-- a state C, and what one access of a byte or a word does and one write to port 0x80.
use secure_kernel_loader.Base.{ℕ, zero, suc, List, [], ◌∷◌, ◌++◌, bit_or}
use secure_kernel_loader.Tpm.Buff.{tpm_mmio_base}

pub record Registers (C : Type 0) : Type 0 where
  pub ioread8 : C → ℕ → C × ℕ
  pub iowrite8 : C → ℕ → ℕ → C
  pub ioread32 : C → ℕ → C × ℕ
  pub iowrite32 : C → ℕ → ℕ → C
  pub io_delay : C → C

-- The registers, and the static variable `locality` of tis.c or crb.c.
pub record Port (C : Type 0) : Type 0 where
  pub locality : ℕ
  pub chip : C

module _ {C : Type 0} (io : Registers C) where
  unfoldable pub tpm_udelay : ℕ → C → C
  tpm_udelay zero c = c
  tpm_udelay (suc loops) c = tpm_udelay loops (io.io_delay c)

  unfoldable pub tpm_mdelay : ℕ → C → C
  unfolding tpm_udelay
  tpm_mdelay zero c = c
  tpm_mdelay (suc ms) c = tpm_mdelay ms (tpm_udelay 1000 c)

  abbrev pub tpm_read8 : C → ℕ → C × ℕ
  tpm_read8 c field = io.ioread8 c (bit_or tpm_mmio_base field)

  abbrev pub tpm_write8 : C → ℕ → ℕ → C
  tpm_write8 c val field = io.iowrite8 c val (bit_or tpm_mmio_base field)

  abbrev pub tpm_read32 : C → ℕ → C × ℕ
  tpm_read32 c field = io.ioread32 c (bit_or tpm_mmio_base field)

  abbrev pub tpm_write32 : C → ℕ → ℕ → C
  tpm_write32 c val field = io.iowrite32 c val (bit_or tpm_mmio_base field)

  -- TPM_TIMEOUT_A and B, C and D of TPM 1.2 and 2.0.
  abbrev pub timeout_a : C → C
  timeout_a c = tpm_mdelay 750 c

  abbrev pub timeout_b : C → C
  timeout_b c = tpm_mdelay 2000 c

  abbrev pub tpm1_timeout_d : C → C
  tpm1_timeout_d c = tpm_mdelay 750 c

  abbrev pub tpm2_timeout_c : C → C
  tpm2_timeout_c c = tpm_mdelay 200 c

  abbrev pub tpm2_timeout_d : C → C
  tpm2_timeout_d c = tpm_mdelay 30 c

-- The writes with their addresses, in order.
abbrev pub Log : Type 0
Log = List (ℕ × ℕ)

-- The same registers, with a log of the writes.
abbrev pub logged : {C : Type 0} → Registers C → Registers (Log × C)
logged io = record {
  ioread8 = λ s a. let (c, v) = io.ioread8 s.1 a in ((s.0, c), v);
  iowrite8 = λ s v a. (s.0 ++ ((a, v) ∷ []), io.iowrite8 s.1 v a);
  ioread32 = λ s a. let (c, v) = io.ioread32 s.1 a in ((s.0, c), v);
  iowrite32 = λ s v a. (s.0 ++ ((a, v) ∷ []), io.iowrite32 s.1 v a);
  io_delay = λ s. (s.0, io.io_delay s.1);
}

-- A write to a register.
abbrev pub entry : ℕ → ℕ → ℕ × ℕ
entry field v = (bit_or tpm_mmio_base field, v)
