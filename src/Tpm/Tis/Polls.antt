-- ===== src/Tpm/Tis/Polls.antt =====
-- What the loops of tis.c that poll a register keep: whatever a read and a delay keep.
use mathlib.Core.Path.{subst}
use secure_kernel_loader.Base.{ℕ, zero, suc, ◌+◌, ◌≡◌, if_eq, some, inl, inr, ◌==◌, ◌<<<◌}
use secure_kernel_loader.Tpm.Mmio.{Registers, tpm_read8, tpm_udelay, tpm_mdelay}
use secure_kernel_loader.Tpm.Tis.{burst_wait, wait_valid, has_bit, sts}

module _ {C : Type 0} (io : Registers C) (P : C → Type 0)
    (read_kept : (c : C) (a : ℕ) → P c → P (io.ioread8 c a).0)
    (delay_kept : (c : C) → P c → P (io.io_delay c)) where
  pub tpm_udelay_kept : (n : ℕ) (c : C) → P c → P (tpm_udelay io n c)
  unfolding tpm_udelay
  tpm_udelay_kept zero c p = p
  tpm_udelay_kept (suc n) c p = tpm_udelay_kept n (io.io_delay c) (delay_kept c p)

  pub tpm_mdelay_kept : (n : ℕ) (c : C) → P c → P (tpm_mdelay io n c)
  unfolding tpm_mdelay
  tpm_mdelay_kept zero c p = p
  tpm_mdelay_kept (suc n) c p = tpm_mdelay_kept n (tpm_udelay io 1000 c) (tpm_udelay_kept 1000 c p)

  pub burst_wait_kept :
      (fuel : ℕ) (c c' : C) (l n : ℕ) → P c → burst_wait io fuel c l ≡ some (c', n) → P c'
  unfolding burst_wait
  burst_wait_kept zero c c' l n p e = absurd cc
  burst_wait_kept (suc fuel) c c' l n p e =
      let (c1, low) = tpm_read8 io c (sts l + 1) in
      let (c2, high) = tpm_read8 io c1 (sts l + 2) in
      let p2 : P c2 = read_kept c1 _ (read_kept c _ p) in
      let v : ℕ = low + high <<< 8 in
      elim (if_eq (v == 0) (burst_wait io fuel (tpm_udelay io 100 c2) l) (some (c2, v))
        (some (c', n)) e) [
          | inl (nothing, again) ↦
              burst_wait_kept fuel (tpm_udelay io 100 c2) c' l n (tpm_udelay_kept 100 c2 p2) again
          | inr (more, done) ↦ let q : c2 ≡ c' = cc in subst P q p2
        ]

  pub wait_valid_kept :
      (fuel : ℕ) (c c' : C) (l n : ℕ) → P c → wait_valid io fuel c l ≡ some (c', n) → P c'
  unfolding wait_valid
  wait_valid_kept zero c c' l n p e = absurd cc
  wait_valid_kept (suc fuel) c c' l n p e =
      let (c1, status) = tpm_read8 io c (sts l) in
      let p1 : P c1 = read_kept c _ p in
      elim (if_eq (has_bit status 0x80) (some (c1, status)) (wait_valid io fuel c1 l) (some (c', n))
        e) [
          | inl (valid, done) ↦ let q : c1 ≡ c' = cc in subst P q p1
          | inr (invalid, again) ↦ wait_valid_kept fuel c1 c' l n p1 again
        ]
