-- ===== src/Tpm/Crb/Writes.antt =====
-- What the calls of crb.c write to the registers, read off the log of the writes.
use mathlib.Core.Path.{subst}
use secure_kernel_loader.Base.{
  ◌≢◌, ℕ, ◌≡◌, refl, ap, ◌∙◌, if_elim, some, ◌⊎◌, inl, inr, ◌==◌, arith, [], ◌∷◌, ◌++◌,
}
use secure_kernel_loader.Base.Memory.{Memory}
use secure_kernel_loader.Tpm.Buff.{TpmBuff, header_size}
use secure_kernel_loader.Tpm.Device.{Sent}
use secure_kernel_loader.Tpm.Mmio.{
  Log, logged, entry, Registers, Port, tpm_read32, tpm_write32, tpm_mdelay, timeout_a, timeout_b,
}
use secure_kernel_loader.Tpm.Tis.Polls.{tpm_mdelay_kept}
use secure_kernel_loader.Tpm.Crb.{
  register, tpm_crb_ctrl_start, tpm_crb_ctrl_cancel, tpm_crb_ctrl_sts, tpm_idle, is_idle,
  is_cmd_exec, cancel_send, crb_send,
}

module _ {C : Type 0} (io : Registers C) (junk : Log × C → ℕ) where
  -- A delay writes nothing.
  delay_lem : (n : ℕ) (s : Log × C) → (tpm_mdelay (logged io) n s).0 ≡ s.0
  delay_lem n s =
      tpm_mdelay_kept (logged io) (λ (t : Log × C). t.0 ≡ s.0) (λ c a p. p) (λ c p. p) n s refl

  -- The start of a command, and the cancelling of one.
  abbrev start : ℕ → ℕ × ℕ
  start l = entry (register l tpm_crb_ctrl_start) 1

  abbrev cancel : ℕ → ℕ → ℕ × ℕ
  cancel l v = entry (register l tpm_crb_ctrl_cancel) v

  -- The port behind a change of the chip.
  abbrev with_chip : Port (Log × C) → Log × C → Port (Log × C)
  with_chip p c = record p { chip = c }

  -- What the reads of a send give: the status; the start register 20 milliseconds behind the start of
  -- the command; the same once more, timeout_a later; and the same where cancel_send reads it.
  abbrev pub read_status : Port (Log × C) → (Log × C) × ℕ
  read_status p = tpm_read32 (logged io) p.chip (register p.locality tpm_crb_ctrl_sts)

  abbrev pub read_start : ℕ → Log × C → (Log × C) × ℕ
  read_start l c = tpm_read32 (logged io) c (register l tpm_crb_ctrl_start)

  abbrev pub read_first : Port (Log × C) → (Log × C) × ℕ
  read_first p = read_start p.locality (
      tpm_mdelay (logged io) 20
        (tpm_write32 (logged io) (read_status p).0 1 (register p.locality tpm_crb_ctrl_start)))

  abbrev pub read_second : Port (Log × C) → (Log × C) × ℕ
  read_second p = read_start p.locality (timeout_a (logged io) (read_first p).0)

  -- What cancel_send adds to a log: 1 and 0 where the start register reads 1, else nothing.
  abbrev pub IsCancelled : Port (Log × C) → Log → Log → Type 0
  IsCancelled p before after =
      (((read_start p.locality p.chip).1 ≢ 1) × (after ≡ before))
      ⊎ (((read_start p.locality p.chip).1 ≡ 1)
          × (after ≡ (before ++ (cancel p.locality 1 ∷ [])) ++ (cancel p.locality 0 ∷ [])))

  cancel_send-IsCancelled :
      (p : Port (Log × C)) → IsCancelled p p.chip.0 (cancel_send (logged io) junk p).chip.0
  unfolding cancel_send is_cmd_exec
  cancel_send-IsCancelled p =
      let (c1, val) = tpm_read32 (logged io) p.chip (register p.locality tpm_crb_ctrl_start) in
      let field = register p.locality tpm_crb_ctrl_cancel in
      let asked = tpm_write32 (logged io) c1 1 field in
      let c = tpm_write32 (logged io) (timeout_b (logged io) asked) 0 field in
      if_elim (λ (q : Port (Log × C)). IsCancelled p p.chip.0 q.chip.0) (val == 1)
        (record p { chip = c }) (record p { chip = c1 })
        (λ t. inr (
          ground (arith, t),
          ap (λ (x : Log). x ++ (cancel p.locality 0 ∷ [])) (delay_lem 2000 asked),
        ))
        (λ f. inl (ground (arith, f), refl))

  -- How a send ends, by what it reads: an idle TPM gets no write; else the command is started, and
  -- one that is not done at the second read is cancelled.
  abbrev pub IsSend : Port (Log × C) → TpmBuff → Sent (Port (Log × C)) → Type 0
  IsSend p b r =
      let begun = p.chip.0 ++ (start p.locality ∷ []) in
      ((tpm_idle (read_status p).1 ≡ 1) × (r.size ≡ 0) × (r.device.chip.0 ≡ p.chip.0))
      ⊎ ((tpm_idle (read_status p).1 ≢ 1)
          × (((((read_first p).1 ≡ 0) ⊎ ((read_second p).1 ≡ 0))
                × (r.size ≡ b.len)
                × (r.device.chip.0 ≡ begun))
              ⊎ (((read_first p).1 ≢ 0)
                  × ((read_second p).1 ≢ 0)
                  × (r.size ≡ header_size)
                  × IsCancelled (with_chip p (read_second p).0) begun r.device.chip.0)))

  -- crb_send always returns. Where the status that it reads first has the bit tpmIdle, it returns
  -- 0 and writes nothing; else it writes 1 to the start register, and returns the length of the
  -- command and writes no more where that register then reads 0, 20 milliseconds later or once
  -- more behind timeout_a; where it reads 0 neither time, it returns the size of a header, and has
  -- written 1 and 0 to the cancel register if the start register reads 1 at a third read, and no
  -- more if not.
  pub crb_send-IsSend :
      (p : Port (Log × C)) (m : Memory) (b : TpmBuff)
      → (r : Sent (Port (Log × C))) × (crb_send (logged io) junk p m b ≡ some r) × IsSend p b r
  unfolding crb_send is_idle
  crb_send-IsSend p m b = (
    _,
    refl,
    if_elim (IsSend p b) (tpm_idle (read_status p).1 == 1)
        (record { device = with_chip p (read_status p).0; size = 0 }) _
        (λ t. inl (ground (arith, t), refl, refl))
        (λ f.
          let busy : tpm_idle (read_status p).1 ≢ 1 = ground (arith, f) in
          if_elim (IsSend p b) ((read_first p).1 == 0)
            (record { device = with_chip p (read_first p).0; size = b.len }) _
            (λ t. inr (busy, inl (inl (ground (arith, t)), refl, begun)))
            (λ g.
              if_elim (IsSend p b) ((read_second p).1 == 0)
                (record { device = with_chip p (read_second p).0; size = b.len }) _
                (λ t. inr (busy, inl (inr (ground (arith, t)), refl, begun_still)))
                (λ h. inr (
                  busy,
                  inr (
                    ground (arith, g),
                    ground (arith, h),
                    refl,
                    subst (λ (x : Log). IsCancelled q x (cancel_send (logged io) junk q).chip.0)
                        begun_still (cancel_send-IsCancelled q),
                  ),
                )))),
  )
    where
      q : Port (Log × C)
      q = with_chip p (read_second p).0

      begun : (read_first p).0.0 ≡ p.chip.0 ++ (start p.locality ∷ [])
      begun =
          delay_lem 20
            (tpm_write32 (logged io) (read_status p).0 1 (register p.locality tpm_crb_ctrl_start))

      begun_still : (read_second p).0.0 ≡ p.chip.0 ++ (start p.locality ∷ [])
      begun_still = delay_lem 750 (read_first p).0 ∙ begun
