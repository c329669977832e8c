-- ===== src/Tpm/Tis/Returns.antt =====
-- Where the registers answer, the polls of tis_send end and its loop makes progress.
use secure_kernel_loader.Base.{
  some_bind, Bool-cases, if_elim, if_true, if_false, ◌⊎◌, inl, inr, ℕ, zero, suc, ◌+◌, ◌≤◌, ◌<◌,
  ◌^◌, ◌≡◌, refl, ◌∙◌, true, false, Option, none, some, ◌==◌, ◌<<<◌, ltb, ltb→lt, if◌then◌else◌,
  arith, u32, sub64,
}
use secure_kernel_loader.Base.Memory.{Memory}
use secure_kernel_loader.Tpm.Types.{tpm_max_locality}
use secure_kernel_loader.Tpm.Buff.{TpmBuff}
use secure_kernel_loader.Tpm.Mmio.{Registers, tpm_read8, tpm_write8, tpm_udelay}
use secure_kernel_loader.Tpm.Tis.{
  burst_wait, wait_ready, wait_valid, write_burst, write_round, write_rounds, write_last, tis_send,
  has_bit, sts, data_fifo, sts_command_ready, Written, written, overflow, continue, sent,
}

-- In every state the status register shows that the TPM is ready and the status valid, and the two
-- registers of the burst count are not both 0.
abbrev pub IsResponsive : {C : Type 0} → Registers C → ℕ → Type 0
IsResponsive io l =
    ((c : _) → has_bit (tpm_read8 io c (sts l)).1 sts_command_ready ≡ true)
    × ((c : _) → has_bit (tpm_read8 io c (sts l)).1 0x80 ≡ true)
    × ((c : _)
        → ((tpm_read8 io c (sts l + 1)).1
              + (tpm_read8 io (tpm_read8 io c (sts l + 1)).0 (sts l + 2)).1 <<< 8)
            == 0
          ≡ false)

-- There is a result.
abbrev pub Returns {ℓ} : {A : Type ℓ} → Option A → Type ℓ
Returns o = (a : _) × (o ≡ some a)

module _ {C : Type 0} (io : Registers C) (l fuel : ℕ) (answers : IsResponsive io l) where
  wait_valid-Returns : (c : C) → Returns (wait_valid io (suc fuel) c l)
  unfolding wait_valid
  wait_valid-Returns c =
      let (c1, status) = tpm_read8 io c (sts l) in
      (
        (c1, status),
        if_true (has_bit status 0x80) (some (c1, status)) (wait_valid io fuel c1 l) (answers.1 c),
      )

  wait_ready-Returns : (c : C) → Returns (wait_ready io (suc fuel) c l)
  unfolding wait_ready
  wait_ready-Returns c =
      let (c1, status) = tpm_read8 io (tpm_write8 io c sts_command_ready (sts l)) (sts l) in
      (
        c1,
        if_true (has_bit status sts_command_ready) (some c1) (wait_ready io fuel c1 l)
            (answers.0 (tpm_write8 io c sts_command_ready (sts l))),
      )

  burst_wait-Returns : (c : C) → (r : C × ℕ) × (burst_wait io (suc fuel) c l ≡ some r) × (1 ≤ r.1)
  unfolding burst_wait
  burst_wait-Returns c =
      let (c1, low) = tpm_read8 io c (sts l + 1) in
      let (c2, high) = tpm_read8 io c1 (sts l + 2) in
      let n : ℕ = low + high <<< 8 in
      let some_room : (n == 0) ≡ false = answers.2 c in
      (
        (c2, n),
        if_false (n == 0) (burst_wait io fuel (tpm_udelay io 100 c2) l) (some (c2, n)) some_room,
        ground arith,
      )

  -- A burst does not pass the last byte, and takes a step where it can.
  write_burst_count :
      (burstcnt : ℕ) (c : C) (m : Memory) (head last count : ℕ)
      → last < 2 ^ 32
      → count ≤ last
      → let n = (write_burst io burstcnt c l m head last count).1 in
        (count ≤ n) × (n ≤ last) × ((burstcnt ≡ 0) ⊎ ((last ≤ count) ⊎ (count < n)))
  unfolding write_burst
  write_burst_count zero c m head last count b h = (omega arith, h, inl refl)
  write_burst_count (suc burstcnt) c m head last count b h =
      if_elim
        (λ (r : C × ℕ).
          (count ≤ r.1) × (r.1 ≤ last) × ((suc burstcnt ≡ 0) ⊎ ((last ≤ count) ⊎ (count < r.1))))
        (ltb count last) (write_burst io burstcnt next l m head last (u32 (count + 1))) (c, count)
        (λ lt.
          let small : u32 (count + 1) ≡ count + 1 = omega (arith, ltb→lt count last lt) in
          let (up, down, more) =
            write_burst_count burstcnt next m head last (count + 1) b
              (omega (arith, ltb→lt count last lt)) in
          rw small (omega arith, down, inr (inr (omega arith))))
        (λ ge. (omega arith, h, inr (inl (ground arith))))
    where
      next : C
      next = tpm_write8 io c (m (head + count)) (data_fifo l)

  -- A round moves on.
  IsMoved : ℕ → ℕ → Written C → Type 0
  IsMoved last count (written c n) = (count < n) × (n ≤ last)
  IsMoved last count (overflow c) = Unit {0}

  write_round-Returns :
      (c : C) (m : Memory) (head last count : ℕ)
      → last < 2 ^ 32
      → count < last
      → (w : Written C) × (write_round io (suc fuel) c l m head last count ≡ some w)
        × IsMoved last count w
  unfolding write_round IsMoved
  write_round-Returns c m head last count b h =
      let ((c1, n), e1, pos) = burst_wait-Returns c in
      let r = write_burst io n c1 l m head last count in
      let ((c3, status), e3) = wait_valid-Returns r.0 in
      let (up, down, more) = write_burst_count n c1 m head last count b (omega arith) in
      let w : Written C = if has_bit status 0x08 then written c3 r.1 else overflow c3 in
      (
        w,
        some_bind _ _ (c1, n) w e1 (some_bind _ _ (c3, status) w e3 refl),
        if_elim (IsMoved last count) (has_bit status 0x08) (written c3 r.1) (overflow c3)
            (λ t. (moved n r.1 pos more, down)) (λ f. tt),
      )
    where
      moved : (n k : ℕ) → 1 ≤ n → (n ≡ 0) ⊎ ((last ≤ count) ⊎ (count < k)) → count < k
      moved n k pos more = omega arith

  write_rounds-Returns :
      (rounds : ℕ) (c : C) (m : Memory) (head last count : ℕ)
      → last < 2 ^ 32
      → last ≤ count + rounds
      → Returns (write_rounds io (suc fuel) rounds c l m head last count)
  unfolding write_rounds IsMoved
  write_rounds-Returns zero c m head last count b h =
      let all : ltb count last ≡ false = ground arith in
      (written c count, if_false (ltb count last) none (some (written c count)) all)
  write_rounds-Returns (suc rounds) c m head last count b h = elim (Bool-cases (ltb count last)) [
    | inl t ↦
        let (w, e, q) = write_round-Returns c m head last count b (ltb→lt count last t) in
        let (w', e') =
          further (λ c' n lt. write_rounds-Returns rounds c' m head last n b (omega arith)) w q in
        (w', if_true (ltb count last) _ _ t ∙ some_bind _ _ w w' e e')
    | inr f ↦ (written c count, if_false (ltb count last) _ _ f)
  ]
    where
      next : C → ℕ → Option (Written C)
      next c' n = write_rounds io (suc fuel) rounds c' l m head last n

      further :
          ((c' : C) (n : ℕ) → count < n → Returns (next c' n))
          → (w : Written C) → IsMoved last count w
          → Returns (continue next w)
      further again (written c' n) (lt, le) = again c' n lt
      further again (overflow c') q = (overflow c', refl)

  write_last-Returns :
      (m : Memory) (b : TpmBuff) (w : Written C) → Returns (write_last io (suc fuel) l m b w)
  unfolding write_last
  write_last-Returns m b (written c count) =
      let ((c2, status), e) =
        wait_valid-Returns (tpm_write8 io c (m (b.head + sub64 b.len 1)) (data_fifo l)) in
      (_, some_bind _ _ (c2, status) _ e refl)
  write_last-Returns m b (overflow c) = (sent l c 0, refl)

  -- Where in every state the status register shows command ready and valid and the burst count is
  -- not 0, one read is enough for each poll, and tis_send returns for every command of 1 to 2 ^ 32
  -- - 1 bytes.
  pub tis_send-Returns :
      (c : C) (m : Memory) (b : TpmBuff)
      → 1 ≤ b.len
      → b.len < 2 ^ 32
      → Returns (tis_send io (suc fuel) (record { locality = l; chip = c }) m b)
  unfolding tis_send
  tis_send-Returns c m b some_bytes small =
      let (c1, e1) = wait_ready-Returns c in
      let (w, e2) =
        write_rounds-Returns (sub64 b.len 1) c1 m b.head (sub64 b.len 1) 0 (omega arith)
          (omega arith) in
      let (r, e3) = write_last-Returns m b w in
      elim (Bool-cases (ltb tpm_max_locality l)) [
        | inl t ↦ (sent l c 0, if_true _ _ _ t)
        | inr f ↦ (r, if_false _ _ _ f ∙ some_bind _ _ c1 r e1 (some_bind _ _ w r e2 e3))
      ]
