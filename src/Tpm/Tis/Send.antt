-- ===== src/Tpm/Tis/Send.antt =====
-- What tis_send writes to the registers, read off the log of the writes.
use mathlib.Core.Path.{subst}
use mathlib.Core.List.{append_assoc, append-nil, map-append}
use secure_kernel_loader.Base.{
  ◌>>=◌, bind_some, if_eq, if_elim, ℕ, zero, suc, ◌+◌, ◌≤◌, ◌<◌, ◌^◌, ◌≡◌, refl, sym, ◌∙◌, false,
  Option, none, some, ◌⊎◌, inl, inr, ltb, ltb→lt, if◌then◌else◌, arith, List, [], ◌∷◌, ◌++◌, map,
  replicate, replicate-append, u32, sub64,
}
use secure_kernel_loader.Base.Memory.{Memory, load, load-append}
use secure_kernel_loader.Tpm.Types.{tpm_max_locality}
use secure_kernel_loader.Tpm.Buff.{TpmBuff}
use secure_kernel_loader.Tpm.Device.{Sent}
use secure_kernel_loader.Tpm.Mmio.{Log, logged, entry, Registers, Port, tpm_read8, tpm_write8}
use secure_kernel_loader.Tpm.Tis.{
  wait_ready, write_burst, write_round, write_rounds, write_last, tis_send, has_bit, sts, data_fifo,
  sts_command_ready, sts_go, Written, written, overflow, continue, sent,
}
use secure_kernel_loader.Tpm.Tis.Polls.{burst_wait_kept, wait_valid_kept}

-- Bytes written one after the other to the FIFO of a locality.
abbrev pub to_fifo : ℕ → List ℕ → Log
to_fifo l bytes = map (entry (data_fifo l)) bytes

module _ {C : Type 0} (io : Registers C) (l : ℕ) (m : Memory) (head : ℕ) (before : Log) where
  -- `count` bytes at `head` have been written to the FIFO, and nothing else.
  abbrev IsSent : ℕ → Log × C → Type 0
  IsSent count s = s.0 ≡ before ++ to_fifo l (load m head count)

  one_more :
      (count : ℕ) (s : Log × C)
      → IsSent count s
      → IsSent (count + 1) (tpm_write8 (logged io) s (m (head + count)) (data_fifo l))
  unfolding load
  one_more count s h = rw (h, load-append m head count 1, map-append) (append_assoc before _ _)

  -- The state and the count behind a burst that began at `count`.
  abbrev IsBurst : ℕ → ℕ → (Log × C) × ℕ → Type 0
  IsBurst last count r = IsSent r.1 r.0 × (count ≤ r.1) × (r.1 ≤ last)

  write_burst-IsBurst :
      (burstcnt : ℕ) (s : Log × C) (last count : ℕ)
      → last < 2 ^ 32
      → count ≤ last
      → IsSent count s
      → IsBurst last count (write_burst (logged io) burstcnt s l m head last count)
  unfolding write_burst
  write_burst-IsBurst zero s last count b h q = (q, omega arith, h)
  write_burst-IsBurst (suc burstcnt) s last count b h q =
      if_elim (IsBurst last count) (ltb count last)
        (write_burst (logged io) burstcnt next l m head last (u32 (count + 1))) (s, count)
        (λ lt.
          let small : u32 (count + 1) ≡ count + 1 = omega (arith, ltb→lt count last lt) in
          let (q', up, down) =
            write_burst-IsBurst burstcnt next last (count + 1) b
              (omega (arith, ltb→lt count last lt)) (one_more count s q) in
          rw small (q', omega arith, down))
        (λ ge. (q, omega arith, h))
    where
      next : Log × C
      next = tpm_write8 (logged io) s (m (head + count)) (data_fifo l)

  -- A round keeps that, and so does the way out of it.
  abbrev IsRound : ℕ → Written (Log × C) → Type 0
  IsRound last (written s count) = IsSent count s × (count ≤ last)
  IsRound last (overflow s) = (n : ℕ) × IsSent n s × (n ≤ last)

  write_round-IsRound :
      (fuel : ℕ) (s : Log × C) (last count : ℕ) (w : Written (Log × C))
      → last < 2 ^ 32
      → count ≤ last
      → IsSent count s
      → write_round (logged io) fuel s l m head last count ≡ some w
      → IsRound last w
  unfolding write_round
  write_round-IsRound fuel s last count w b h q e =
      let ((s1, burstcnt), e1, e2) = bind_some _ _ _ e in
      let q1 : IsSent count s1 =
        burst_wait_kept (logged io) (IsSent count) (λ c a p. p) (λ c p. p) fuel s s1 l burstcnt q
          e1 in
      let (s2, count2) = write_burst (logged io) burstcnt s1 l m head last count in
      let (q2, up, down) = write_burst-IsBurst burstcnt s1 last count b h q1 in
      let ((s3, status), e3, e4) = bind_some _ _ _ e2 in
      let q3 : IsSent count2 s3 =
        wait_valid_kept (logged io) (IsSent count2) (λ c a p. p) (λ c p. p) fuel s2 s3 l status q2
          e3 in
      let e5 : (if has_bit status 0x08 then written s3 count2 else overflow s3) ≡ w = cc in
      subst (IsRound last) e5 (
        if_elim (IsRound last) (has_bit status 0x08) (written s3 count2) (overflow s3)
          (λ t. (q3, down)) (λ f. (count2, q3, down)))

  -- The loop ends with the bytes up to the last one written, or on the way there.
  abbrev IsLoop : ℕ → Written (Log × C) → Type 0
  IsLoop last (written s count) = IsSent last s × (count ≡ last)
  IsLoop last (overflow s) = (n : ℕ) × IsSent n s × (n ≤ last)

  done-IsLoop :
      (s : Log × C) (last count : ℕ) (w : Written (Log × C))
      → count ≤ last
      → IsSent count s
      → ltb count last ≡ false
      → some (written s count) ≡ some w
      → IsLoop last w
  done-IsLoop s last count w h q f e =
      let all : count ≡ last = ground arith in
      let e' : written s count ≡ w = cc in
      subst (IsLoop last) e' (subst (λ (n : ℕ). IsSent n s) all q, all)

  write_rounds-IsLoop :
      (fuel rounds : ℕ) (s : Log × C) (last count : ℕ) (w : Written (Log × C))
      → last < 2 ^ 32
      → count ≤ last
      → IsSent count s
      → write_rounds (logged io) fuel rounds s l m head last count ≡ some w
      → IsLoop last w
  unfolding write_rounds
  write_rounds-IsLoop fuel zero s last count w b h q e =
      elim (if_eq (ltb count last) none (some (written s count)) (some w) e) [
        | inl (t, e') ↦ absurd cc
        | inr (f, e') ↦ done-IsLoop s last count w h q f e'
      ]
  write_rounds-IsLoop fuel (suc rounds) s last count w b h q e =
      elim (if_eq (ltb count last)
        (write_round (logged io) fuel s l m head last count >>= continue next)
        (some (written s count)) (some w) e) [
          | inl (t, e') ↦
              let (w1, e1, e2) = bind_some _ _ _ e' in
              further
                (λ s' count' h' q' e3. write_rounds-IsLoop fuel rounds s' last count' w b h' q' e3)
                w1 (write_round-IsRound fuel s last count w1 b h q e1) e2
          | inr (f, e') ↦ done-IsLoop s last count w h q f e'
        ]
    where
      next : Log × C → ℕ → Option (Written (Log × C))
      next s' count' = write_rounds (logged io) fuel rounds s' l m head last count'

      further :
          ((s' : Log × C) (count' : ℕ)
            → count' ≤ last
            → IsSent count' s'
            → next s' count' ≡ some w
            → IsLoop last w)
          → (w1 : Written (Log × C)) → IsRound last w1
          → continue next w1 ≡ some w
          → IsLoop last w
      further again (written s' count') (q', h') e = again s' count' h' q' e
      further again (overflow s') q' e = let e' : overflow s' ≡ w = cc in subst (IsLoop last) e' q'

-- The log of a send that ends with STS_GO, and of one that gives up.
abbrev ready : ℕ → ℕ → Log
ready l k = replicate k (entry (sts l) sts_command_ready)

abbrev pub IsComplete : ℕ → List ℕ → Log → Type 0
IsComplete l bytes log =
    (k : ℕ) × (log ≡ ready l k ++ (to_fifo l bytes ++ (entry (sts l) sts_go ∷ [])))

abbrev pub IsCut : ℕ → Memory → ℕ → ℕ → Log → Type 0
IsCut l m head len log = (k n : ℕ) × (n ≤ len) × (log ≡ ready l k ++ to_fifo l (load m head n))

module _ {C : Type 0} (io : Registers C) (fuel : ℕ) (l : ℕ) where
  wait_ready_lem :
      (n k : ℕ) (s s' : Log × C)
      → s.0 ≡ ready l k
      → wait_ready (logged io) n s l ≡ some s'
      → (j : ℕ) × (s'.0 ≡ ready l j)
  unfolding wait_ready
  wait_ready_lem zero k s s' h e = absurd cc
  wait_ready_lem (suc n) k s s' h e =
      let (s1, status) =
        tpm_read8 (logged io) (tpm_write8 (logged io) s sts_command_ready (sts l)) (sts l) in
      let h1 : s1.0 ≡ ready l (k + 1) =
        rw (h, replicate-append k 1 (entry (sts l) sts_command_ready)) refl in
      elim (if_eq (has_bit status sts_command_ready) (some s1) (wait_ready (logged io) n s1 l)
        (some s') e) [
          | inl (t, e') ↦
              let e1 : s1 ≡ s' = cc in (k + 1, subst (λ (x : Log × C). x.0 ≡ ready l (k + 1)) e1 h1)
          | inr (f, e') ↦ wait_ready_lem n (k + 1) s1 s' h1 e'
        ]

  abbrev pub IsAnswer : Memory → TpmBuff → Sent (Port (Log × C)) → Type 0
  IsAnswer m b r =
      ((r.size ≡ b.len) × IsComplete l (load m b.head b.len) r.device.chip.0)
      ⊎ ((r.size ≡ 0) × IsCut l m b.head b.len r.device.chip.0)

  write_last_lem :
      (k last : ℕ) (m : Memory) (b : TpmBuff) (w : Written (Log × C)) (r : Sent (Port (Log × C)))
      → b.len ≡ last + 1
      → b.len < 2 ^ 32
      → IsLoop io l m b.head (ready l k) last w
      → write_last (logged io) fuel l m b w ≡ some r
      → IsAnswer m b r
  unfolding write_last
  write_last_lem k last m b (overflow s) r len small (n, q, h) e =
      let e' : sent l s 0 ≡ r = cc in subst (IsAnswer m b) e' (inr (refl, (k, n, omega arith, q)))
  write_last_lem k last m b (written s count) r len small (q, all) e =
      let ((s2, status), e1, e2) = bind_some _ _ _ e in
      let before : sub64 b.len 1 ≡ last = omega arith in
      let q1 : IsSent io l m b.head (ready l k) b.len s1 =
        subst
          (λ (j : ℕ).
            IsSent io l m b.head (ready l k) b.len
              (tpm_write8 (logged io) s (m (b.head + j)) (data_fifo l)))
          (sym before)
          (subst
            (λ (n : ℕ).
              IsSent io l m b.head (ready l k) n
                (tpm_write8 (logged io) s (m (b.head + last)) (data_fifo l)))
            (sym len) (one_more io l m b.head (ready l k) last s q)) in
      let q2 : IsSent io l m b.head (ready l k) b.len s2 =
        wait_valid_kept (logged io) (IsSent io l m b.head (ready l k) b.len) (λ c a p. p) (λ c p. p)
          fuel s1 s2 l status q1 e1 in
      let go = tpm_write8 (logged io) s2 sts_go (sts l) in
      let whole : u32 (count + 1) ≡ b.len = omega arith in
      let e3 : (if has_bit status 0x08 then sent l s2 0 else sent l go (u32 (count + 1))) ≡ r =
        cc in
      subst (IsAnswer m b) e3 (
        if_elim (IsAnswer m b) (has_bit status 0x08) (sent l s2 0) (sent l go (u32 (count + 1)))
          (λ t. inr (refl, (k, b.len, omega arith, q2)))
          (λ f. inl (whole, (k, rw q2 (append_assoc (ready l k) _ _)))))
    where
      s1 : Log × C
      s1 = tpm_write8 (logged io) s (m (b.head + sub64 b.len 1)) (data_fifo l)

  -- From an empty log on, at a locality up to TPM_MAX_LOCALITY, and for a command of 1 to 2 ^ 32 -
  -- 1 bytes, a tis_send that returns either has written the command-ready bit to the status
  -- register some times, the bytes of the command in order to the FIFO and the go bit, and returns
  -- the length; or has written no more than command-ready bits and a first part of the bytes,
  -- without the go bit, and returns 0.
  pub tis_send-IsAnswer :
      (c : C) (m : Memory) (b : TpmBuff) (r : Sent (Port (Log × C)))
      → l ≤ tpm_max_locality
      → 1 ≤ b.len
      → b.len < 2 ^ 32
      → tis_send (logged io) fuel (record { locality = l; chip = ([], c) }) m b ≡ some r
      → IsAnswer m b r
  unfolding tis_send load
  tis_send-IsAnswer c m b r held some_bytes small e =
      elim (if_eq (ltb tpm_max_locality l) (some (sent l ([], c) 0)) _ (some r) e) [
        | inl (t, e') ↦ absurd (ground arith)
        | inr (f, e') ↦
            let (s1, e1, e2) = bind_some _ _ _ e' in
            let (k, h1) = wait_ready_lem fuel 0 ([], c) s1 refl e1 in
            let (w, e3, e4) = bind_some _ _ _ e2 in
            write_last_lem k (sub64 b.len 1) m b w r (omega arith) small
              (write_rounds-IsLoop io l m b.head (ready l k) fuel (sub64 b.len 1) s1 (sub64 b.len 1)
                0 w (omega arith) (omega arith) (h1 ∙ sym (append-nil (ready l k))) e3)
              e4
      ]
