-- ===== src/Tpm/Tis.antt =====
-- tpmlib/tis.c and tpmlib/tis.h: the FIFO interface of the TPM. The loops that poll a register take
-- fuel, and `none` is a poll that the fuel does not see the end of.
pub mod Recv
pub mod Bounds
pub mod Sizes
pub mod Polls
pub mod Send
pub mod Returns
use secure_kernel_loader.Base.{
  ◌>>=◌, ℕ, zero, suc, ◌+◌, ◌-◌, Bool, true, false, Option, none, some, ◌==◌, ltb, leb, ◌/=◌,
  if◌then◌else◌, List, [], ◌∷◌, u8, u32, sub64, be16, bit_and, bit_or, ◌<<<◌, get_be32, le32, le16,
  get_or,
}
use secure_kernel_loader.Base.Memory.{Memory, store8, store, load}
use secure_kernel_loader.Tpm.Types.{Family, tpm12, tpm20, tpm_max_locality, tpm_no_locality}
use secure_kernel_loader.Tpm.Buff.{TpmBuff, header_size, tpmb_put}
use secure_kernel_loader.Tpm.Device.{Sent, Received, Ops}
use secure_kernel_loader.Tpm.Mmio.{
  Registers, Port, tpm_read8, tpm_write8, tpm_read32, tpm_udelay, tpm1_timeout_d, tpm2_timeout_d,
}

-- The registers at a locality.
abbrev pub access : ℕ → ℕ
access l = bit_or 0x0000 (l <<< 12)

abbrev pub sts : ℕ → ℕ
sts l = bit_or 0x0018 (l <<< 12)

abbrev pub data_fifo : ℕ → ℕ
data_fifo l = bit_or 0x0024 (l <<< 12)

abbrev pub did_vid : ℕ → ℕ
did_vid l = bit_or 0x0F00 (l <<< 12)

abbrev pub sts_command_ready : ℕ
sts_command_ready = 0x40

abbrev pub sts_go : ℕ
sts_go = 0x20

-- Whether a status has the bit.
abbrev pub has_bit : ℕ → ℕ → Bool
has_bit status bit = bit_and status bit /= 0

module _ {C : Type 0} (io : Registers C) where
  unfoldable pub tis_data_available : C → ℕ → C × Bool
  tis_data_available c l =
      let (c1, status) = tpm_read8 io c (sts l) in (c1, bit_and status 0x90 == 0x90)

  -- The two bytes of the burst count, read until they are not both 0.
  unfoldable pub burst_wait : ℕ → C → ℕ → Option (C × ℕ)
  burst_wait zero c l = none
  burst_wait (suc fuel) c l =
      let (c1, low) = tpm_read8 io c (sts l + 1) in
      let (c2, high) = tpm_read8 io c1 (sts l + 2) in
      let again = burst_wait fuel (tpm_udelay io 100 c2) l in
      if low + high <<< 8 == 0 then again else some (c2, low + high <<< 8)

  unfoldable pub tis_relinquish_locality : Port C → Port C
  tis_relinquish_locality p = record {
    locality = tpm_no_locality;
    chip =
        if ltb p.locality tpm_max_locality
        then tpm_write8 io p.chip 0x20 (access p.locality)
        else p.chip;
  }

  unfoldable pub tis_request_locality : Port C → ℕ → Port C × ℕ
  unfolding tis_relinquish_locality
  tis_request_locality p l =
      let left = tis_relinquish_locality p in
      let (c, granted) = tpm_read8 io (tpm_write8 io left.chip 0x02 (access l)) (access l) in
      let holder = if has_bit granted 0x20 then l else left.locality in
      if ltb tpm_max_locality l
      then (p, tpm_no_locality)
      else if l == p.locality
      then (p, p.locality)
      else (record { locality = holder; chip = c }, holder)

  -- for (status = 0; (status & STS_COMMAND_READY) == 0; ) of tis_send.
  unfoldable pub wait_ready : ℕ → C → ℕ → Option C
  wait_ready zero c l = none
  wait_ready (suc fuel) c l =
      let (c1, status) = tpm_read8 io (tpm_write8 io c sts_command_ready (sts l)) (sts l) in
      let again = wait_ready fuel c1 l in
      if has_bit status sts_command_ready then some c1 else again

  -- for (status = 0; (status & STS_VALID) == 0; ), with the last status.
  unfoldable pub wait_valid : ℕ → C → ℕ → Option (C × ℕ)
  wait_valid zero c l = none
  wait_valid (suc fuel) c l =
      let (c1, status) = tpm_read8 io c (sts l) in
      let again = wait_valid fuel c1 l in if has_bit status 0x80 then some (c1, status) else again

  -- for (; burstcnt > 0 && count < last; burstcnt--), at the byte `at` behind the buffer's head.
  unfoldable pub write_burst : ℕ → C → ℕ → Memory → ℕ → ℕ → ℕ → C × ℕ
  write_burst zero c l m head last count = (c, count)
  write_burst (suc burstcnt) c l m head last count =
      let rest =
        write_burst burstcnt (tpm_write8 io c (m (head + count)) (data_fifo l)) l m head last
          (u32 (count + 1)) in
      if ltb count last then rest else (c, count)

-- How the loop of tis_send ends: with all but the last byte written, or with `return 0`.
pub data Written (C : Type 0) : Type 0 where
  written : C → ℕ → Written C
  overflow : C → Written C

abbrev continue : {C : Type 0} → (C → ℕ → Option (Written C)) → Written C → Option (Written C)
continue next (written c count) = next c count
continue next (overflow c) = some (overflow c)

abbrev sent : {C : Type 0} → ℕ → C → ℕ → Sent (Port C)
sent l c n = record { device = record { locality = l; chip = c }; size = n }

module _ {C : Type 0} (io : Registers C) (fuel : ℕ) where
  -- One round of the loop.
  unfoldable pub write_round : C → ℕ → Memory → ℕ → ℕ → ℕ → Option (Written C)
  write_round c l m head last count = do
    (c1, burstcnt) ← burst_wait io fuel c l
    let (c2, count2) = write_burst io burstcnt c1 l m head last count
    (c3, status) ← wait_valid io fuel c2 l
    some (if has_bit status 0x08 then written c3 count2 else overflow c3)

  -- while (count < last), where a round writes at least one byte: `last` rounds are enough.
  unfoldable pub write_rounds : ℕ → C → ℕ → Memory → ℕ → ℕ → ℕ → Option (Written C)
  write_rounds zero c l m head last count = if ltb count last then none else some (written c count)
  write_rounds (suc rounds) c l m head last count =
      let next : C → ℕ → Option (Written C) =
        λ c' count'. write_rounds rounds c' l m head last count' in
      let more = write_round c l m head last count >>= continue next in
      if ltb count last then more else some (written c count)

  -- The last byte, the test that the TPM expects no more, and the go.
  unfoldable pub write_last : ℕ → Memory → TpmBuff → Written C → Option (Sent (Port C))
  write_last l m b (written c count) = do
    let c1 = tpm_write8 io c (m (b.head + sub64 b.len 1)) (data_fifo l)
    (c2, status) ← wait_valid io fuel c1 l
    some (
        if has_bit status 0x08
        then sent l c2 0
        else sent l (tpm_write8 io c2 sts_go (sts l)) (u32 (count + 1)))
  write_last l m b (overflow c) = some (sent l c 0)

  unfoldable pub tis_send : Port C → Memory → TpmBuff → Option (Sent (Port C))
  unfolding write_rounds write_last
  tis_send p m b =
      let last = sub64 b.len 1 in
      let run = do
        c ← wait_ready io fuel p.chip p.locality
        w ← write_rounds last c p.locality m b.head last 0
        write_last p.locality m b w
      in if ltb tpm_max_locality p.locality then some (sent p.locality p.chip 0) else run
