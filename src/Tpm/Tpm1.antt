-- ===== src/Tpm/Tpm1.antt =====
-- tpmlib/tpm1_cmds.c: TPM_Extend of TPM 1.2.
pub mod Command
pub mod Keeps
use secure_kernel_loader.Base.{
  ℕ, ◌+◌, not, Option, none, some, List, ◌==◌, ◌/=◌, if◌then◌else◌, be16, be32, length,
}
use secure_kernel_loader.Base.Memory.{Memory, load32, store}
use secure_kernel_loader.Tpm.Buff.{
  TpmBuff, header_size, tpmb_free, tpmb_reserve, tpmb_put, tpmb_trim,
}
use secure_kernel_loader.Tpm.Device.{
  Ops, Sent, Received, Tpm, Errno, success, einval, enomem, eagain,
}
use secure_kernel_loader.Tpm.Tpm2.{Build, built, no_room, no_header, finish}

abbrev pub tpm_tag_rqu_command : ℕ
tpm_tag_rqu_command = 0x00C1

abbrev pub tpm_ord_extend : ℕ
tpm_ord_extend = 0x00000014

-- sizeof(struct tpm_extend_cmd).
abbrev pub extend_cmd_size : ℕ
extend_cmd_size = 24

-- Up to the send; the digest has 20 bytes.
unfoldable pub build_extend : Memory → TpmBuff → ℕ → List ℕ → Build
build_extend m b pcr digest =
    let (m1, b1) = tpmb_free m b in
    let (b2, hdr) = tpmb_reserve b1 in
    let (b3, cmd) = tpmb_put b2 extend_cmd_size in
    let named = store (store m1 hdr (be16 tpm_tag_rqu_command)) (hdr + 6) (be32 tpm_ord_extend) in
    let filled = store (store named cmd (be32 pcr)) (cmd + 4) digest in
    if hdr == 0
    then no_header m1 b2
    else if cmd == 0
    then no_room named b3
    else built (store filled (hdr + 2) (be32 b3.len)) b3

module _ {D : Type 0} (ops : Ops D) where
  -- The header has been converted by recv, so its code is read in the host's order.
  receive : Tpm D → Memory → TpmBuff → D → Option (Tpm D × Errno)
  receive t m b d =
      let trimmed = (tpmb_trim b b.len).0 in
      let headed = (tpmb_put trimmed header_size).0 in
      elim (ops.recv t.family d m headed) [
        | none ↦ none
        | some r ↦ some (
            finish ops t r.memory r.buff r.device (
              if r.buff.len /= r.size
              then eagain
              else if load32 r.memory (trimmed.head + 6) /= 0
              then eagain
              else success))
      ]

  unfoldable pub send_extend : Tpm D → Memory → TpmBuff → Option (Tpm D × Errno)
  unfolding receive
  send_extend t m b = elim (ops.send t.device m b) [
    | none ↦ none
    | some s ↦
        if b.len /= s.size then some (finish ops t m b s.device eagain) else receive t m b s.device
  ]

  run_extend : Tpm D → Build → Option (Tpm D × Errno)
  run_extend t (built m b) = send_extend t m b
  run_extend t (no_room m b) = some (finish ops t m b t.device enomem)
  run_extend t (no_header m b) = some (record t { memory = m; buff = b }, enomem)

  unfoldable pub tpm1_pcr_extend : Tpm D → ℕ → List ℕ → Option (Tpm D × Errno)
  unfolding run_extend
  tpm1_pcr_extend t pcr digest =
      if not t.has_buff
      then some (t, einval)
      else run_extend t (build_extend t.memory t.buff pcr digest)
