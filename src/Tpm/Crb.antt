-- ===== src/Tpm/Crb.antt =====
-- tpmlib/crb.c: the command response buffer interface of the TPM. The buffer lies in the registers'
-- address range, and commands are built there in memory; nothing here polls without end.
pub mod Writes
use secure_kernel_loader.Base.{
  ℕ, ◌+◌, Bool, not, Option, some, ◌==◌, ◌/=◌, ◌&&◌, if◌then◌else◌, bit_and, bit_or, ◌<<<◌, ◌>>>◌,
}
use secure_kernel_loader.Base.Memory.{Memory}
use secure_kernel_loader.Tpm.Types.{Family, tpm_no_locality}
use secure_kernel_loader.Tpm.Buff.{TpmBuff, header_size}
use secure_kernel_loader.Tpm.Device.{Sent, Received, Ops}
use secure_kernel_loader.Tpm.Mmio.{
  Registers, Port, tpm_read8, tpm_read32, tpm_write32, tpm_mdelay, timeout_a, timeout_b,
  tpm2_timeout_c,
}

-- REGISTER(l, r) and the registers.
abbrev pub register : ℕ → ℕ → ℕ
register l r = bit_or (l <<< 12) r

abbrev pub tpm_loc_state : ℕ
tpm_loc_state = 0x0000

abbrev pub tpm_loc_ctrl : ℕ
tpm_loc_ctrl = 0x0008

abbrev pub tpm_loc_sts : ℕ
tpm_loc_sts = 0x000C

abbrev pub tpm_crb_intf_id : ℕ
tpm_crb_intf_id = 0x0030

abbrev pub tpm_crb_ctrl_req : ℕ
tpm_crb_ctrl_req = 0x0040

abbrev pub tpm_crb_ctrl_sts : ℕ
tpm_crb_ctrl_sts = 0x0044

abbrev pub tpm_crb_ctrl_cancel : ℕ
tpm_crb_ctrl_cancel = 0x0048

abbrev pub tpm_crb_ctrl_start : ℕ
tpm_crb_ctrl_start = 0x004C

-- The bit fields of the unions: tpm_idle of struct tpm_crb_ctrl_sts, loc_assigned and active_locality
-- of struct tpm_loc_state, and granted of struct tpm_loc_sts.
abbrev pub tpm_idle : ℕ → ℕ
tpm_idle val = bit_and (val >>> 1) 1

abbrev pub loc_assigned : ℕ → ℕ
loc_assigned val = bit_and (val >>> 1) 1

abbrev pub active_locality : ℕ → ℕ
active_locality val = bit_and (val >>> 2) 7

abbrev pub granted : ℕ → ℕ
granted val = bit_and val 1

-- The vendor that crb_init makes of the field vid of struct tpm_crb_intf_id_ext.
abbrev pub swapped_vid : ℕ → ℕ
swapped_vid val =
    let vid = bit_and val 0xFFFF in bit_or (bit_and vid 0x00FF <<< 8) (bit_and vid 0xFF00 >>> 8)

-- The unions struct tpm_crb_ctrl_req and struct tpm_loc_ctrl are written with one bit set and the
-- other bits as the stack has them, which is `junk`.
module _ {C : Type 0} (io : Registers C) (junk : C → ℕ) where
  unfoldable pub is_idle : Port C → Port C × Bool
  is_idle p =
      let (c, val) = tpm_read32 io p.chip (register p.locality tpm_crb_ctrl_sts) in
      (record p { chip = c }, tpm_idle val == 1)

  unfoldable pub is_cmd_exec : Port C → Port C × Bool
  is_cmd_exec p =
      let (c, val) = tpm_read32 io p.chip (register p.locality tpm_crb_ctrl_start) in
      (record p { chip = c }, val == 1)

  -- A write to CTRL_REQ with a bit set, and the pause after it.
  unfoldable pub request : Port C → ℕ → Port C
  request p bit =
      let c =
        tpm_write32 io p.chip (bit_or (junk p.chip) bit) (register p.locality tpm_crb_ctrl_req) in
      record p { chip = tpm2_timeout_c io c }

  -- false is the return value -1.
  unfoldable pub cmd_ready : Port C → Port C × Bool
  unfolding is_idle request
  cmd_ready p =
      let (p1, idle) = is_idle p in
      let (p2, still) = is_idle (request p1 1) in if idle then (p2, not still) else (p1, Bool.true)

  unfoldable pub go_idle : Port C → Port C
  unfolding is_idle request
  go_idle p = let (p1, idle) = is_idle p in if idle then p1 else request p1 2

  unfoldable pub crb_relinquish_locality_internal : C → ℕ → C
  crb_relinquish_locality_internal c l =
      tpm_write32 io c (bit_or (junk c) 2) (register l tpm_loc_ctrl)

  -- From the write of request_access on.
  unfoldable pub claim_locality : C → ℕ → Port C × ℕ
  claim_locality c l =
      let c1 = tpm_write32 io c (bit_or (junk c) 1) (register l tpm_loc_ctrl) in
      let (c2, val) = tpm_read32 io c1 (register l tpm_loc_sts) in
      let now = if granted val /= 1 then tpm_no_locality else l in
      (record { locality = now; chip = c2 }, now)

  unfoldable pub crb_request_locality : Port C → ℕ → Port C × ℕ
  unfolding crb_relinquish_locality_internal claim_locality
  crb_request_locality p l =
      let (c, val) = tpm_read8 io p.chip (register 0 tpm_loc_state) in
      if loc_assigned val == 1
      then if active_locality val == l
        then (record { locality = l; chip = c }, l)
        else claim_locality (crb_relinquish_locality_internal c (loc_assigned val)) l
      else claim_locality c l

  unfoldable pub crb_relinquish_locality : Port C → Port C
  unfolding crb_relinquish_locality_internal
  crb_relinquish_locality p = record p { chip = crb_relinquish_locality_internal p.chip p.locality }

  unfoldable pub cancel_send : Port C → Port C
  unfolding is_cmd_exec
  cancel_send p =
      let (p1, exec) = is_cmd_exec p in
      let field = register p.locality tpm_crb_ctrl_cancel in
      let c = tpm_write32 io (timeout_b io (tpm_write32 io p1.chip 1 field)) 0 field in
      if exec then record p1 { chip = c } else p1

  -- duration_a is 20 milliseconds.
  unfoldable pub crb_send : Port C → Memory → TpmBuff → Option (Sent (Port C))
  unfolding is_idle cancel_send
  crb_send p m b =
      let (p1, idle) = is_idle p in
      let field = register p.locality tpm_crb_ctrl_start in
      let (c2, first) = tpm_read32 io (tpm_mdelay io 20 (tpm_write32 io p1.chip 1 field)) field in
      let (c3, second) = tpm_read32 io (timeout_a io c2) field in
      some (
        if idle
        then record { device = p1; size = 0 }
        else if first == 0
        then record { device = record p1 { chip = c2 }; size = b.len }
        else if second == 0
        then record { device = record p1 { chip = c3 }; size = b.len }
        else record { device = cancel_send (record p1 { chip = c3 }); size = header_size })

  -- A no-op: send waits until the command has been executed.
  unfoldable pub crb_recv : Family → Port C → Memory → TpmBuff → Option (Received (Port C))
  crb_recv f p m b = some (record { device = p; memory = m; buff = b; size = 0 })

  -- The operations that crb_init puts into struct tpm_hw_ops.
  abbrev pub crb_ops : Ops (Port C)
  crb_ops = record {
    request_locality = crb_request_locality;
    relinquish_locality = crb_relinquish_locality;
    send = crb_send;
    recv = crb_recv;
  }

  -- The state after the calls, the vendor where it has been read, and the u8 that is returned.
  unfoldable pub crb_init : Port C → ℕ → Port C × ℕ × ℕ
  unfolding go_idle cmd_ready
  crb_init p vendor =
      let (p1, l) = crb_request_locality p 0 in
      let (c, id) = tpm_read32 io p1.chip (register 0 (tpm_crb_intf_id + 4)) in
      let swapped = swapped_vid id in
      let p2 : Port C = record p1 { chip = c } in
      if l == tpm_no_locality
      then (p1, vendor, 0)
      else if bit_and swapped 0xFFFF == 0xFFFF
      then (p2, swapped, 0)
      else ((cmd_ready (go_idle p2)).0, swapped, 1)
