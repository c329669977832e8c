-- ===== src/Tpm/Enable.antt =====
-- tpmlib/tpm.c: enable_tpm, which chooses the interface and fills struct tpm_hw_ops.
pub mod Holds
use secure_kernel_loader.Base.{
  ℕ, ◌||◌, Bool, Option, none, some, ◌==◌, ◌/=◌, if◌then◌else◌, bit_and, ◌>>>◌,
}
use secure_kernel_loader.Tpm.Types.{Family, tpm12, tpm20, Interface, tpm_tis, tpm_crb}
use secure_kernel_loader.Tpm.Device.{Ops, Tpm}
use secure_kernel_loader.Tpm.Mmio.{Registers, Port, tpm_read32}
use secure_kernel_loader.Tpm.Tis.Recv.{tis_ops, tis_init}
use secure_kernel_loader.Tpm.Crb.{crb_ops, crb_init}

-- The bit fields interface_version of struct tpm_intf_capability and interface_type of struct
-- tpm_interface_id.
abbrev pub interface_version : ℕ → ℕ
interface_version val = bit_and (val >>> 28) 7

abbrev pub interface_type : ℕ → ℕ
interface_type val = bit_and val 0xF

-- What enable_tpm returns: NULL, or the static struct tpm with its operations and its vendor.
pub data Enabled (C : Type 0) : Type 0 where
  no_tpm : Port C → Enabled C
  enabled : Ops (Port C) → Tpm (Port C) → ℕ → Enabled C

module _ {C : Type 0} (io : Registers C) (junk : C → ℕ) (fuel : ℕ) where
  unfoldable pub find_interface_and_family : C → C × Family × Interface
  find_interface_and_family c =
      let (c1, cap) = tpm_read32 io c 0x14 in
      let (c2, id) = tpm_read32 io c1 0x30 in
      if (interface_version cap == 0) || (interface_version cap == 2)
      then (c1, tpm12, tpm_tis)
      else if interface_type id == 1
      then (c2, tpm20, tpm_crb)
      else (c2, tpm20, tpm_tis)

  -- What follows tis_init or crb_init.
  unfoldable pub initialised : Ops (Port C) → Tpm (Port C) → Port C × ℕ × ℕ → Enabled C
  initialised ops t (p, vendor, done) =
      if done == 0 then no_tpm p else enabled ops (record t { device = p }) vendor

  -- The switch over the interface. The vendor field was zero.
  unfoldable pub init_interface : Interface → Tpm (Port C) → Enabled C
  unfolding initialised
  init_interface tpm_tis t = initialised (tis_ops io fuel) t (tis_init io t.device 0)
  init_interface tpm_crb t = initialised (crb_ops io junk) t (crb_init io junk t.device 0)

  unfoldable pub enable_tpm : Tpm (Port C) → Enabled C
  unfolding find_interface_and_family init_interface
  enable_tpm t =
      let (c, family, intf) = find_interface_and_family t.device.chip in
      init_interface intf
        (record t { family = family; intf = intf; device = record t.device { chip = c } })
