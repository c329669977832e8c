-- ===== src/Dev.antt =====
-- dev.c: the end of the protection that SKINIT gives the SLB, through the Device Exclusion Vector of
-- older processors or the control register of family 17h.
use secure_kernel_loader.Base.{
  ℕ, ◌+◌, Option, none, some, bit_and, not32, u32, ◌<<<◌, ◌==◌, if◌then◌else◌,
}
use secure_kernel_loader.Pci.{Io, Access, pci_read, pci_write, pci_devfn, pci_locate}

abbrev pub dev_op_offset : ℕ
dev_op_offset = 4

abbrev pub dev_data_offset : ℕ
dev_data_offset = 8

abbrev pub dev_cr : ℕ
dev_cr = 4

abbrev pub dev_cr_sl_dev_en_mask : ℕ
dev_cr_sl_dev_en_mask = 1 <<< 5

abbrev pub memprot_cr : ℕ
memprot_cr = 0x384

abbrev pub memprot_en : ℕ
memprot_en = 1

abbrev pub dev_function : ℕ
dev_function = pci_devfn 0x18 0x3

abbrev pub mch_function : ℕ
mch_function = pci_devfn 0x18 0x0

-- The index that selects a register behind the data port.
abbrev pub dev_index : ℕ → ℕ → ℕ
dev_index function index = (bit_and function 0xff <<< 8) + bit_and index 0xff

module _ {H : Type 0} (io : Io H) (access : Access) where
  unfoldable pub dev_locate : ℕ → H → Option (H × ℕ)
  dev_locate fuel h = pci_locate io fuel access h 0 dev_function

  unfoldable pub dev_read : H → ℕ → ℕ → ℕ → H × ℕ
  dev_read h cap function index =
      let (k, w) =
        pci_write io access h 0 0 dev_function (u32 (cap + dev_op_offset)) 4
          (dev_index function index) in
      let (j, r) = pci_read io access k 0 0 dev_function (u32 (cap + dev_data_offset)) 4 0 in
      (j, r.0)

  unfoldable pub dev_write : H → ℕ → ℕ → ℕ → ℕ → H
  dev_write h dev function index value =
      let (k, w) =
        pci_write io access h 0 0 dev_function (u32 (dev + dev_op_offset)) 4
          (dev_index function index) in
      (pci_write io access k 0 0 dev_function (u32 (dev + dev_data_offset)) 4 value).0

  unfoldable pub dev_disable_sl : H → ℕ → H
  unfolding dev_read dev_write
  dev_disable_sl h dev =
      let (k, cr) = dev_read h dev dev_cr 0 in
      dev_write k dev dev_cr 0 (bit_and cr (not32 dev_cr_sl_dev_en_mask))

  -- Fam 17h uses a different control register.
  unfoldable pub disable_memprot : H → H
  disable_memprot h =
      let (k, r) = pci_read io access h 0 0 mch_function memprot_cr 4 0 in
      (pci_write io access k 0 0 mch_function memprot_cr 4 (bit_and r.0 (not32 memprot_en))).0

  disable_at : Option (H × ℕ) → Option H
  unfolding dev_disable_sl disable_memprot
  disable_at none = none
  disable_at (some (h, cap)) = some (if cap == 0 then disable_memprot h else dev_disable_sl h cap)

  unfoldable pub disable_memory_protection : ℕ → H → Option H
  unfolding dev_locate disable_at
  disable_memory_protection fuel h = disable_at (dev_locate fuel h)
