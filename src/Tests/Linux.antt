-- ===== src/Tests/Linux.antt =====
-- A kernel of 128 bytes at 0x1000 whose entry point is 0x1050, on a machine without an IOMMU.
use secure_kernel_loader.Base.{
  ◌∷◌, [], ℕ, ◌+◌, ◌≡◌, ◌≤◌, refl, true, false, Option, some, List, ◌++◌, arith, le16, le32,
  replicate, u32,
}
use secure_kernel_loader.Base.Memory.{memset, Memory, store, load}
use secure_kernel_loader.Pci.{Io, pci_locate, pci_conf1_read, pci_read, pci_init}
use secure_kernel_loader.Iommu.{Mmio, iommu_setup}
use secure_kernel_loader.Linux.{boot_params, find_entry, is_in_kernel, has_mle_uuid}
use secure_kernel_loader.Linux.Entry.{InCode, find_entry-InCode}
use secure_kernel_loader.Tpm.Types.{tpm12, tpm20, tpm_tis}
use secure_kernel_loader.Tpm.Buff.{
  alloc_tpmbuff, tpmb_trim, TpmBuff, tpmb_free, tpmb_reserve, tpmb_put,
}
use secure_kernel_loader.Tpm.Device.{Ops, Tpm}
use secure_kernel_loader.Tpm.Tpm1.{build_extend, send_extend, tpm1_pcr_extend}
use secure_kernel_loader.Tpm.Tpm1.Command.{tpm1_pcr_extend-wire, wire_extend}
use secure_kernel_loader.Tpm.Tpm2.{send_command}
use secure_kernel_loader.Tpm.Tpm2.Wire.{wire_command}
use secure_kernel_loader.Tpm.Front.{tpm_request_locality, tpm_extend_pcr, tpm_relinquish_locality}
use secure_kernel_loader.Tpm.Front.Extend.{tpm_extend_pcr-wire}
use secure_kernel_loader.EventLog.{log_event_tpm12, log_record, log_write}
use secure_kernel_loader.EventLog.Init.{event_log_init}
use secure_kernel_loader.Tags.{check_format, next_where, next_tag, only_where}
use secure_kernel_loader.Sha.Sha1.{sha1sum}
use secure_kernel_loader.Sha.Stream.{once_loop}
use secure_kernel_loader.Loader.{linux_boot, Loader, Outcome, returns}
use secure_kernel_loader.Loader.Measure.{extend_pcr, release}
use secure_kernel_loader.Loader.Boot.{skl_main, Places, skl_linux, setup}

abbrev pub kernel : List ℕ
kernel =
    replicate 16 0x90
    ++ (le32 0x506f544c
        ++ (replicate 12 0
            ++ (le32 0x30
                ++ (replicate 12 0
                    ++ (le32 0x9082ac5a
                        ++ (le32 0x74a7476f
                            ++ (le32 0xa2555c0f
                                ++ (le32 0x42b651cb ++ (replicate 8 0 ++ le32 0x50)))))))))

unfoldable pub memory : Memory
unfolding store
memory =
    let m1 = store (λ x. 0) 0x1000 kernel in
    let m2 = store m1 102 (le32 0x3000) in
    let m3 = store m2 0x31f4 (le32 8) in
    let m4 = store m3 0x3206 (le16 0x20f) in
    let m5 = store m4 0x3214 (le32 0x1000) in
    let m6 = store m5 0x3248 (le32 0x60 ++ le32 0x20) in store m6 0x3268 (le32 0x10)

found : find_entry memory (boot_params memory 0x3000) ≡ some 0x1050
unfolding find_entry memory is_in_kernel
found = refl

find_entry-InCode_example :
    let b = boot_params memory 0x3000 in
    (0x1050 ≡ u32 (0x1000 + 0x50))
    × InCode b 0x1050
    × InCode b 0x1030
    × InCode b 0x1010
    × (0x020f ≤ b.version)
    × (has_mle_uuid memory 0x1030 ≡ true)
unfolding memory
find_entry-InCode_example = find_entry-InCode memory (boot_params memory 0x3000) 0x1050 found

abbrev pub no_iommu : Io ℕ
no_iommu = record {
  outb = λ h v p. h;
  outw = λ h v p. h;
  outl = λ h v p. v;
  inb = λ h p. (h, 0);
  inw = λ h p. (h, 0);
  inl = λ h p. (h, 0);
  iowrite8 = λ h v a. h;
  iowrite16 = λ h v a. h;
  iowrite32 = λ h v a. h;
  ioread8 = λ h a. (h, 0);
  ioread16 = λ h a. (h, 0);
  ioread32 = λ h a. (h, 0);
  rdmsr = λ h i. 0;
}

abbrev pub taking : Ops ℕ
taking = record {
  request_locality = λ d l. (d, l);
  relinquish_locality = λ d. d;
  send = λ d m b. some (record { device = d + 1; size = b.len });
  recv = λ family d m b. some (record { device = d; memory = m; buff = b; size = b.len });
}

abbrev buff : TpmBuff
buff = record {
  truesize = 1024;
  len = 0;
  locked = false;
  head = 0x4000;
  body = 0;
  tail = 0;
  end_at = 0x43FF;
}

abbrev pub tpm : Tpm ℕ
tpm = record {
  family = tpm12;
  intf = tpm_tis;
  has_buff = true;
  buff = buff;
  memory = memory;
  device = 0;
}

abbrev tpm_two : Tpm ℕ
tpm_two = record {
  family = tpm20;
  intf = tpm_tis;
  has_buff = true;
  buff = buff;
  memory = memory;
  device = 0;
}

abbrev digest : List ℕ
digest = replicate 20 7

tpm1_pcr_extend-wire_example :
    (m : Memory) × (b : TpmBuff) × (b.head ≡ 0x4000)
    × (load m b.head b.len ≡ wire_extend 17 digest)
    × (tpm1_pcr_extend taking tpm 17 digest ≡ send_extend taking tpm m b)
tpm1_pcr_extend-wire_example =
    tpm1_pcr_extend-wire taking tpm 17 digest refl (omega arith) (omega arith) (omega arith) refl

tpm_extend_pcr-wire_example :
    (m : Memory) × (b : TpmBuff) × (b.head ≡ 0x4000)
    × (load m b.head b.len ≡ wire_command 17 4 digest)
    × (tpm_extend_pcr taking tpm_two 17 4 digest ≡ send_command taking tpm_two m b)
tpm_extend_pcr-wire_example =
    tpm_extend_pcr-wire taking tpm_two 17 4 digest refl refl (omega arith) (omega arith)
      (omega arith) (omega arith) refl refl

abbrev pub places : Places
places = record {
  image = record { start = 64; data_at = 100 };
  tables = record { device_table = 0x5000; command_buf = 0x7000; event_log = 0x6000 };
  tis_buff = 0x4000;
  iommu_done = 0x8000;
  tag = 0x8010;
  skl_stack_canary = 0x8020;
}

abbrev pub regs : Mmio ℕ
regs = record { get = λ h base i. 0; put = λ h base i v. h }

abbrev booting : Loader ℕ ℕ
booting = record {
  hardware = 0;
  boot_protocol = linux_boot;
  tpm = tpm;
  log = record { evtlog_base = 0; ptr_current = 0; limit = 0; memory = memory };
}

abbrev left : Option (Outcome ℕ ℕ) → Loader ℕ ℕ
left (some (returns k entry zero_page)) = k
left o = booting

unfoldable booted : Loader ℕ ℕ
unfolding skl_linux
booted = left (skl_linux taking no_iommu regs (λ s. s) places 4 booting 100)

booted_lem :
    skl_linux taking no_iommu regs (λ s. s) places 4 booting 100
    ≡ some (returns booted 0x1050 0x3000)
unfolding skl_linux booted memory setup iommu_setup pci_locate pci_read pci_init pci_conf1_read
    find_entry is_in_kernel extend_pcr tpm_extend_pcr tpm1_pcr_extend build_extend tpmb_reserve
    tpmb_free tpmb_put send_extend release tpm_relinquish_locality
booted_lem = refl

-- The whole path: the kernel above with a list of tags that names its boot parameters, no event log,
-- and the canary.
abbrev tag_bytes : List ℕ
tag_bytes = 0x0F ∷ 4 ∷ 12 ∷ 0 ∷ 0x10 ∷ 6 ∷ [] ++ (le32 0x3000 ++ 0 ∷ 2 ∷ [])

unfoldable pub main_memory : Memory
unfolding store memory
main_memory = store (store memory 0x8020 (le32 0xDEADBEEF)) 100 tag_bytes

abbrev starting : Loader ℕ ℕ
starting = record {
  hardware = 0;
  boot_protocol = linux_boot;
  tpm = record tpm { memory = main_memory };
  log = record { evtlog_base = 0; ptr_current = 0; limit = 0; memory = main_memory };
}

unfoldable entered : Loader ℕ ℕ
unfolding skl_main
entered = left (skl_main taking no_iommu regs (λ s. s) places 4 starting)

entered_lem :
    skl_main taking no_iommu regs (λ s. s) places 4 starting ≡ some (returns entered 0x1050 0x3000)
unfolding skl_main entered memory main_memory check_format next_where next_tag event_log_init
    only_where tpm_request_locality extend_pcr tpm_extend_pcr tpm1_pcr_extend build_extend
    tpmb_reserve tpmb_free alloc_tpmbuff tpmb_put send_extend log_event_tpm12 log_record log_write
    setup iommu_setup pci_locate pci_read pci_init pci_conf1_read find_entry is_in_kernel release
    tpm_relinquish_locality sha1sum once_loop memset tpmb_trim
entered_lem = refl
