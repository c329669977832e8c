-- ===== src/Tests/Whole.antt =====
-- The whole path with enable_tpm, on the machine of the kernel's test and a TPM 1.2 that takes no
-- command.
use secure_kernel_loader.Base.{ℕ, ◌≡◌, refl, false, Option, some}
use secure_kernel_loader.Tpm.Types.{tpm20, tpm_tis}
use secure_kernel_loader.Tpm.Mmio.{Registers, Port}
use secure_kernel_loader.Base.Memory.{memset}
use secure_kernel_loader.Pci.{pci_locate, pci_conf1_read, pci_read, pci_init}
use secure_kernel_loader.Iommu.{iommu_setup}
use secure_kernel_loader.Linux.{find_entry, is_in_kernel}
use secure_kernel_loader.Tpm.Buff.{alloc_tpmbuff, tpmb_trim, tpmb_free, tpmb_reserve, tpmb_put}
use secure_kernel_loader.Tpm.Tpm1.{build_extend, send_extend, tpm1_pcr_extend}
use secure_kernel_loader.Tpm.Front.{tpm_request_locality, tpm_extend_pcr, tpm_relinquish_locality}
use secure_kernel_loader.EventLog.{log_event_tpm12, log_record, log_write}
use secure_kernel_loader.EventLog.Init.{event_log_init}
use secure_kernel_loader.Tags.{check_format, next_where, next_tag, only_where}
use secure_kernel_loader.Sha.Sha1.{sha1sum}
use secure_kernel_loader.Sha.Stream.{once_loop}
use secure_kernel_loader.Loader.Measure.{extend_pcr, release}
use secure_kernel_loader.Loader.Boot.{main_format, setup}
use secure_kernel_loader.Tpm.Enable.{enable_tpm}
use secure_kernel_loader.Tpm.Tis.Recv.{tis_init}
use secure_kernel_loader.Tpm.Tis.{
  tis_request_locality, tis_relinquish_locality, tis_send, wait_ready, wait_valid, burst_wait,
  write_burst, write_round,
}
use secure_kernel_loader.Loader.{linux_boot, Loader, Outcome, returns}
use secure_kernel_loader.Loader.Enable.{whole_main}
use secure_kernel_loader.Tests.Linux.{places, regs, no_iommu, memory, main_memory}

-- The status is ready and valid and expects no data, and every word is 1.
abbrev full : Registers ℕ
full = record {
  ioread8 = λ c a. (c, 0xE0);
  iowrite8 = λ c v a. c;
  ioread32 = λ c a. (c, 1);
  iowrite32 = λ c v a. c;
  io_delay = λ c. c;
}

abbrev power_on : Loader (Port ℕ) ℕ
power_on = record {
  hardware = 0;
  boot_protocol = linux_boot;
  tpm = record {
    family = tpm20;
    intf = tpm_tis;
    has_buff = false;
    buff = record {
      truesize = 0;
      len = 0;
      locked = false;
      head = 0;
      body = 0;
      tail = 0;
      end_at = 0;
    };
    memory = main_memory;
    device = record { locality = 0xFF; chip = 0 };
  };
  log = record { evtlog_base = 0; ptr_current = 0; limit = 0; memory = main_memory };
}

abbrev left : Option (Outcome (Port ℕ) ℕ) → Loader (Port ℕ) ℕ
left (some (returns k entry zero_page)) = k
left o = power_on

unfoldable booted : Loader (Port ℕ) ℕ
unfolding whole_main
booted = left (whole_main full (λ c. 0) no_iommu regs (λ s. s) places 4 power_on)

booted_lem :
    whole_main full (λ c. 0) no_iommu regs (λ s. s) places 4 power_on
    ≡ some (returns booted 0x1050 0x3000)
unfolding whole_main booted memory main_memory check_format next_where next_tag event_log_init
    only_where tpm_request_locality extend_pcr tpm_extend_pcr tpm1_pcr_extend build_extend
    tpmb_reserve tpmb_free alloc_tpmbuff tpmb_put send_extend log_event_tpm12 log_record log_write
    setup iommu_setup pci_locate pci_read pci_init pci_conf1_read find_entry is_in_kernel release
    tpm_relinquish_locality sha1sum once_loop memset tpmb_trim enable_tpm tis_init
    tis_request_locality tis_relinquish_locality tis_send wait_ready wait_valid burst_wait
    write_burst write_round main_format
booted_lem = refl
